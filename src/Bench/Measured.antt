-- ===== src/Bench/Measured.antt =====
-- What a group measures: the load behind its report.
use laya_rs.Base.{ℕ, ◌≡◌, ◌∙◌, List, String, nat_eq, string_eq, count}
use laya_rs.Base.Raises.{ok}
use laya_rs.Base.Action.{Action, pure, reading, ◌>>=◌, >>=-value}
use laya_rs.Base.Json.{Json}
use laya_rs.Smoke.{Host}
use laya_rs.Smoke.Service.{now}
use laya_rs.Bench.Summary.{Row, Report, summarize}
use laya_rs.Bench.Load.{State, start, Reach}
use laya_rs.Bench.Load.Workers.{is_done}
use laya_rs.Bench.Station.{Sample, boundaries, Station, write_json, station_host}
use laya_rs.Bench.Observe.{observe}
use laya_rs.Bench.Group.{prepare, conclude, close_group, reported, measured, group}
use laya_rs.Bench.Configuration.{}

module _ {W : Type 0} (host : Host W)
    (measure : String
      → String
      → Json
      → ℕ
      → ℕ
      → String
      → Action (Station W) (List Row × List Sample)) where
  -- The rows that `measure` returns are those of `load`, with as many workers as clients, all of which
  -- have returned.
  unfoldable pub IsLoad : Type 0
  IsLoad =
      (cid base : String) (fixture : Json) (clients epoch : ℕ) (directory : String) (s : Station W)
      (found : List Row × List Sample)
      → (measure cid base fixture clients epoch directory s).0 ≡ ok found
      → (t : State) × Reach (start clients) t
        × (count is_done t.workers ≡ clients)
        × (t.rows ≡ found.0)

  -- A call of `measure` for a fixture and a directory, whose rows are those of a load that all its
  -- clients have ended, with the report of these rows.
  pub record LoadOf (fixture : Json) (directory : String) (clients : ℕ) (r : Report) : Type 0 where
    pub cid : String
    pub base : String
    pub epoch : ℕ
    pub before : Station W
    pub found : List Row × List Sample
    pub final : State
    pub call : (measure cid base fixture clients epoch directory before).0 ≡ ok found
    pub reached : Reach (start clients) final
    pub ended : count is_done final.workers ≡ clients
    pub same_rows : final.rows ≡ found.0
    pub reported_eq : summarize host.unit found.0 ≡ ok r

  conclude-reported :
      (cid base : String) (clients : ℕ) (directory : String) (epoch : ℕ) (before : Sample)
      (found : List Row × List Sample) (s : Station W) (r : Report)
      → (conclude host cid base clients directory epoch before found s).0 ≡ ok r
      → summarize host.unit found.0 ≡ ok r
  unfolding conclude reported
  conclude-reported cid base clients directory epoch before found s r h =
      let last = λ (after : Sample). reported host cid clients directory before after found in
      let write = λ (after : Sample).
        write_json {W = W} directory "boundaries.json" (boundaries before after) in
      let close = λ (after : Sample) (x : Report).
        close_group host cid clients directory before after found.1 x in
      let (after, _, h1) =
        >>=-value (observe (station_host host) cid base epoch)
          (λ after. write after >>= λ _. last after) s r h in
      let (_, _, h2) = >>=-value (write after) (λ _. last after) _ r h1 in
      let (x, made, h3) =
        >>=-value (reading (λ w. summarize host.unit found.0)) (λ x. close after x >>= λ _. pure x)
          _ r h2 in
      let (_, _, h4) = >>=-value (close after x) (λ _. pure x) _ r h3 in made ∙ h4

  -- A group that returns a report: the load of its clients ended, and the report is that of its rows.
  pub group-LoadOf :
      IsLoad
      → (cid base : String) (fixture : Json) (clients : ℕ) (directory : String) (s : Station W)
        (r : Report)
      → (group host measure cid base fixture clients directory s).0 ≡ ok r
      → LoadOf fixture directory clients r
  unfolding group measured IsLoad
  group-LoadOf is_load cid base fixture clients directory s r h =
      let here = station_host host in
      let body = λ (epoch : ℕ).
        observe here cid base epoch
        >>= measured host measure cid base fixture clients directory epoch in
      let (_, _, h1) =
        >>=-value (prepare host base fixture directory) (λ _. now here >>= body) s r h in
      let (epoch, _, h2) = >>=-value (now here) body _ r h1 in
      let (before, _, h3) =
        >>=-value (observe here cid base epoch)
          (measured host measure cid base fixture clients directory epoch) _ r h2 in
      let (found, got, h4) =
        >>=-value (measure cid base fixture clients epoch directory)
          (conclude host cid base clients directory epoch before) _ r h3 in
      let done = conclude-reported cid base clients directory epoch before found _ r h4 in
      let (t, reached, ended, same) =
        is_load cid base fixture clients epoch directory _ found got in
      record {
        cid = cid;
        base = base;
        epoch = epoch;
        before = _;
        found = found;
        final = t;
        call = got;
        reached = reached;
        ended = ended;
        same_rows = same;
        reported_eq = done;
      }
