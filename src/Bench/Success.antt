-- ===== src/Bench/Success.antt =====
-- What a configuration that succeeds has measured.
use laya_rs.Base.{
  ℕ, ◌≡◌, sym, ◌∙◌, subst, true, some, List, [], ◌∷◌, String, nat_eq, string_eq, All, all,
}
use laya_rs.Base.Raises.{ok}
use laya_rs.Base.Action.{Action, pure, ◌>>=◌, >>=-value, always, always-ok}
use laya_rs.Base.Json.{Json}
use laya_rs.Smoke.{Host}
use laya_rs.Smoke.Service.{docker, now, container, exit_code, base_url}
use laya_rs.Smoke.Cleanup.{container-Ran}
use laya_rs.Bench.Summary.{Row, Report}
use laya_rs.Bench.Station.{Sample, Station, mkdir, station_host}
use laya_rs.Bench.Group.{group}
use laya_rs.Bench.Configuration.{
  Arguments, is_met, server_options, directory_of, inventory, groups, first_request, stop, trial,
  write_exit, observed, configuration,
}
use laya_rs.Bench.Measured.{IsLoad, group-LoadOf}
use laya_rs.Bench.Clean.{group_directory, CleanLoad, Loads, no_load, and_load, Loads-CleanLoad}

module _ {W : Type 0} (host : Host W)
    (measure : String
      → String
      → Json
      → ℕ
      → ℕ
      → String
      → Action (Station W) (List Row × List Sample))
    (is_load : IsLoad host measure) where
  abbrev here : Host (Station W)
  here = station_host host

  groups-Loads :
      (cid base : String) (fixture : Json) (directory : String) (cs : List ℕ) (s : Station W)
      (rs : List Report)
      → (groups host measure cid base fixture directory cs s).0 ≡ ok rs
      → Loads host measure fixture directory cs rs
  unfolding groups
  groups-Loads cid base fixture directory [] s rs h =
      let e : rs ≡ [] = cc in subst (Loads host measure fixture directory []) (sym e) no_load
  groups-Loads cid base fixture directory (c ∷ cs) s rs h =
      let one = group host measure cid base fixture c (group_directory directory c) in
      let rest = groups host measure cid base fixture directory cs in
      let (r, got, h1) = >>=-value one (λ r. rest >>= λ more. pure (r ∷ more)) s rs h in
      let (more, others, h2) = >>=-value rest (λ more. pure (r ∷ more)) _ rs h1 in
      let e : (r ∷ more) ≡ rs = cc in
      subst (Loads host measure fixture directory (c ∷ cs)) e (
        and_load
          (group-LoadOf host measure is_load cid base fixture c (group_directory directory c) s r
            got)
          (groups-Loads cid base fixture directory cs _ more others))

  abbrev all_clients : List ℕ
  all_clients = 1 ∷ 2 ∷ 4 ∷ 8 ∷ []

  trial-Loads :
      (fixture : Json) (directory : String) (started : ℕ) (cid : String) (s : Station W)
      (rs : List Report)
      → (trial host measure fixture directory started cid s).0 ≡ ok rs
      → Loads host measure fixture directory all_clients rs
  unfolding trial stop
  trial-Loads fixture directory started cid s rs h =
      let all_groups =
        λ (base : String). groups host measure cid base fixture directory all_clients in
      let shut : List Report → Action (Station W) (List Report) =
        λ rs. docker here ("stop" ∷ "--timeout" ∷ "130" ∷ cid ∷ []) >>= λ out. pure rs in
      let first = λ (base : String). first_request host base fixture directory started in
      let look = inventory host cid directory in
      let (base, _, h1) =
        >>=-value (base_url here cid)
          (λ base. first base >>= λ _. look >>= λ _. all_groups base >>= shut) s rs h in
      let (_, _, h2) =
        >>=-value (first base) (λ _. look >>= λ _. all_groups base >>= shut) _ rs h1 in
      let (_, _, h3) = >>=-value look (λ _. all_groups base >>= shut) _ rs h2 in
      let (rs', made, h4) = >>=-value (all_groups base) shut _ rs h3 in
      let (_, _, h5) =
        >>=-value (docker here ("stop" ∷ "--timeout" ∷ "130" ∷ cid ∷ [])) (λ out. pure rs') _ rs
          h4 in
      groups-Loads cid base fixture directory all_clients _ rs (made ∙ h5)

  observed-Loads :
      (fixture : Json) (directory : String) (started : ℕ) (cid : String) (s : Station W)
      (rs : List Report)
      → (observed host measure fixture directory started cid s).0 ≡ ok rs
      → Loads host measure fixture directory all_clients rs
  unfolding observed
  observed-Loads fixture directory started cid s rs h =
      let guarded =
        always (trial host measure fixture directory started cid) (write_exit host directory cid) in
      let (rs', ran, h1) = >>=-value guarded (λ rs. exit_code here cid 0 >>= λ _. pure rs) s rs h in
      let (_, _, h2) = >>=-value (exit_code here cid 0) (λ _. pure rs') _ rs h1 in
      let (tried, _) =
        always-ok (trial host measure fixture directory started cid) (write_exit host directory cid)
          s rs' ran in
      trial-Loads fixture directory started cid s rs (tried ∙ h2)

  -- If the rows that `measure` returns are those of a load that all its workers have ended, then, when
  -- `configuration` returns True: for each of 1, 2, 4 and 8 clients `measure` was called with the fixture
  -- and the directory of these clients, and in the load behind its rows a request ended a minute or more
  -- after the start, a hundred requests or more were answered, and every request succeeded.
  pub configuration-CleanLoad :
      (args : Arguments) (threads slots : ℕ) (fixture : Json) (s : Station W)
      → (configuration host measure args threads slots fixture s).0 ≡ ok true
      → All (CleanLoad host measure fixture (directory_of args threads slots)) (1 ∷ 2 ∷ 4 ∷ 8 ∷ [])
  unfolding configuration
  configuration-CleanLoad args threads slots fixture s h =
      let directory = directory_of args threads slots in
      let options = server_options threads slots in
      let body = λ (started : ℕ). observed host measure fixture directory started in
      let run =
        λ (started : ℕ). container here args.image (some args.bundle) options [] (body started) in
      let (_, _, h1) =
        >>=-value (mkdir directory)
          (λ _. now here >>= λ started. run started >>= λ rs. pure (all is_met rs)) s true h in
      let (started, _, h2) =
        >>=-value (now here) (λ started. run started >>= λ rs. pure (all is_met rs)) _ true h1 in
      let (rs, ran, h3) = >>=-value (run started) (λ rs. pure (all is_met rs)) _ true h2 in
      let met : all is_met rs ≡ true = cc in
      let parts =
        container-Ran here args.image (some args.bundle) options [] (body started) _ rs ran in
      Loads-CleanLoad host measure
        (observed-Loads fixture directory started parts.cid parts.running rs parts.body_eq) met
