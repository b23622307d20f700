-- ===== src/Bench/Start.antt =====
-- `run` in docs/validation/benchmark.py, from its first line.
use laya_rs.Base.{ℕ, ◌≡◌, List, String, All}
use laya_rs.Base.Raises
use laya_rs.Base.Raises.{Raises, ok}
use laya_rs.Base.Action.{Action, pure, reading, ◌>>=◌, ◌>>◌, >>=-value}
use laya_rs.Base.Json.{Json, get}
use laya_rs.Smoke.{Host}
use laya_rs.Bench.Summary.{Row}
use laya_rs.Bench.Station.{Sample, Content, protocol, Station, write_json, mkdir}
use laya_rs.Bench.Configuration.{Arguments}
use laya_rs.Bench.Measured.{IsLoad}
use laya_rs.Bench.Run.{plan, IsSuccess, run_plan, run_plan-IsSuccess}

-- `resolve(strict=True)` of a path, the SHA-256 of a file, and `sys.version`.
pub record Site : Type 0 where
  pub resolve : String → Raises String
  pub file_digest : String → Raises String
  pub version : String

abbrev pub fixture_path : String
fixture_path = "tests/fixtures/system-one/mixed-6.json"

module _ {W : Type 0} (host : Host W) (site : Site) where
  open site use {resolve, file_digest, version}

  unfoldable pub load_fixture : Raises Json
  load_fixture = Raises.◌>>=◌ (host.read_text fixture_path) host.loads

  -- The content of protocol.json.
  unfoldable pub protocol_of : Json → Raises Content
  unfolding get
  protocol_of fixture = Raises.◌>>=◌ (file_digest fixture_path) λ sha.
      Raises.◌>>=◌ (get "request_json" fixture) λ request.
        Raises.◌>>=◌ (get "response" fixture) λ official.
          Raises.◌>>=◌ (get "usage" official) λ usage. ok (protocol sha request usage version)

  -- What comes before the loop, with the bundle's path resolved.
  unfoldable pub begin : Arguments → Action (Station W) (Arguments × Json)
  unfolding mkdir load_fixture protocol_of write_json
  begin args = do
    bundle ← reading (λ s. resolve args.bundle)
    mkdir args.output
    fixture ← reading (λ s. load_fixture)
    content ← reading (λ s. protocol_of fixture)
    write_json args.output "protocol.json" content
    pure (record args { bundle = bundle }, fixture)

  module _
      (measure : String
        → String
        → Json
        → ℕ
        → ℕ
        → String
        → Action (Station W) (List Row × List Sample))
      (names : String → Station W → List String) where
    abbrev pub go_on : Arguments × Json → Action (Station W) ℕ
    go_on (args, fixture) = run_plan host measure names args fixture

    -- The exit code.
    unfoldable pub run : Arguments → Action (Station W) ℕ
    unfolding begin run_plan
    run args = begin args >>= go_on

    -- If the rows that `measure` returns are those of a load that all its workers have ended, then, when
    -- `run` returns 0: in each of the three configurations, for each of 1, 2, 4 and 8 clients, `measure`
    -- was called with the fixture and the directory of these clients, and in the load behind its rows a
    -- request ended a minute or more after the start, a hundred requests or more were answered, and every
    -- request succeeded.
    pub run-IsSuccess :
        IsLoad host measure
        → (args : Arguments) (s : Station W) → (run args s).0 ≡ ok 0
        → (started : Arguments × Json) × ((begin args s).0 ≡ ok started)
          × All (IsSuccess host measure started.0 started.1) plan
    unfolding run
    run-IsSuccess is_load args s h =
        let (started, begun, h1) = >>=-value (begin args) go_on s 0 h in
        (started, begun, run_plan-IsSuccess host measure names is_load started.0 started.1 _ h1)
