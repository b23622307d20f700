-- ===== src/Bench/Station.antt =====
-- What the calls of docs/validation/benchmark.py work on: the files of the output directory beside the
-- rest of the world, and what `write_json` puts into them.
use laya_rs.Base.{ℕ, none, some, List, ◌∷◌, String, ◌<>◌, contains, string_eq, if◌then◌else◌}
use laya_rs.Base.Int.{ℤ}
use laya_rs.Base.Dict
use laya_rs.Base.Dict.{Dict}
use laya_rs.Base.Raises.{Exception, ok, raise, file_exists, file_not_found}
use laya_rs.Base.Action.{Action}
use laya_rs.Base.Json.{Json}
use laya_rs.Smoke.{Host}
use laya_rs.Bench.Summary.{Row, Report}

-- What `observe` returns.
pub record Sample : Type 0 where
  pub time_s : ℕ
  pub cpu_ticks : ℤ
  pub rss_kib : ℤ
  pub queue : ℤ
  pub inflight : ℤ
  pub raw : String
  pub metrics : String

-- What `report.update` adds in `group`. `cpu_percent` is kept as its three numbers: the ticks used, the
-- ticks of a second and the time between the two samples.
pub record Extra : Type 0 where
  pub clients : ℕ
  pub ticks_used : ℤ
  pub clock_ticks : ℤ
  pub time_used : ℕ
  pub rss_peak_kib : ℤ
  pub queue_max : ℤ
  pub inflight_max : ℤ
  pub resource_samples : ℕ

-- An entry of `reports` in `record_failure`.
pub record Measured : Type 0 where
  pub attempts : ℕ
  pub completed : ℕ

pub data Content : Type 0 where
  -- warmup.json and requests.jsonl
  rows : List Row → Content
  samples : List Sample → Content
  -- `before` and `after` in boundaries.json
  boundaries : Sample → Sample → Content
  -- summary.json, of a group that was measured or of one that failed
  summary : Report → Extra → Content
  failed_summary : Report → Content
  -- cold.json: `create_to_ready_s` and `first_request`
  cold : ℕ → Row → Content
  -- container.json and exit.json
  state : Json → Content
  -- environment.log
  environment : String → Content
  -- failure.json: the error, `measured_groups` and `measured_completed`
  failure : Exception → Dict String Measured → ℕ → Content
  -- protocol.json: what differs from run to run, which are the fixture's digest, its request and usage, and
  -- the version of Python
  protocol : String → Json → Json → String → Content
  -- the printed lines of a configuration
  log : Content

-- A file is named by its path. `world` is everything else.
pub record Station (W : Type 0) : Type 0 where
  pub world : W
  pub directories : List String
  pub files : Dict String Content

module _ {W : Type 0} where
  -- A call that leaves the files alone.
  abbrev pub outside : {A : Type 0} → (W → A × W) → Station W → A × Station W
  outside f s = let (a, w') = f s.world in (a, record s { world = w' })

  -- `path.write_text(...)` with the path `directory / name`
  unfoldable pub write_json : String → String → Content → Action (Station W) (Unit {0})
  unfolding Dict.insert
  write_json directory name value s =
      if contains s.directories directory
      then (ok tt, record s { files = Dict.insert (directory <> ("/" <> name)) value s.files })
      else (raise file_not_found, s)

  -- `directory.mkdir()`, in a directory that exists
  unfoldable pub mkdir : String → Action (Station W) (Unit {0})
  mkdir directory s =
      if contains s.directories directory
      then (raise file_exists, s)
      else (ok tt, record s { directories = directory ∷ s.directories })

  -- `path.open('x')` of a log, which must not exist
  unfoldable pub create_log : String → Action (Station W) (Unit {0})
  unfolding Dict.lookup Dict.insert
  create_log path s = elim (Dict.lookup path s.files) [
    | some _ ↦ (raise file_exists, s)
    | none ↦ (ok tt, record s { files = Dict.insert path log s.files })
  ]

  -- The host of a station, whose calls leave the files alone.
  abbrev pub station_host : Host W → Host (Station W)
  station_host host = record {
    urlopen = λ r. outside (host.urlopen r);
    process = λ args env. outside (host.process args env);
    clock = outside host.clock;
    sleep = λ d s. record s { world = host.sleep d s.world };
    loads = host.loads;
    read_text = host.read_text;
    show = host.show;
    api_token = host.api_token;
    unit = host.unit;
  }
