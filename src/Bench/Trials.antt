-- ===== src/Bench/Trials.antt =====
-- Runs of the benchmark on a small host and with a small load.
use laya_rs.Base.{
  ℕ, zero, suc, ◌+◌, ◌*◌, ◌≤◌, ◌<◌, ◌≡◌, ◌≢◌, ◌⊎◌, inl, inr, refl, ap, ◌∙◌, sym, subst, Bool, true,
  false, ◌&&◌, ◌||◌, Bool-cases, Option, none, some, List, [], ◌∷◌, ◌++◌, String, ◌==◌, nat_eq,
  string_eq, arith, if◌then◌else◌, All, contains, count, replicate, leb, get_elem?,
}
use laya_rs.Base.Int.{pos}
use laya_rs.Base.Raises.{Raises, ok, raise, index_error, attribute_error}
use laya_rs.Base.Action.{Action, ◌>>=◌}
use laya_rs.Base.Json.{text, Json, object, field, end, array, nil}
use laya_rs.Smoke.{Host}
use laya_rs.Smoke.Tests.{fixture, host, printed}
use laya_rs.Bench.Summary.{Row, second}
use laya_rs.Bench.Load.{}
use laya_rs.Bench.Station.{Sample, Content, Station, station_host}
use package.text.Mathlib.TextEquality.{eq_iff}
use laya_rs.Base.Dict
use laya_rs.Smoke.Passing.{IsAnswered}
use laya_rs.Smoke.Service.{now}
use laya_rs.Smoke.Waiting.{IsTimely}
use laya_rs.Bench.Invoke.{invoke}
use laya_rs.Bench.Group.{warm_up}
use laya_rs.Bench.Classified.{IsUncaught}
use laya_rs.Bench.Outcome.{IsMisnamed, invoke-success, invoke-IsUncaught}
use laya_rs.Bench.Failure.{record_failure}
use laya_rs.Bench.Record.{record_failure-keeps}
use laya_rs.Bench.Warming.{warm_up-enough}
use laya_rs.Bench.Configuration.{Arguments, directory_of, configuration}
use laya_rs.Bench.Measured.{IsLoad}
use laya_rs.Bench.Run.{plan, IsSuccess}
use laya_rs.Bench.Start.{Site, begin, run, run-IsSuccess}
use laya_rs.Bench.Minute.{rows, counts, ended}

abbrev sample : Sample
sample = record {
  time_s = 0;
  cpu_ticks = pos 0;
  rss_kib = pos 100;
  queue = pos 0;
  inflight = pos 1;
  raw = "";
  metrics = "";
}

abbrev measure :
    String → String → Json → ℕ → ℕ → String → Action (Station ℕ) (List Row × List Sample)
measure cid base wanted clients epoch directory s =
    (if contains counts clients then ok (rows 100, sample ∷ []) else raise index_error, s)

abbrev stat_text : String
stat_text = "1 (laya) S 0 0 0 0 0 0 0 0 0 0 5 6 0\nName: laya\nVmRSS: 100 kB\n"

-- What a container prints here.
abbrev shown : List String → String
shown args =
    if contains args "getconf"
    then "100\n"
    else if contains args "exec"
    then stat_text
    else printed args

-- A host whose clock goes on by a second whenever it is read.
abbrev slow_host : Host ℕ
slow_host = record host {
  process = λ args env w. (ok (record { returncode = 0; stdout = shown args; stderr = "" }), w);
  clock = λ w. (w, w + second);
}

measure-IsLoad : IsLoad slow_host measure
unfolding IsLoad
measure-IsLoad cid base wanted clients epoch directory s found h =
    elim (Bool-cases (contains counts clients)) [
      | inl counted ↦
          let h1 : ◌≡◌ {A = Raises (List Row × List Sample)} (ok (rows 100, sample ∷ []))
              (ok found) =
            rw counted at h in
          let (t, reached, all_done, same) = ended clients counted in
          (t, reached, all_done, same ∙ ap first_rows h1)
      | inr other ↦ absurd (raises found (rw other at h))
    ]
  where
    raises :
        (found : List Row × List Sample)
        → ◌≢◌ {A = Raises (List Row × List Sample)} (raise index_error) (ok found)
    raises found e = cc

    first_rows : Raises (List Row × List Sample) → List Row
    first_rows (ok p) = p.0
    first_rows (raise e) = []

abbrev args : Arguments
args = record { image = "laya"; bundle = "/b"; output = "/o" }

abbrev before : Station ℕ
before = record { world = 0; directories = "/o" ∷ []; files = [] }

abbrev site : Site
site = record { resolve = λ path. ok path; file_digest = λ path. ok "digest"; version = "3" }

-- Before the output directory is made.
abbrev empty : Station ℕ
empty = record { world = 0; directories = []; files = [] }

run_returns : (run slow_host site measure (λ d s. []) args empty).0 ≡ ok 0
unfolding run string_eq laya_rs.Base.ℕ_discrete laya_rs.Base.Text.decimal
    laya_rs.Base.Text.ends_with laya_rs.Bench.Configuration.is_zero
run_returns = refl

run-IsSuccess_example :
    (started : Arguments × Json) × ((begin slow_host site args empty).0 ≡ ok started)
    × All (IsSuccess slow_host measure started.0 started.1) plan
run-IsSuccess_example =
    run-IsSuccess slow_host site measure (λ d s. []) measure-IsLoad args empty run_returns

configuration_returns : (configuration slow_host measure args 1 1 fixture before).0 ≡ ok true
unfolding configuration string_eq laya_rs.Base.ℕ_discrete laya_rs.Base.Text.decimal
    laya_rs.Base.Text.ends_with laya_rs.Bench.Configuration.is_zero
configuration_returns = refl

abbrev url : String
url = "http://127.0.0.1:4000"

abbrev asked_row : Row
asked_row = record {
  start_s = 0;
  end_s = 1_000_000_001;
  latency_ms = 1_000_000_001;
  status = 200;
  outcome = text "success";
}

invoke_returns : (invoke slow_host url fixture 0 0).0 ≡ ok asked_row
unfolding invoke string_eq laya_rs.Base.ℕ_discrete laya_rs.Base.Text.ends_with
invoke_returns = refl

invoke-success_example :
    ((asked_row.status ≡ 200) × IsAnswered slow_host url fixture)
    ⊎ IsMisnamed slow_host url fixture asked_row.status
invoke-success_example = invoke-success slow_host url fixture 0 0 asked_row invoke_returns refl

-- A service whose answers are a list.
abbrev odd_host : Host ℕ
odd_host = record slow_host { loads = λ s. ok (object (field "answers" (array nil) end)) }

invoke_raises : (invoke odd_host url fixture 0 0).0 ≡ raise attribute_error
unfolding invoke string_eq laya_rs.Base.ℕ_discrete laya_rs.Base.Text.ends_with
invoke_raises = refl

invoke-IsUncaught_example : IsUncaught attribute_error
invoke-IsUncaught_example = invoke-IsUncaught odd_host url fixture 0 0 attribute_error invoke_raises

-- A configuration that failed after its first group was reported.
abbrev failed_files : Station ℕ
failed_files = record {
  world = 0;
  directories = "/o/c1" ∷ "/o" ∷ [];
  files =
      ("/o/c1/requests.jsonl", Content.rows (rows 3)) ∷ ("/o/c1/summary.json", Content.log) ∷ [];
}

not_failure : ◌≢◌ {A = String} "/o/c1/summary.json" "/o/failure.json"
not_failure = ground (arith, eq_iff "/o/c1/summary.json" "/o/failure.json")

record_failure-keeps_example :
    Dict.lookup "/o/c1/summary.json"
      (record_failure host.unit ("c1" ∷ []) "/o" index_error failed_files).1.files
    ≡ some Content.log
unfolding Dict.lookup string_eq
record_failure-keeps_example =
    record_failure-keeps host.unit ("c1" ∷ []) "/o" index_error failed_files "/o/c1/summary.json"
      Content.log not_failure refl

abbrev slow_host_IsTimely : IsTimely (station_host slow_host)
slow_host_IsTimely = record {
  time = λ s. s.world;
  read = λ s. (omega arith, omega arith);
  slept = λ d s. omega arith;
}

invoke_spends :
    (epoch : ℕ) (s : Station ℕ)
    → s.world + 1 ≤ (invoke (station_host slow_host) url fixture epoch s).1.world
unfolding invoke string_eq laya_rs.Base.ℕ_discrete laya_rs.Base.Text.ends_with
invoke_spends epoch s = omega arith

warm_up-enough_example :
    (now (station_host slow_host) >>= λ epoch.
    warm_up slow_host (suc (10 * second)) url fixture epoch [])
      before
    ≡ (now (station_host slow_host) >>= λ epoch.
          warm_up slow_host (suc (10 * second + 3)) url fixture epoch [])
        before
warm_up-enough_example =
    warm_up-enough slow_host slow_host_IsTimely url fixture invoke_spends 3 before
