-- ===== src/Bench/Group.antt =====
-- `group` in docs/validation/benchmark.py: a warm-up, the measured load and the report of one number of
-- clients.
use laya_rs.Base.{
  ℕ, zero, suc, ◌-◌, ◌*◌, Bool, true, false, ◌||◌, not, List, [], ◌∷◌, ◌++◌, String, ◌==◌, nat_eq,
  string_eq, if◌then◌else◌, length, ltb, any,
}
use laya_rs.Base.Int.{ℤ, pos, int_eq, ◌-ℤ◌, max_ℤ}
use laya_rs.Base.Raises.{Raises, ok, raise, value_error, runtime_error, other_error}
use laya_rs.Base.Action.{Action, pure, reading, ◌>>=◌, ◌>>◌}
use laya_rs.Base.Json.{Json, int_of}
use laya_rs.Smoke.{Host}
use laya_rs.Smoke.Service.{docker, now}
use laya_rs.Bench.Summary.{Row, Report, second, is_success, summarize}
use laya_rs.Bench.Station.{
  Sample, Extra, rows, boundaries, summary, Station, write_json, mkdir, station_host,
}
use laya_rs.Bench.Invoke.{invoke}
use laya_rs.Bench.Observe.{observe}

-- `max(...)` of one value of the samples, which raises for no samples
unfoldable pub peak : (Sample → ℤ) → List Sample → Raises ℤ
peak f [] = raise (value_error "max() iterable argument is empty")
peak f (s ∷ []) = ok (f s)
peak f (s ∷ t ∷ samples) = elim (peak f (t ∷ samples)) [
  | raise e ↦ raise e
  | ok m ↦ ok (max_ℤ (f s) m)
]

-- What is reported beside the report of the rows.
unfoldable pub extra_of : ℕ → ℤ → Sample → Sample → List Sample → Raises Extra
unfolding peak
extra_of clients ticks before after resources =
    if ticks == pos 0 || after.time_s == before.time_s
    then raise (other_error "ZeroDivisionError")
    else elim (peak (λ (s : Sample). s.rss_kib) (resources ++ before ∷ after ∷ [])) [
      | raise e ↦ raise e
      | ok rss ↦ elim (peak (λ (s : Sample). s.queue) resources) [
        | raise e ↦ raise e
        | ok queue ↦ elim (peak (λ (s : Sample). s.inflight) resources) [
          | raise e ↦ raise e
          | ok inflight ↦ ok (record {
            clients = clients;
            ticks_used = after.cpu_ticks -ℤ before.cpu_ticks;
            clock_ticks = ticks;
            time_used = after.time_s - before.time_s;
            rss_peak_kib = rss;
            queue_max = queue;
            inflight_max = inflight;
            resource_samples = length resources;
          })
        ]
      ]
    ]

abbrev pub is_failure : Row → Bool
is_failure r = not (is_success r)

-- `raise RuntimeError('warmup failed; samples retained')`, for rows that are not all successes
unfoldable pub warm_enough : List Row → Raises (Unit {0})
warm_enough done =
    if any is_failure done then raise (runtime_error "warmup failed; samples retained") else ok tt

module _ {W : Type 0} (host : Host W) where
  abbrev pub here : Host (Station W)
  here = station_host host

  -- The condition of the warm-up's loop, which reads the clock only after ten rows.
  unfoldable pub wants_more : ℕ → List Row → Action (Station W) Bool
  wants_more epoch done s =
      if ltb (length done) 10
      then (ok true, s)
      else (now here >>= λ t. pure (ltb (t - epoch) (10 * second))) s

  -- What a round of the loop does with its row.
  unfoldable pub warm_next :
      (List Row → Action (Station W) (List Row)) → List Row → Row → Action (Station W) (List Row)
  warm_next next done row s = elim (is_success row) [
    | false ↦ (ok (done ++ row ∷ []), s)
    | true ↦ next (done ++ row ∷ []) s
  ]

  unfoldable pub warm_round :
      (List Row → Action (Station W) (List Row))
      → String
      → Json
      → ℕ
      → List Row
      → Bool
      → Action (Station W) (List Row)
  unfolding invoke warm_next
  warm_round next base fixture epoch done false = pure done
  warm_round next base fixture epoch done true =
      invoke here base fixture epoch >>= warm_next next done

  -- The loop, on fuel, with the rows so far.
  unfoldable pub warm_up : ℕ → String → Json → ℕ → List Row → Action (Station W) (List Row)
  unfolding wants_more warm_round
  warm_up zero base fixture epoch done = pure done
  warm_up (suc fuel) base fixture epoch done =
      wants_more epoch done >>= warm_round (warm_up fuel base fixture epoch) base fixture epoch done

  -- What comes before the measured load: the directory and the warm-up.
  unfoldable pub prepare : String → Json → String → Action (Station W) (Unit {0})
  unfolding mkdir warm_up write_json warm_enough
  prepare base fixture directory = do
    mkdir directory
    epoch ← now here
    done ← warm_up (suc (10 * second)) base fixture epoch []
    write_json directory "warmup.json" (rows done)
    reading (λ w. warm_enough done)

  -- The figures beside the report, and summary.json.
  unfoldable pub close_group :
      String → ℕ → String → Sample → Sample → List Sample → Report → Action (Station W) (Unit {0})
  unfolding docker int_of extra_of write_json
  close_group cid clients directory before after resources report = do
    out ← docker here ("exec" ∷ cid ∷ "getconf" ∷ "CLK_TCK" ∷ [])
    ticks ← reading (λ w. int_of out)
    extra ← reading (λ w. extra_of clients ticks before after resources)
    write_json directory "summary.json" (summary report extra)

  unfoldable pub reported :
      String → ℕ → String → Sample → Sample → List Row × List Sample → Action (Station W) Report
  unfolding summarize close_group
  reported cid clients directory before after found =
      reading (λ w. summarize host.unit found.0) >>= λ report.
      close_group cid clients directory before after found.1 report >>= λ _. pure report

  -- What follows the load: the last sample, the report and the files.
  unfoldable pub conclude :
      String → String → ℕ → String → ℕ → Sample → List Row × List Sample → Action (Station W) Report
  unfolding observe write_json reported
  conclude cid base clients directory epoch before found = observe here cid base epoch >>= λ after.
      write_json directory "boundaries.json" (boundaries before after) >>= λ _.
      reported cid clients directory before after found

-- `measure` is the run of `load` and `sample_resources` in their threads, in the order that the scheduler
-- chose: the rows of the one and the samples of the other.
module _ {W : Type 0} (host : Host W)
    (measure : String
      → String
      → Json
      → ℕ
      → ℕ
      → String
      → Action (Station W) (List Row × List Sample)) where
  unfoldable pub measured :
      String → String → Json → ℕ → String → ℕ → Sample → Action (Station W) Report
  unfolding conclude
  measured cid base fixture clients directory epoch before =
      measure cid base fixture clients epoch directory
      >>= conclude host cid base clients directory epoch before

  unfoldable pub group : String → String → Json → ℕ → String → Action (Station W) Report
  unfolding prepare observe measured
  group cid base fixture clients directory = prepare host base fixture directory >>= λ _.
      now (here host) >>= λ epoch.
      observe (here host) cid base epoch >>= measured cid base fixture clients directory epoch
