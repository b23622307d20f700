-- ===== src/Bench/Observe.antt =====
-- `observe` in docs/validation/benchmark.py: one sample of the container's resources.
use laya_rs.Base.{
  ℕ, ◌-◌, Bool, ◌||◌, none, some, List, [], ◌∷◌, String, ◌==◌, nat_eq, string_eq, if◌then◌else◌,
  get_elem?, select,
}
use laya_rs.Base.Int.{ℤ, ◌+ℤ◌}
use laya_rs.Base.Dict
use laya_rs.Base.Dict.{Dict}
use laya_rs.Base.Text.{starts_with, behind_last, split_lines, words}
use laya_rs.Base.Raises.{
  Raises, ok, raise, index_error, key_error, value_error, stop_iteration, runtime_error, ◌>>=◌,
}
use laya_rs.Base.Action
use laya_rs.Base.Action.{Action, pure, reading}
use laya_rs.Base.Json.{int_of}
use laya_rs.Smoke.{Host}
use laya_rs.Smoke.Service.{docker, request, now}
use laya_rs.Bench.Station.{Sample}

-- `xs[i]`
unfoldable pub at : List String → ℕ → Raises String
at xs i = elim (get_elem? xs i) [ none ↦ raise index_error | some s ↦ ok s ]

-- `lines[0].rsplit(')', 1)[1].split()`
unfoldable pub stat_fields : List String → Raises (List String)
unfolding at behind_last words
stat_fields lines = do
  first ← at lines 0
  elim (behind_last 41 first) [ none ↦ raise index_error | some rest ↦ ok (words rest) ]

-- The first line of VmRSS, as a number.
unfoldable pub resident : List String → Raises ℤ
unfolding at starts_with words int_of
resident [] = raise stop_iteration
resident (line ∷ lines) =
    let rest = resident lines in
    if starts_with "VmRSS:" line then (at (words line) 1 >>= int_of) else rest

abbrev pub is_gauge : String → Bool
is_gauge line = starts_with "laya_queue_size " line || starts_with "laya_inference_inflight " line

-- `dict(line.split() for line in lines)`, which takes pairs only
unfoldable pub pairs : List String → Dict String String → Raises (Dict String String)
unfolding Dict.insert words
pairs [] d = ok d
pairs (line ∷ lines) d = elim (words line) [
  | key ∷ value ∷ [] ↦ pairs lines (Dict.insert key value d)
  | _ ↦ raise (value_error "dictionary update sequence element")
]

-- `int(gauges[key])`
unfoldable pub gauge : String → Dict String String → Raises ℤ
unfolding Dict.lookup int_of
gauge key d = elim (Dict.lookup key d) [ none ↦ raise key_error | some value ↦ int_of value ]

abbrev pub probe : String
probe = "cat /proc/1/stat; cat /proc/1/status; cat /sys/fs/cgroup/memory.events"

-- What is read of the process before the metrics are asked for.
unfoldable pub process_figures : String → Raises (List String × ℤ)
unfolding split_lines stat_fields resident
process_figures raw = do
  fields ← stat_fields (split_lines raw)
  rss ← resident (split_lines raw)
  ok (fields, rss)

-- The gauges of a metrics response.
unfoldable pub gauges_of : ℕ × String → Raises (Dict String String)
unfolding split_lines starts_with pairs
gauges_of (status, metrics) =
    if status == 200
    then pairs (select is_gauge (split_lines metrics)) []
    else raise (runtime_error "metrics unavailable")

-- The sample, from all that was read.
unfoldable pub sample_of :
    String → List String × ℤ → String → Dict String String → ℕ → Raises Sample
unfolding at int_of gauge
sample_of raw (fields, rss) metrics gauges time = do
  user ← at fields 11 >>= int_of
  system ← at fields 12 >>= int_of
  queue ← gauge "laya_queue_size" gauges
  inflight ← gauge "laya_inference_inflight" gauges
  ok (record {
    time_s = time;
    cpu_ticks = user +ℤ system;
    rss_kib = rss;
    queue = queue;
    inflight = inflight;
    raw = raw;
    metrics = metrics;
  })

module _ {W : Type 0} (host : Host W) where
  unfoldable pub observe : String → String → ℕ → Action W Sample
  unfolding docker process_figures request gauges_of sample_of
  observe cid base epoch =
      Action.◌>>=◌ (docker host ("exec" ∷ cid ∷ "sh" ∷ "-ec" ∷ probe ∷ [])) λ raw.
        Action.◌>>=◌ (reading (λ w. process_figures raw)) λ figures.
          Action.◌>>=◌ (request host base "/metrics" none) λ reply.
            Action.◌>>=◌ (reading (λ w. gauges_of reply)) λ gauges.
              Action.◌>>=◌ (now host)
                λ time. reading (λ w. sample_of raw figures reply.1 gauges (time - epoch))
