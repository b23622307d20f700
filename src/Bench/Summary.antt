-- ===== src/Bench/Summary.antt =====
-- `summarize` in docs/validation/benchmark.py. Times are whole nanoseconds, so `latency_ms` counts
-- in millionths of a millisecond; a quotient is kept as its two numbers. `unit` is the number 1 of
-- JSON's numbers.
pub mod Tallied
pub mod Counting
pub mod Latency
use laya_rs.Base.{
  ℕ, ◌+◌, ◌-◌, ◌*◌, ◌≡◌, String, Bool, true, false, ◌&&◌, not, Option, none, some, List, [], ◌∷◌,
  map, leb, max, ◌==◌, nat_eq, string_eq, if◌then◌else◌, length, count, select, contains,
}
use laya_rs.Base.Json.{Json, null, text, array, object, json_eq}
use laya_rs.Base.Raises.{Raises, ok, raise, type_error, ◌>>=◌}
use laya_rs.Base.Sorting.{sorted}
use laya_rs.Bench.Percentile.{percentile}

-- A line of requests.jsonl. The outcome is a text, or whatever value a server gave as its error code.
pub record Row : Type 0 where
  pub start_s : ℕ
  pub end_s : ℕ
  pub latency_ms : ℕ
  pub status : ℕ
  pub outcome : Json

pub record Percentiles : Type 0 where
  pub p50 : ℕ
  pub p95 : ℕ
  pub p99 : ℕ

-- `num / den`, which the code computes only if `den` is not zero.
pub record Ratio : Type 0 where
  pub num : ℕ
  pub den : ℕ

-- A `collections.Counter`: its keys, each with its count.
abbrev pub Counter : Type 0
Counter = List (Json × ℕ)

pub record Report : Type 0 where
  pub attempts : ℕ
  pub completed : ℕ
  pub successes : ℕ
  pub elapsed_s : ℕ
  pub protocol_met : Bool
  pub latency_ms : Option Percentiles
  pub success_qps : Option Ratio
  pub error_rate : Option Ratio
  pub timeout_rate : Option Ratio
  pub rejection_rate : Option Ratio
  pub outcomes : Counter

-- A whole second in nanoseconds.
abbrev pub second : ℕ
second = 1_000_000_000

-- `value == name`, for a text
abbrev pub is_text : String → Json → Bool
is_text name (text s) = name == s
is_text name _ = false

abbrev pub is_success : Row → Bool
is_success r = is_text "success" r.outcome

-- `r['status'] != 0`: an HTTP response came back.
abbrev pub is_completed : Row → Bool
is_completed r = not (r.status == 0)

abbrev pub is_rejected : Row → Bool
is_rejected r = contains (429 ∷ 503 ∷ []) r.status

-- `max((r['end_s'] for r in rows), default=0)`
unfoldable pub last_end : List Row → ℕ
last_end [] = 0
last_end (r ∷ rows) = max r.end_s (last_end rows)

-- A list or a dict is no key.
abbrev pub is_hashable : Json → Bool
is_hashable (array xs) = false
is_hashable (object fs) = false
is_hashable _ = true

-- `counter[k]`: a missing key counts zero.
unfoldable pub tally : ℕ → Counter → Json → ℕ
unfolding json_eq
tally unit [] k = 0
tally unit ((j, n) ∷ d) k = let rest = tally unit d k in if json_eq unit k j then n else rest

-- `counter[k] += 1`
unfoldable pub add_one : ℕ → Json → Counter → Counter
unfolding json_eq
add_one unit k [] = (k, 1) ∷ []
add_one unit k ((j, n) ∷ d) =
    let rest = add_one unit k d in if json_eq unit k j then (j, n + 1) ∷ d else (j, n) ∷ rest

-- `collections.Counter(keys)`, which counts each key up in turn.
unfoldable pub count_up : ℕ → List Json → Counter → Raises Counter
unfolding add_one
count_up unit [] d = ok d
count_up unit (k ∷ keys) d =
    let rest = count_up unit keys (add_one unit k d) in
    if is_hashable k then rest else raise type_error

unfoldable pub percentiles : List ℕ → Raises Percentiles
unfolding percentile
percentiles times = do
  p50 ← percentile times 50
  p95 ← percentile times 95
  p99 ← percentile times 99
  ok (record { p50 = p50; p95 = p95; p99 = p99 })

-- `{...} if eligible and times else None`
unfoldable pub latency : Bool → List ℕ → Raises (Option Percentiles)
unfolding percentiles
latency false times = ok none
latency true [] = ok none
latency true (t ∷ times) = do found ← percentiles (t ∷ times); ok (some found)

abbrev pub rate : ℕ → ℕ → Option Ratio
rate n total = if total == 0 then none else some (record { num = n; den = total })

-- `eligible`
unfoldable pub is_eligible : List Row → Bool
unfolding last_end
is_eligible rows = leb (60 * second) (last_end rows) && leb 100 (count is_completed rows)

-- The latencies of the answered requests, in the order of the rows.
abbrev pub latencies : List Row → List ℕ
latencies rows = map (λ (r : Row). r.latency_ms) (select is_success rows)

-- The `dict(...)` that is returned, around the percentiles and the counter.
unfoldable pub report : ℕ → List Row → Option Percentiles → Counter → Report
unfolding last_end tally is_eligible
report unit rows found outcomes =
    let successes = count is_success rows in
    let elapsed = last_end rows in
    let total = length rows in
    record {
      attempts = total;
      completed = count is_completed rows;
      successes = successes;
      elapsed_s = elapsed;
      protocol_met = is_eligible rows;
      latency_ms = found;
      success_qps =
          if is_eligible rows then some (record { num = successes; den = elapsed }) else none;
      error_rate = rate (total - successes) total;
      timeout_rate =
          rate
            (tally unit outcomes (text "queue_timeout")
              + tally unit outcomes (text "inference_timeout")
              + tally unit outcomes (text "transport_timeout"))
            total;
      rejection_rate = rate (count is_rejected rows) total;
      outcomes = outcomes;
    }

unfoldable pub summarize : ℕ → List Row → Raises Report
unfolding latency sorted count_up report
summarize unit rows = do
  found ← latency (is_eligible rows) (sorted (latencies rows))
  outcomes ← count_up unit (map (λ (r : Row). r.outcome) rows) []
  ok (report unit rows found outcomes)
