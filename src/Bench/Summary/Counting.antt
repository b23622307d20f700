-- ===== src/Bench/Summary/Counting.antt =====
-- What the counts and the rates of a report say of the rows.
use laya_rs.Base.{
  ◌<◌, ap, sym, ◌∙◌, false, all, All, ◌||◌, ℕ, zero, suc, ◌+◌, ◌-◌, ◌*◌, ◌≤◌, ◌≡◌, ◌≢◌, refl,
  String, Bool, true, not, Option, none, some, List, [], ◌∷◌, map, arith, leb, ◌==◌, nat_eq,
  string_eq, length, count, any, ◌↔◌, count-le_length,
}
use package.text.Mathlib.TextEquality.{eq_iff}
use laya_rs.Base.Raises.{ok}
use laya_rs.Base.Json.{Json, null, boolean, number, text, array, object}
use laya_rs.Bench.Summary.{
  Row, Percentiles, Report, Ratio, Counter, second, is_text, is_success, is_completed, is_rejected,
  last_end, tally, count_up, rate, is_eligible, report, summarize, latencies,
}
use laya_rs.Bench.Summary.Tallied.{one_if, tally-count_up}
use laya_rs.Bench.Summary.Latency.{has_key, count_up-ok, latency_lem}

abbrev pub has_outcome : String → Row → Bool
has_outcome name r = is_text name r.outcome

count-outcomes :
    (rows : List Row) (j : String)
    → count (is_text j) (map (λ (r : Row). r.outcome) rows) ≡ count (has_outcome j) rows
count-outcomes [] j = refl
count-outcomes (r ∷ rows) j = ground (arith, count-outcomes rows j)

-- What a run that was timed out somewhere is called.
abbrev pub is_timeout : Row → Bool
is_timeout r =
    has_outcome "queue_timeout" r
    || (has_outcome "inference_timeout" r || has_outcome "transport_timeout" r)

queue_ne_inference : ◌≢◌ {A = String} "queue_timeout" "inference_timeout"
queue_ne_inference = ground (arith, eq_iff "queue_timeout" "inference_timeout")

queue_ne_transport : ◌≢◌ {A = String} "queue_timeout" "transport_timeout"
queue_ne_transport = ground (arith, eq_iff "queue_timeout" "transport_timeout")

inference_ne_transport : ◌≢◌ {A = String} "inference_timeout" "transport_timeout"
inference_ne_transport = ground (arith, eq_iff "inference_timeout" "transport_timeout")

one_timeout :
    (o : Json)
    → one_if (is_text "queue_timeout" o)
        + one_if (is_text "inference_timeout" o)
        + one_if (is_text "transport_timeout" o)
      ≡ one_if (
          is_text "queue_timeout" o
          || (is_text "inference_timeout" o || is_text "transport_timeout" o))
one_timeout null = refl
one_timeout (boolean b) = refl
one_timeout (number n) = refl
one_timeout (text s) =
    ground (arith, queue_ne_inference, queue_ne_transport, inference_ne_transport)
one_timeout (array xs) = refl
one_timeout (object fs) = refl

count-is_timeout :
    (rows : List Row)
    → count (has_outcome "queue_timeout") rows
        + count (has_outcome "inference_timeout") rows
        + count (has_outcome "transport_timeout") rows
      ≡ count is_timeout rows
count-is_timeout [] = refl
count-is_timeout (r ∷ rows) = ground (arith, count-is_timeout rows, one_timeout r.outcome)

-- The server refused the request: Too Many Requests or Service Unavailable.
abbrev pub has_rejection : Row → Bool
has_rejection r = r.status == 429 || r.status == 503

abbrev pub late : Row → Bool
late r = leb (60 * second) r.end_s

-- The report's counts, each as a count of rows.
pub record Describes (unit : ℕ) (rows : List Row) (r : Report) : Type 0 where
  pub attempted : r.attempts ≡ length rows
  pub answered : r.completed ≡ count is_completed rows
  pub succeeded : r.successes ≡ count (has_outcome "success") rows
  pub by_outcome : (k : String) → tally unit r.outcomes (text k) ≡ count (has_outcome k) rows
  pub failed :
      r.error_rate ≡ rate (count (λ (x : Row). not (has_outcome "success" x)) rows) (length rows)
  pub timed_out : r.timeout_rate ≡ rate (count is_timeout rows) (length rows)
  pub rejected : r.rejection_rate ≡ rate (count has_rejection rows) (length rows)
  pub bounded : All (λ (x : Row). x.end_s ≤ r.elapsed_s) rows
  pub reached : 0 < r.elapsed_s → any (λ (x : Row). leb r.elapsed_s x.end_s) rows ≡ true
  pub rate_met :
      r.protocol_met ≡ true
      → (q : Ratio) × (r.success_qps ≡ some q)
        × (q.num ≡ count (has_outcome "success") rows)
        × (q.den ≡ r.elapsed_s)
  pub rate_unmet : r.protocol_met ≡ false → r.success_qps ≡ none
  pub judged : (r.protocol_met ≡ true) ↔ ((any late rows ≡ true) × (100 ≤ count is_completed rows))

count-not :
    (p : Row → Bool) (rows : List Row) → length rows - count p rows ≡ count (λ r. not (p r)) rows
count-not p [] = omega arith
count-not p (r ∷ rows) = ground (arith, count-not p rows, count-le_length p rows)

tally-outcomes :
    (unit : ℕ) (rows : List Row) (outcomes : Counter) (k : String)
    → count_up unit (map (λ (r : Row). r.outcome) rows) [] ≡ ok outcomes
    → tally unit outcomes (text k) ≡ count (has_outcome k) rows
unfolding tally
tally-outcomes unit rows outcomes k h =
    omega
      (arith, tally-count_up unit (map (λ (r : Row). r.outcome) rows) [] k h, count-outcomes rows k)

count-rejected : (rows : List Row) → count is_rejected rows ≡ count has_rejection rows
count-rejected [] = refl
count-rejected (r ∷ rows) = ground (arith, count-rejected rows)

All-weaken :
    (t u : ℕ) (rows : List Row)
    → t ≤ u
    → All (λ (x : Row). x.end_s ≤ t) rows
    → All (λ (x : Row). x.end_s ≤ u) rows
All-weaken t u [] le a = tt
All-weaken t u (r ∷ rows) le a = (omega (arith, a.0), All-weaken t u rows le a.1)

all-last_end : (rows : List Row) → All (λ (x : Row). x.end_s ≤ last_end rows) rows
unfolding last_end
all-last_end [] = tt
all-last_end (r ∷ rows) =
    (ground arith, All-weaken (last_end rows) _ rows (ground arith) (all-last_end rows))

le-last_end :
    (t : ℕ) (rows : List Row)
    → leb (suc t) (last_end rows) ≡ any (λ (r : Row). leb (suc t) r.end_s) rows
unfolding last_end
le-last_end t [] = ground arith
le-last_end t (r ∷ rows) = ground (arith, le-last_end t rows)

last_end-reached :
    (rows : List Row) (t : ℕ)
    → last_end rows ≡ t
    → 0 < t
    → any (λ (r : Row). leb t r.end_s) rows ≡ true
last_end-reached rows zero e h = absurd (omega arith)
last_end-reached rows (suc t) e h =
    let reached : leb (suc t) (last_end rows) ≡ true = ground arith in
    sym (le-last_end t rows) ∙ reached

-- The last request to end did so a minute or more after the start exactly if some request did.
is_eligible_iff :
    (rows : List Row)
    → (is_eligible rows ≡ true) ↔ ((any late rows ≡ true) × (100 ≤ count is_completed rows))
unfolding is_eligible
is_eligible_iff rows = ground (arith, le-last_end (60 * second - 1) rows)

report-Describes :
    (unit : ℕ) (rows : List Row) (o : Option Percentiles) (outcomes : Counter)
    → count_up unit (map (λ (r : Row). r.outcome) rows) [] ≡ ok outcomes
    → Describes unit rows (report unit rows o outcomes)
unfolding report
report-Describes unit rows o outcomes h = record {
  attempted = refl;
  answered = refl;
  succeeded = refl;
  by_outcome = λ k. tally-outcomes unit rows outcomes k h;
  failed = ap (λ (n : ℕ). rate n (length rows)) (count-not is_success rows);
  timed_out =
      ap (λ (n : ℕ). rate n (length rows))
        (omega (
          arith,
          tally-outcomes unit rows outcomes "queue_timeout" h,
          tally-outcomes unit rows outcomes "inference_timeout" h,
          tally-outcomes unit rows outcomes "transport_timeout" h,
          count-is_timeout rows,
        ));
  rejected = ap (λ (n : ℕ). rate n (length rows)) (count-rejected rows);
  bounded = all-last_end rows;
  reached = last_end-reached rows (last_end rows) refl;
  rate_met = λ met. (_, rw met refl, refl, refl);
  rate_unmet = λ unmet. rw unmet refl;
  judged = is_eligible_iff rows;
}

-- On any rows, if no outcome is a list or a dict, `summarize` returns a report whose figures describe
-- the rows: every text is counted as often as it occurs as an outcome; the error rate counts all rows
-- but the successes, the timeout rate the rows with one of the three timeout outcomes and the
-- rejection rate those with the status 429 or 503, each over all rows (and absent without rows); the
-- elapsed time is the latest end of a request, and zero without rows; the rate of successes is their
-- number over the elapsed time if the protocol was met, and absent if not; and the protocol was met
-- exactly if some request ended a minute or more after the start and at least a hundred requests
-- were answered.
pub summarize-Describes :
    (unit : ℕ) (rows : List Row)
    → all has_key rows ≡ true
    → (r : Report) × (summarize unit rows ≡ ok r) × Describes unit rows r
unfolding summarize
summarize-Describes unit rows h =
    let (o, e, d) = latency_lem (is_eligible rows) (latencies rows) in
    let (outcomes, counted) = count_up-ok unit rows [] h in
    (
      report unit rows o outcomes,
      rw (e, counted) refl,
      report-Describes unit rows o outcomes counted,
    )
