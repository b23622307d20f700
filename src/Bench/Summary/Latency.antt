-- ===== src/Bench/Summary/Latency.antt =====
-- When `summarize` raises, and that it reports latencies exactly if the protocol was met.
use laya_rs.Base.{
  ℕ, ◌≤◌, ◌<◌, ◌≡◌, refl, ◌⊎◌, inl, inr, Bool, true, false, Option, none, some, List, [], ◌∷◌, map,
  all, Bool-cases, arith, ltb, leb, length, count,
}
use laya_rs.Base.Raises.{ok, raise, type_error}
use laya_rs.Base.Sorting.{sorted, length-sorted}
use laya_rs.Bench.Percentile.{IsPercentile, percentile_lem}
use laya_rs.Bench.Summary.{
  Counter, is_hashable, add_one, count_up, Row, Percentiles, Report, latencies, is_eligible,
  percentiles, latency, report, summarize,
}

count-below : (v w : ℕ) (xs : List ℕ) → v < w → count (λ t. leb t v) xs ≤ count (λ t. ltb t w) xs
count-below v w [] h = omega arith
count-below v w (x ∷ xs) h = ground (arith, count-below v w xs h)

-- A higher percentage never gives a lower percentile.
IsPercentile-le :
    (xs : List ℕ) (p q v w : ℕ) → IsPercentile xs p v → IsPercentile xs q w → p ≤ q → v ≤ w
IsPercentile-le xs p q v w hp hq le = elim (le_or_lt v w) [
  | inl fits ↦ fits
  | inr gt ↦ absurd (grind (arith, count-below w v xs gt))
]
  where
    le_or_lt : (a b : ℕ) → (a ≤ b) ⊎ (b < a)
    le_or_lt a b = omega arith

-- The three percentiles of a report are those of the samples, in ascending order.
pub record ArePercentiles (xs : List ℕ) (q : Percentiles) : Type 0 where
  pub at50 : IsPercentile xs 50 q.p50
  pub at95 : IsPercentile xs 95 q.p95
  pub at99 : IsPercentile xs 99 q.p99
  pub ascending : (q.p50 ≤ q.p95) × (q.p95 ≤ q.p99)

percentiles_lem :
    (xs : List ℕ)
    → 0 < length xs
    → (q : Percentiles) × (percentiles (sorted xs) ≡ ok q) × ArePercentiles xs q
unfolding percentiles
percentiles_lem xs m =
    let (a, ea, ha) = percentile_lem xs 50 (omega arith) (omega arith) m in
    let (b, eb, hb) = percentile_lem xs 95 (omega arith) (omega arith) m in
    let (c, ec, hc) = percentile_lem xs 99 (omega arith) (omega arith) m in
    (
      record { p50 = a; p95 = b; p99 = c },
      rw (ea, eb, ec),
      record {
        at50 = ha;
        at95 = hb;
        at99 = hc;
        ascending = (
          IsPercentile-le xs 50 95 a b ha hb (omega arith),
          IsPercentile-le xs 95 99 b c hb hc (omega arith),
        );
      },
    )

-- What the field `latency_ms` says.
abbrev pub LatencyOf : Bool → List ℕ → Option Percentiles → Type 0
LatencyOf met xs none = (met ≡ false) ⊎ (xs ≡ [])
LatencyOf met xs (some q) = (met ≡ true) × ArePercentiles xs q

latency-some :
    (times : List ℕ) (q : Percentiles)
    → 0 < length times
    → percentiles times ≡ ok q
    → latency true times ≡ ok (some q)
unfolding latency
latency-some [] q h e = absurd (omega arith)
latency-some (t ∷ times) q h e = rw e

pub latency_lem :
    (met : Bool) (xs : List ℕ)
    → (o : Option Percentiles) × (latency met (sorted xs) ≡ ok o) × LatencyOf met xs o
unfolding latency
latency_lem false xs = (none, refl, inl refl)
latency_lem true [] = (none, unfold sorted in refl, inr refl)
latency_lem true (x ∷ xs) =
    let (q, e, d) = percentiles_lem (x ∷ xs) (omega arith) in
    (some q, latency-some (sorted (x ∷ xs)) q (omega (arith, length-sorted (x ∷ xs))) e, (refl, d))

-- The outcome can be a key of a counter: it is no list and no dict.
abbrev pub has_key : Row → Bool
has_key r = is_hashable r.outcome

pub count_up-ok :
    (unit : ℕ) (rows : List Row) (d : Counter)
    → all has_key rows ≡ true
    → (e : Counter) × (count_up unit (map (λ (r : Row). r.outcome) rows) d ≡ ok e)
unfolding count_up
count_up-ok unit [] d h = (d, refl)
count_up-ok unit (r ∷ rows) d h =
    let first : is_hashable r.outcome ≡ true = ground arith in
    let others : all has_key rows ≡ true = ground arith in
    let (e, counted) = count_up-ok unit rows (add_one unit r.outcome d) others in
    (e, rw (first, counted) refl)

count_up-raises :
    (unit : ℕ) (rows : List Row) (d : Counter)
    → all has_key rows ≡ false
    → count_up unit (map (λ (r : Row). r.outcome) rows) d ≡ raise type_error
unfolding count_up
count_up-raises unit [] d h = cc
count_up-raises unit (r ∷ rows) d h = elim (Bool-cases (is_hashable r.outcome)) [
  | inl fine ↦
      let others : all has_key rows ≡ false = ground arith in
      rw fine (count_up-raises unit rows (add_one unit r.outcome d) others)
  | inr bad ↦ rw bad refl
]

-- On any rows: if some outcome is a list or a dict, `summarize` raises a TypeError; if none is, it
-- raises nothing. Then latencies are left out only if the protocol was not met or no request
-- succeeded; otherwise they are the nearest-rank percentiles of the successful requests' latencies,
-- and p50 <= p95 <= p99.
pub summarize-LatencyOf :
    (unit : ℕ) (rows : List Row)
    → (all has_key rows ≡ false) × (summarize unit rows ≡ raise type_error)
      ⊎ ((all has_key rows ≡ true)
          × (r : Report) × (summarize unit rows ≡ ok r)
          × LatencyOf r.protocol_met (latencies rows) r.latency_ms)
unfolding summarize report
summarize-LatencyOf unit rows =
    let (o, e, d) = latency_lem (is_eligible rows) (latencies rows) in
    elim (Bool-cases (all has_key rows)) [
      | inl fine ↦
          let (outcomes, counted) = count_up-ok unit rows [] fine in
          inr (fine, report unit rows o outcomes, rw (e, counted) refl, d)
      | inr bad ↦ inl (bad, rw (e, count_up-raises unit rows [] bad) refl)
    ]
