-- ===== src/Bench/Percentile.antt =====
-- The nearest-rank percentiles of `summarize` in docs/validation/benchmark.py.
use laya_rs.Base.{
  ℕ, zero, suc, ◌+◌, ◌-◌, ◌*◌, ◌/◌, ◌≤◌, ◌<◌, ◌≡◌, ap, List, none, some, arith, ltb, leb, ◌==◌,
  nat_eq, if◌then◌else◌, length, count, get_elem?, get_elem?-some,
}
use laya_rs.Base.Raises.{Raises, ok, raise, index_error}
use laya_rs.Base.Sorting.{
  sorted, sorted-IsSorted, count-sorted, length-sorted, count-le_at, count-lt_at,
}

-- `math.ceil(n / d)`. The program divides in floating point, which rounds no quotient of a count
-- below 2 ^ 40 by 100 to another side of an integer.
abbrev pub ceil_div : ℕ → ℕ → ℕ
ceil_div n d = (n + d - 1) / d

-- `times[k - 1]`: the index -1 is the last item, and an index out of range raises.
pub item_before : List ℕ → ℕ → Raises ℕ
item_before times k = elim (get_elem? times (if k == 0 then length times - 1 else k - 1)) [
  | none ↦ raise index_error
  | some v ↦ ok v
]

-- `times[math.ceil(len(times) * p / 100) - 1]`
unfoldable pub percentile : List ℕ → ℕ → Raises ℕ
unfolding item_before
percentile times p = item_before times (ceil_div (length times * p) 100)

-- The value of a percentile is found, it stands in the list at the nearest rank, and `p` percent of
-- the samples, counted exactly, separate those at most it from those below it.
pub record IsPercentile (times : List ℕ) (p v : ℕ) : Type 0 where
  pub reached : p * length times ≤ 100 * count (λ t. leb t v) times
  pub needed : 100 * count (λ t. ltb t v) times < p * length times

-- The rank that the code computes is between 1 and the length, and is the least number of samples
-- that makes up `p` percent.
rank_bounds : (n p : ℕ) → 0 < p → p ≤ 100 → 0 < n → record {
  pos : 0 < ceil_div (n * p) 100;
  inside : ceil_div (n * p) 100 ≤ n;
  up : n * p ≤ 100 * ceil_div (n * p) 100;
  down : 100 * (ceil_div (n * p) 100 - 1) < n * p;
}
rank_bounds n p h k m =
    let few : n * p ≤ n * 100 = grind arith in
    let nonzero : 0 < n * p = grind arith in
    record { pos = omega arith; inside = omega arith; up = omega arith; down = omega arith }

item_before_lem :
    (times : List ℕ) (k : ℕ)
    → 0 < k
    → k ≤ length times
    → (v : ℕ) × (item_before times k ≡ ok v) × (get_elem? times (k - 1) ≡ some v)
unfolding item_before
item_before_lem times zero h m = absurd (omega arith)
item_before_lem times (suc k) h m =
    let (v, e) = get_elem?-some times (suc k - 1) (omega arith) in (v, ground arith, e)

-- A percentile does not depend on the order of the samples.
IsPercentile-sorted :
    (samples : List ℕ) (p v : ℕ) → IsPercentile (sorted samples) p v → IsPercentile samples p v
IsPercentile-sorted samples p v ranked = omega (
  arith,
  ap (λ (n : ℕ). p * n) (length-sorted samples),
  count-sorted (λ t. leb t v) samples,
  count-sorted (λ t. ltb t v) samples,
)

-- On any samples, and for any percentage from 1 to 100, the lookup in the sorted list raises no
-- IndexError, and gives the nearest-rank percentile.
pub percentile_lem :
    (samples : List ℕ) (p : ℕ)
    → 0 < p
    → p ≤ 100
    → 0 < length samples
    → (v : ℕ) × (percentile (sorted samples) p ≡ ok v) × IsPercentile samples p v
unfolding percentile
percentile_lem samples p h k m =
    let times = sorted samples in
    let bounds = rank_bounds (length times) p h k (omega (arith, length-sorted samples)) in
    let r = ceil_div (length times * p) 100 in
    let (v, found, at) = item_before_lem times r bounds.pos bounds.inside in
    let above = count-le_at times (r - 1) v (sorted-IsSorted samples) at in
    let below = count-lt_at times (r - 1) v (sorted-IsSorted samples) at in
    (v, found, IsPercentile-sorted samples p v (omega arith))
