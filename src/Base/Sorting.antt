-- ===== src/Base/Sorting.antt =====
-- Python's `sorted` on numbers: the sorted list with the same numbers, here by insertion.
use Prim.Native.Nat.{ℕ, zero, suc, ◌≤◌, ◌<◌}
use mathlib.Core.Path.{◌≡◌, refl, sym}
use mathlib.Core.Bool.{Bool, cond}
use mathlib.Core.List.{List, [], ◌∷◌}
use mathlib.Core.Option.{some, some-ne-none}
use native.Mathlib.Omega.{arith}
use laya_rs.Base.Tests.{ltb, leb}
use laya_rs.Base.Lists.{length, count, get_elem?, All}

insert_sorted : ℕ → List ℕ → List ℕ
insert_sorted x [] = x ∷ []
insert_sorted x (y ∷ ys) = cond (leb x y) (x ∷ y ∷ ys) (y ∷ insert_sorted x ys)

unfoldable pub sorted : List ℕ → List ℕ
unfolding insert_sorted
sorted [] = []
sorted (x ∷ xs) = insert_sorted x (sorted xs)

abbrev pub IsSorted : List ℕ → Type 0
IsSorted [] = Unit
IsSorted (x ∷ xs) = All (λ y. x ≤ y) xs × IsSorted xs

All-mono : (x y : ℕ) (xs : List ℕ) → x ≤ y → All (λ z. y ≤ z) xs → All (λ z. x ≤ z) xs
All-mono x y [] h a = tt
All-mono x y (z ∷ zs) h a = (omega arith, All-mono x y zs h a.1)

All-insert_sorted :
    (b x : ℕ) (xs : List ℕ) → b ≤ x → All (λ z. b ≤ z) xs → All (λ z. b ≤ z) (insert_sorted x xs)
unfolding insert_sorted
All-insert_sorted b x [] h a = (h, tt)
All-insert_sorted b x (y ∷ ys) h a = ground (arith, All-insert_sorted b x ys h a.1)

insert_sorted-IsSorted : (x : ℕ) (xs : List ℕ) → IsSorted xs → IsSorted (insert_sorted x xs)
unfolding insert_sorted
insert_sorted-IsSorted x [] s = (tt, tt)
insert_sorted-IsSorted x (y ∷ ys) s =
    ground (arith, All-mono x y ys, All-insert_sorted y x ys, insert_sorted-IsSorted x ys s.1)

pub sorted-IsSorted : (xs : List ℕ) → IsSorted (sorted xs)
unfolding sorted
sorted-IsSorted [] = tt
sorted-IsSorted (x ∷ xs) = insert_sorted-IsSorted x (sorted xs) (sorted-IsSorted xs)

count-insert_sorted :
    (p : ℕ → Bool) (x : ℕ) (xs : List ℕ) → count p (insert_sorted x xs) ≡ count p (x ∷ xs)
unfolding insert_sorted
count-insert_sorted p x [] = refl
count-insert_sorted p x (y ∷ ys) = ground (arith, count-insert_sorted p x ys)

-- Every test holds of as many numbers after sorting as before.
pub count-sorted : (p : ℕ → Bool) (xs : List ℕ) → count p (sorted xs) ≡ count p xs
unfolding sorted
count-sorted p [] = refl
count-sorted p (x ∷ xs) = ground (arith, count-insert_sorted p x (sorted xs), count-sorted p xs)

length-insert_sorted : (x : ℕ) (xs : List ℕ) → length (insert_sorted x xs) ≡ suc (length xs)
unfolding insert_sorted
length-insert_sorted x [] = refl
length-insert_sorted x (y ∷ ys) = ground (arith, length-insert_sorted x ys)

pub length-sorted : (xs : List ℕ) → length (sorted xs) ≡ length xs
unfolding sorted
length-sorted [] = refl
length-sorted (x ∷ xs) = omega (arith, length-insert_sorted x (sorted xs), length-sorted xs)

count-ltb-All : (v : ℕ) (xs : List ℕ) → All (λ y. v ≤ y) xs → count (λ x. ltb x v) xs ≡ 0
count-ltb-All v [] a = refl
count-ltb-All v (x ∷ xs) a = ground (arith, count-ltb-All v xs a.1)

All-at : (b : ℕ) (xs : List ℕ) (i v : ℕ) → All (λ y. b ≤ y) xs → get_elem? xs i ≡ some v → b ≤ v
All-at b [] i v a e = absurd (some-ne-none v (sym e))
All-at b (x ∷ xs) zero v a e = ground arith
All-at b (x ∷ xs) (suc i) v a e = All-at b xs i v a.1 e

-- In a sorted list more than `i` numbers are at most the one at `i`.
pub count-le_at :
    (xs : List ℕ) (i v : ℕ) → IsSorted xs → get_elem? xs i ≡ some v → i < count (λ x. leb x v) xs
count-le_at [] i v s e = absurd (some-ne-none v (sym e))
count-le_at (x ∷ xs) zero v s e = ground arith
count-le_at (x ∷ xs) (suc i) v s e = ground (arith, All-at x xs i v s.0 e, count-le_at xs i v s.1 e)

-- In a sorted list at most `i` numbers are below the one at `i`.
pub count-lt_at :
    (xs : List ℕ) (i v : ℕ) → IsSorted xs → get_elem? xs i ≡ some v → count (λ x. ltb x v) xs ≤ i
count-lt_at [] i v s e = omega arith
count-lt_at (x ∷ xs) zero v s e = ground (arith, count-ltb-All x xs s.0)
count-lt_at (x ∷ xs) (suc i) v s e = ground (arith, count-lt_at xs i v s.1 e)
