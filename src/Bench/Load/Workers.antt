-- ===== src/Bench/Load/Workers.antt =====
-- Where the workers of `load` stand, and how many stand where.
use laya_rs.Base.{
  ℕ, zero, suc, ◌+◌, ◌≡◌, refl, Bool, true, false, some, List, [], ◌∷◌, arith, get_elem?, length,
  count, replicate, if◌then◌else◌,
}

-- At the head of the loop, in `invoke`, returned, ended by an exception.
pub data Phase : Type 0 where
  ready calling done failed : Phase

abbrev pub set : List Phase → ℕ → Phase → List Phase
set [] i p = []
set (q ∷ ps) zero p = p ∷ ps
set (q ∷ ps) (suc i) p = q ∷ set ps i p

abbrev pub is_ready : Phase → Bool
is_ready ready = true
is_ready _ = false

abbrev pub is_calling : Phase → Bool
is_calling calling = true
is_calling _ = false

abbrev pub is_done : Phase → Bool
is_done done = true
is_done _ = false

abbrev pub is_failed : Phase → Bool
is_failed failed = true
is_failed _ = false

-- A worker that moves leaves one count and enters another.
pub count-set :
    (test : Phase → Bool) (ps : List Phase) (i : ℕ) (old new : Phase)
    → get_elem? ps i ≡ some old
    → count test (set ps i new) + (if test old then 1 else 0)
      ≡ count test ps + (if test new then 1 else 0)
count-set test [] i old new e = ground arith
count-set test (p ∷ ps) zero old new e = ground arith
count-set test (p ∷ ps) (suc i) old new e = ground (arith, count-set test ps i old new e)

pub length-set : (ps : List Phase) (i : ℕ) (p : Phase) → length (set ps i p) ≡ length ps
length-set [] i p = refl
length-set (q ∷ ps) zero p = refl
length-set (q ∷ ps) (suc i) p = omega (arith, length-set ps i p)

pub count-replicate :
    (n : ℕ)
    → (count is_calling (replicate n ready) ≡ 0)
      × (count is_done (replicate n ready) ≡ 0)
      × (count is_failed (replicate n ready) ≡ 0)
      × (count is_ready (replicate n ready) ≡ n)
count-replicate zero = (refl, refl, refl, refl)
count-replicate (suc n) = ground (arith, count-replicate n)

-- Every worker stands somewhere.
pub count_phases :
    (ps : List Phase)
    → count is_ready ps + count is_calling ps + count is_done ps + count is_failed ps ≡ length ps
count_phases [] = refl
count_phases (ready ∷ ps) = omega (arith, count_phases ps)
count_phases (calling ∷ ps) = omega (arith, count_phases ps)
count_phases (done ∷ ps) = omega (arith, count_phases ps)
count_phases (failed ∷ ps) = omega (arith, count_phases ps)
