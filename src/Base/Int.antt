-- ===== src/Base/Int.antt =====
-- Signed integers over the native numbers: `negsuc n` is -(n + 1).
use Prim.Native.Nat.{ℕ, ◌+◌, ◌-◌, max}
use mathlib.Core.Bool.{cond}
use laya_rs.Base.Tests.{leb}
use mathlib.Core.Path.{◌≡◌, sym, ap}
use mathlib.Core.Logic.{◌≢◌, dite}
use native.Mathlib.Decide.{ℕ_discrete}
use laya_rs.Base.Equality.{Eq}

pub data ℤ : Type 0 where
  pos : ℕ → ℤ
  negsuc : ℕ → ℤ

pub pos_inj : (a b : ℕ) → pos a ≡ pos b → a ≡ b
pos_inj a b p = cc

pub negsuc_inj : (a b : ℕ) → negsuc a ≡ negsuc b → a ≡ b
negsuc_inj a b p = cc

pub pos_ne_negsuc : (a b : ℕ) → pos a ≢ negsuc b
pos_ne_negsuc a b p = cc

unfoldable pub ℤ_discrete : Discrete ℤ
ℤ_discrete (pos a) (pos b) =
    dite (ℕ_discrete a b) (λ p. yes (ap pos p)) (λ n. no (λ p. n (pos_inj a b p)))
ℤ_discrete (pos a) (negsuc b) = no (pos_ne_negsuc a b)
ℤ_discrete (negsuc a) (pos b) = no (λ p. pos_ne_negsuc b a (sym p))
ℤ_discrete (negsuc a) (negsuc b) =
    dite (ℕ_discrete a b) (λ p. yes (ap negsuc p)) (λ n. no (λ p. n (negsuc_inj a b p)))

instance unfoldable pub int_eq : Eq ℤ
unfolding ℤ_discrete
int_eq = record { dec = ℤ_discrete }

-- `m - n`
abbrev pub difference : ℕ → ℕ → ℤ
difference m n = cond (leb n m) (pos (m - n)) (negsuc (n - m - 1))

infixl 6 ◌+ℤ◌ ◌-ℤ◌
abbrev pub ◌+ℤ◌ : ℤ → ℤ → ℤ
pos m +ℤ pos n = pos (m + n)
pos m +ℤ negsuc n = difference m (n + 1)
negsuc m +ℤ pos n = difference n (m + 1)
negsuc m +ℤ negsuc n = negsuc (m + n + 1)

abbrev pub ◌-ℤ◌ : ℤ → ℤ → ℤ
pos m -ℤ pos n = difference m n
pos m -ℤ negsuc n = pos (m + n + 1)
negsuc m -ℤ pos n = negsuc (m + n)
negsuc m -ℤ negsuc n = difference n m

abbrev pub max_ℤ : ℤ → ℤ → ℤ
max_ℤ (pos m) (pos n) = pos (max m n)
max_ℤ (pos m) (negsuc n) = pos m
max_ℤ (negsuc m) (pos n) = pos n
max_ℤ (negsuc m) (negsuc n) = cond (leb m n) (negsuc m) (negsuc n)
