-- ===== src/Normalize/Names.antt =====
-- The names that the expansion makes: distinct from each other, and from all names without its mark.
use Prim.Native.Char.{code}
use Prim.Native.String.{String}
use text.Mathlib.TextLemmas.{
  append_cancel_left, append_cancel_right, nil-append, cons-append, append_assoc as text_assoc,
}
use text.Mathlib.Text.{◌==◌ as str_eq}
use text.Mathlib.TextEquality.{eq_iff}
use laya_rs.Base.{ℕ, false, ◌≡◌, ◌≢◌, sym, ap, ◌∙◌, ◌<>◌, arith}
use laya_rs.Normalize.{mark, prefix_of}

-- A name that the expansion cannot make.
abbrev pub IsPlain : String → Type 0
IsPlain name = (rest : String) → name ≢ (mark <> rest)

pub plain_ne : (name result end : String) → IsPlain name → name ≢ (prefix_of result <> end)
plain_ne name result end plain e =
    plain ((result <> "_") <> end) (e ∙ text_assoc mark (result <> "_") end)

-- The second argument is `refl` for any two literals that differ.
pub same_prefix_ne : (p a b : String) → str_eq a b ≡ false → (p <> a) ≢ (p <> b)
same_prefix_ne p a b differ e = cc (differ, (eq_iff a b).1 (append_cancel_left p a b e))

-- The last two characters of a text, after two that stand in front of it.
last_two : ℕ × ℕ → String → ℕ × ℕ
last_two seen String.[] = seen
last_two (a, b) (String.◌∷◌ c s) = last_two (b, code c) s

last_two-append :
    (seen : ℕ × ℕ) (s t : String) → last_two seen (s <> t) ≡ last_two (last_two seen s) t
unfolding last_two
last_two-append (a, b) String.[] t = ap (last_two (a, b)) (nil-append t)
last_two-append (a, b) (String.◌∷◌ c s) t =
    ap (last_two (a, b)) (cons-append c s t) ∙ last_two-append (b, code c) s t

-- Names that end in other pairs of characters differ, whatever stands before.
ends_ne :
    (s s' t t' : String)
    → ((seen seen' : ℕ × ℕ) → last_two seen t ≢ last_two seen' t')
    → (s <> t) ≢ (s' <> t')
ends_ne s s' t t' h e =
    h (last_two (0, 0) s) (last_two (0, 0) s')
      (sym (last_two-append (0, 0) s t) ∙ ap (last_two (0, 0)) e ∙ last_two-append (0, 0) s' t')

-- What a chain binds for one layer is no constant of any layer.
abbrev pub IsStep : String → Type 0
IsStep name =
    (r r' : String)
    → ((prefix_of r <> name) ≢ (prefix_of r' <> "axes"))
      × ((prefix_of r <> name) ≢ (prefix_of r' <> "epsilon"))

module _ (r r' : String) where
  differ :
      (s t : String)
      → ((seen seen' : ℕ × ℕ) → last_two seen s ≢ last_two seen' t)
      → (prefix_of r <> s) ≢ (prefix_of r' <> t)
  differ s t h = ends_ne (prefix_of r) (prefix_of r') s t h

pub axes_ne_epsilon : (r r' : String) → (prefix_of r <> "axes") ≢ (prefix_of r' <> "epsilon")
unfolding last_two
axes_ne_epsilon r r' = differ r r' "axes" "epsilon" (λ _ _. ground arith)

-- The name tells the layer's result.
pub prefix_of_inj : (r r' end : String) → (prefix_of r <> end) ≡ (prefix_of r' <> end) → r ≡ r'
prefix_of_inj r r' end e = append_cancel_right r r' "_" (
    append_cancel_left mark (r <> "_") (r' <> "_")
      (append_cancel_right (prefix_of r) (prefix_of r') end e))

pub mean-IsStep : IsStep "mean"
unfolding last_two
mean-IsStep r r' = (
  differ r r' "mean" "axes" (λ _ _. ground arith),
  differ r r' "mean" "epsilon" (λ _ _. ground arith),
)

pub centered-IsStep : IsStep "centered"
unfolding last_two
centered-IsStep r r' = (
  differ r r' "centered" "axes" (λ _ _. ground arith),
  differ r r' "centered" "epsilon" (λ _ _. ground arith),
)

pub squared-IsStep : IsStep "squared"
unfolding last_two
squared-IsStep r r' = (
  differ r r' "squared" "axes" (λ _ _. ground arith),
  differ r r' "squared" "epsilon" (λ _ _. ground arith),
)

pub variance-IsStep : IsStep "variance"
unfolding last_two
variance-IsStep r r' = (
  differ r r' "variance" "axes" (λ _ _. ground arith),
  differ r r' "variance" "epsilon" (λ _ _. ground arith),
)

pub adjusted-IsStep : IsStep "adjusted"
unfolding last_two
adjusted-IsStep r r' = (
  differ r r' "adjusted" "axes" (λ _ _. ground arith),
  differ r r' "adjusted" "epsilon" (λ _ _. ground arith),
)

pub sqrt-IsStep : IsStep "sqrt"
unfolding last_two
sqrt-IsStep r r' = (
  differ r r' "sqrt" "axes" (λ _ _. ground arith),
  differ r r' "sqrt" "epsilon" (λ _ _. ground arith),
)

pub reciprocal-IsStep : IsStep "reciprocal"
unfolding last_two
reciprocal-IsStep r r' = (
  differ r r' "reciprocal" "axes" (λ _ _. ground arith),
  differ r r' "reciprocal" "epsilon" (λ _ _. ground arith),
)

pub normalized-IsStep : IsStep "normalized"
unfolding last_two
normalized-IsStep r r' = (
  differ r r' "normalized" "axes" (λ _ _. ground arith),
  differ r r' "normalized" "epsilon" (λ _ _. ground arith),
)

pub scaled-IsStep : IsStep "scaled"
unfolding last_two
scaled-IsStep r r' = (
  differ r r' "scaled" "axes" (λ _ _. ground arith),
  differ r r' "scaled" "epsilon" (λ _ _. ground arith),
)
