-- ===== src/Smoke/Closeness.antt =====
-- What it means that `check_answer` raises nothing.
use laya_rs.Base.{
  ℕ, ◌+◌, ◌*◌, ◌≤◌, ◌≡◌, refl, ap, ◌∙◌, Bool, true, false, ◌&&◌, List, [], ◌∷◌, String, Option,
  some, none, string_eq, leb→le, All, ◌⊎◌, inl, inr,
}
use laya_rs.Base.Int.{ℤ}
use laya_rs.Base.Raises.{
  Raises, ok, raise, type_error, ◌>>=◌, is_required, >>=-eq-ok, require-eq-ok,
}
use laya_rs.Base.Json.{
  Json, Number, get, keys, same_keys, as_number, finite, infinity, minus_infinity, nan,
}
use laya_rs.Smoke.Answer.{
  abs, distance, is_close, is_finite, float_of, is_accepted, check_probability, pop_agent,
  check_keys, check_answer,
}
use laya_rs.Smoke.Agents.{agent, pop_agent-lem}

-- `j["answers"][key]["rl_agent"]["act_probability"]`
abbrev pub probability : String → Json → Raises Json
probability key j = agent key j >>= λ a. get "act_probability" a

-- A value that counts as close to the official one: a finite number, and no further from an official
-- number than the tolerance. `unit` is the number of units that make one.
pub data Close (unit : ℕ) (x y : Json) : Type 0 where
  near :
      (a b : ℤ)
      → as_number unit x ≡ some (finite a)
      → as_number unit y ≡ some (finite b)
      → 100_000 * distance a b ≤ unit + 10 * abs b
      → Close unit x y
  unbounded :
      (a : ℤ)
      → as_number unit x ≡ some (finite a)
      → (as_number unit y ≡ some infinity) ⊎ (as_number unit y ≡ some minus_infinity)
      → Close unit x y

pub HasClose : ℕ → Json → Json → String → Type 0
HasClose unit actual expected key =
    (x : Json) × (y : Json) × (probability key actual ≡ ok x)
    × (probability key expected ≡ ok y)
    × Close unit x y

close_le :
    (unit : ℕ) (a b : ℤ)
    → ◌≡◌ {A = Raises Bool} (ok (is_close unit (finite a) (finite b))) (ok true)
    → 100_000 * distance a b ≤ unit + 10 * abs b
unfolding is_close
close_le unit a b h = let e : is_close unit (finite a) (finite b) ≡ true = cc in leb→le _ _ e

accepted-Close : (unit : ℕ) (x y : Json) → is_accepted unit x y ≡ ok true → Close unit x y
unfolding is_accepted float_of is_finite is_close
accepted-Close unit x y h = go (as_number unit x) refl (as_number unit y) refl h
  where
    go :
        (m : Option Number)
        → as_number unit x ≡ m
        → (n : Option Number) → as_number unit y ≡ n
        → (elim m as (λ _. Raises Number) [ none ↦ raise type_error | some n ↦ ok n ] >>= λ n1.
            elim (is_finite n1) as (λ _. Raises Bool) [
              | false ↦ ok false
              | true ↦
                  (elim n as (λ _. Raises Number) [ none ↦ raise type_error | some n ↦ ok n ]
                    >>= λ m1. ok (is_close unit n1 m1))
            ])
          ≡ ok true
        → Close unit x y
    go none p n q h = cc
    go (some infinity) p n q h = cc
    go (some minus_infinity) p n q h = cc
    go (some nan) p n q h = cc
    go (some (finite a)) p none q h = cc
    go (some (finite a)) p (some (finite b)) q h = near a b p q (close_le unit a b h)
    go (some (finite a)) p (some infinity) q h = unbounded a p (inl q)
    go (some (finite a)) p (some minus_infinity) q h = unbounded a p (inr q)
    go (some (finite a)) p (some nan) q h = cc

HasClose-back :
    (unit : ℕ) (actual expected actual' expected' : Json)
    → ((k : String) (b : Json) → agent k actual' ≡ ok b → agent k actual ≡ ok b)
    → ((k : String) (b : Json) → agent k expected' ≡ ok b → agent k expected ≡ ok b)
    → (ks : List String) → All (HasClose unit actual' expected') ks
    → All (HasClose unit actual expected) ks
unfolding HasClose
HasClose-back unit actual expected actual' expected' f g [] all = tt
HasClose-back unit actual expected actual' expected' f g (k ∷ ks) ((x, y, hx, hy, close), all) =
    let (a, ha, ga) = >>=-eq-ok (agent k actual') (λ a. get "act_probability" a) hx in
    let (e, he, ge) = >>=-eq-ok (agent k expected') (λ a. get "act_probability" a) hy in
    (
      (x, y, rw (f k a ha) ga, rw (g k e he) ge, close),
      HasClose-back unit actual expected actual' expected' f g ks all,
    )

check_probability-Close :
    (unit : ℕ) (a e : Json)
    → check_probability unit a e ≡ ok tt
    → (x : Json) × (y : Json) × (get "act_probability" a ≡ ok x)
      × (get "act_probability" e ≡ ok y)
      × Close unit x y
unfolding check_probability
check_probability-Close unit a e h =
    let (ka, _, h1) = >>=-eq-ok (keys a) _ h in
    let (ke, _, h2) = >>=-eq-ok (keys e) _ h1 in
    let (_, h3) = require-eq-ok (same_keys ka ke && same_keys ke ("act_probability" ∷ [])) _ h2 in
    let (x, hx, h4) = >>=-eq-ok (get "act_probability" a) _ h3 in
    let (y, hy, h5) = >>=-eq-ok (get "act_probability" e) _ h4 in
    let (b, hb, h6) = >>=-eq-ok (is_accepted unit x y) _ h5 in
    (x, y, hx, hy, accepted-Close unit x y (hb ∙ ap ok (is_required b h6)))

check_keys-All :
    (unit : ℕ) (ks : List String) (actual expected : Json) {r : Json × Json}
    → check_keys unit ks actual expected ≡ ok r
    → All (HasClose unit actual expected) ks
unfolding check_keys HasClose
check_keys-All unit [] actual expected h = tt
check_keys-All unit (key ∷ rest) actual expected {r} h =
    let (p, hp, h1) = >>=-eq-ok (pop_agent unit key actual) _ h in
    let (q, hq, h2) = >>=-eq-ok (pop_agent unit key expected) _ h1 in
    let (u, hu, h3) = >>=-eq-ok (check_probability unit p.0 q.0) _ h2 in
    let (pa, pback) = pop_agent-lem unit key actual hp in
    let (qa, qback) = pop_agent-lem unit key expected hq in
    let (x, y, hx, hy, close) = check_probability-Close unit p.0 q.0 hu in
    (
      (x, y, rw pa hx, rw qa hy, close),
      HasClose-back unit actual expected p.1 q.1 pback qback rest
          (check_keys-All unit rest p.1 q.1 h3),
    )

-- When `check_answer` raises nothing: both values have answers under the same keys, and the
-- probability under each key is a finite number, within the tolerance of the official one unless that
-- is infinite.
pub check_answer-Close :
    (unit : ℕ) (actual expected : Json)
    → check_answer unit actual expected ≡ ok tt
    → (answers : Json) × (official : Json) × (ks : List String) × (ls : List String) × (get
          "answers" actual
        ≡ ok answers)
      × (get "answers" expected ≡ ok official)
      × (keys answers ≡ ok ks)
      × (keys official ≡ ok ls)
      × (same_keys ks ls ≡ true)
      × All (HasClose unit actual expected) ls
unfolding check_answer
check_answer-Close unit actual expected h =
    let (answers, h0, h1) = >>=-eq-ok (get "answers" actual) _ h in
    let (ks, hk, h2) = >>=-eq-ok (keys answers) _ h1 in
    let (official, ho, h3) = >>=-eq-ok (get "answers" expected) _ h2 in
    let (ls, hl, h4) = >>=-eq-ok (keys official) _ h3 in
    let (same, h5) = require-eq-ok (same_keys ks ls) _ h4 in
    let (r, hr, h6) = >>=-eq-ok (check_keys unit ls actual expected) _ h5 in
    (answers, official, ks, ls, h0, ho, hk, hl, same, check_keys-All unit ls actual expected hr)
