-- ===== src/Smoke/Answer.antt =====
-- `check_answer` in docs/validation/docker-smoke.py: an answer of the service against the official one.
use laya_rs.Base.{ℕ, ◌+◌, ◌-◌, ◌*◌, Bool, true, false, ◌&&◌, none, some, List, [], ◌∷◌, String, leb}
use laya_rs.Base.Int.{ℤ, pos, negsuc}
use laya_rs.Base.Raises.{Raises, ok, raise, type_error, require, ◌>>=◌, ◌>>◌}
use laya_rs.Base.Json.{
  Json, Number, finite, infinity, minus_infinity, as_number, json_eq, get, keys, same_keys, put,
  pop,
}

unfoldable pub is_finite : Number → Bool
is_finite (finite z) = true
is_finite _ = false

-- The size of a number, and of a difference.
abbrev pub abs : ℤ → ℕ
abs (pos n) = n
abs (negsuc n) = n + 1

abbrev pub distance : ℤ → ℤ → ℕ
distance (pos a) (pos b) = (a - b) + (b - a)
distance (pos a) (negsuc b) = a + b + 1
distance (negsuc a) (pos b) = a + b + 1
distance (negsuc a) (negsuc b) = (a - b) + (b - a)

module _ (unit : ℕ) where
  -- `abs(x - y) <= 1e-5 + 1e-4 * abs(y)`, multiplied by 1e5
  unfoldable pub is_close : Number → Number → Bool
  is_close (finite x) (finite y) = leb (100_000 * distance x y) (unit + 10 * abs y)
  is_close (finite x) infinity = true
  is_close (finite x) minus_infinity = true
  is_close _ _ = false

  -- A number where `math.isfinite` and `-` take one.
  unfoldable pub float_of : Json → Raises Number
  unfolding as_number
  float_of j = elim (as_number unit j) [ none ↦ raise type_error | some n ↦ ok n ]

  -- `math.isfinite(x) and abs(x - y) <= ...`
  unfoldable pub is_accepted : Json → Json → Raises Bool
  unfolding is_finite is_close float_of
  is_accepted x y = do
    n ← float_of x
    elim (is_finite n) [ false ↦ ok false | true ↦ do m ← float_of y; ok (is_close n m) ]

  -- The checks of two `rl_agent` values.
  unfoldable pub check_probability : Json → Json → Raises (Unit {0})
  unfolding is_accepted keys same_keys get
  check_probability a e = do
    ka ← keys a
    ke ← keys e
    require (same_keys ka ke && same_keys ke ("act_probability" ∷ []))
    x ← get "act_probability" a
    y ← get "act_probability" e
    accepted ← is_accepted x y
    require accepted

  -- `j["answers"][key].pop("rl_agent")`: what is popped, and the value without it
  unfoldable pub pop_agent : String → Json → Raises (Json × Json)
  unfolding get put pop
  pop_agent key j = do
    answers ← get "answers" j
    entry ← get key answers
    (agent, entry') ← pop "rl_agent" entry
    answers' ← put key entry' answers
    j' ← put "answers" answers' j
    ok (agent, j')

  -- The loop over the keys, which leaves both values without the popped ones.
  unfoldable pub check_keys : List String → Json → Json → Raises (Json × Json)
  unfolding pop_agent check_probability
  check_keys [] actual expected = ok (actual, expected)
  check_keys (key ∷ rest) actual expected = do
    (a, actual') ← pop_agent key actual
    (e, expected') ← pop_agent key expected
    check_probability a e
    check_keys rest actual' expected'

  unfoldable pub check_answer : Json → Json → Raises (Unit {0})
  unfolding get keys same_keys check_keys json_eq
  check_answer actual expected = do
    answers ← get "answers" actual
    ka ← keys answers
    official ← get "answers" expected
    ke ← keys official
    require (same_keys ka ke)
    (actual', expected') ← check_keys ke actual expected
    require (json_eq unit actual' expected')
