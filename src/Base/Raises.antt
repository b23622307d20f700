-- ===== src/Base/Raises.antt =====
-- A call that may raise. Each constructor of `Exception` is a class that the tools raise or let
-- through; a message is kept where the source writes one.
use Prim.Native.Nat.{ℕ}
use mathlib.Core.Path.{◌≡◌, refl}
use mathlib.Core.Logic.{◌⊎◌, inl, inr}
use mathlib.Core.Bool.{Bool, true, false}
use Prim.Native.String.{String}

pub data Exception : Type 0 where
  index_error key_error type_error assertion_error file_not_found file_exists : Exception
  value_error : String → Exception
  runtime_error : String → Exception
  attribute_error stop_iteration timeout_error connection_error os_error http_exception : Exception
  -- the reason is a TimeoutError, or something else
  url_error : Bool → Exception
  called_process_error : ℕ → Exception
  -- any other class, by its name
  other_error : String → Exception

pub data Raises {ℓ} (A : Type ℓ) : Type ℓ where
  ok : A → Raises A
  raise : Exception → Raises A

-- `assert test`
abbrev pub require : Bool → Raises (Unit {0})
require true = ok tt
require false = raise assertion_error

pub is_required : (test : Bool) {u : Unit {0}} → require test ≡ ok u → test ≡ true
is_required true h = refl
is_required false h = cc

module _ {ℓ κ} {A : Type ℓ} {B : Type κ} where
  infixl 5 ◌>>=◌
  abbrev pub ◌>>=◌ : Raises A → (A → Raises B) → Raises B
  raise e >>= next = raise e
  ok result >>= next = next result

  -- A call that does not raise has run both parts.
  pub >>=-eq-ok :
      (call : Raises A) (next : A → Raises B) {b : B}
      → (call >>= next) ≡ ok b
      → (result : A) × (call ≡ ok result) × (next result ≡ ok b)
  >>=-eq-ok (raise e) next h = cc
  >>=-eq-ok (ok result) next h = (result, refl, h)

module _ {ℓ} {B : Type ℓ} where
  infixl 5 ◌>>◌
  abbrev pub ◌>>◌ : Raises (Unit {0}) → Raises B → Raises B
  call >> rest = call >>= λ _. rest

pub require-eq-ok {ℓ} :
    {B : Type ℓ} (test : Bool) (k : Raises B) {b : B}
    → (require test >> k) ≡ ok b
    → (test ≡ true) × (k ≡ ok b)
require-eq-ok true k h = (refl, h)
require-eq-ok false k h = cc

pub Raises-cases {ℓ} :
    {A : Type ℓ} (r : Raises A) → ((a : A) × (r ≡ ok a)) ⊎ ((e : Exception) × (r ≡ raise e))
Raises-cases (ok a) = inl (a, refl)
Raises-cases (raise e) = inr (e, refl)
