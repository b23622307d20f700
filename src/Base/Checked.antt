-- ===== src/Base/Checked.antt =====
-- Calls that may raise and change nothing, put together by a bind that does not compute unless it is
-- unfolded: a proof reads the parts of a call that returns from the call.
use laya_rs.Base.{◌≡◌, refl, subst, Bool, true, false, List, [], ◌∷◌, All}
use laya_rs.Base.Raises as Calls
use laya_rs.Base.Raises.{Raises, ok, raise, require, is_required, >>=-eq-ok}

infixl 5 ◌>>=◌ ◌>>◌
unfoldable pub ◌>>=◌ : {A C : Type 0} → Raises A → (A → Raises C) → Raises C
call >>= next = Calls.◌>>=◌ call next

abbrev pub ◌>>◌ : {C : Type 0} → Raises (Unit {0}) → Raises C → Raises C
call >> rest = call >>= λ _. rest

-- `for x in xs: body(x)`
unfoldable pub for_each : {A : Type 0} → (A → Raises (Unit {0})) → List A → Raises (Unit {0})
unfolding ◌>>=◌
for_each body [] = ok tt
for_each body (x ∷ xs) = body x >> for_each body xs

-- `[body(x) for x in xs]`
unfoldable pub collect_each : {A C : Type 0} → (A → Raises C) → List A → Raises (List C)
unfolding ◌>>=◌
collect_each body [] = ok []
collect_each body (x ∷ xs) = body x >>= λ y. collect_each body xs >>= λ ys. ok (y ∷ ys)

pub >>=-returns {ℓ} :
    {A C : Type 0} {P : Type ℓ} (call : Raises A) (next : A → Raises C) {c : C}
    → (call >>= next) ≡ ok c
    → ((a : A) → call ≡ ok a → next a ≡ ok c → P)
    → P
unfolding ◌>>=◌
>>=-returns call next h k = let (a, e, q) = >>=-eq-ok call next h in k a e q

pub require-returns {ℓ} :
    {C : Type 0} {P : Type ℓ} (test : Bool) (rest : Raises C) {c : C}
    → (require test >> rest) ≡ ok c
    → (test ≡ true → rest ≡ ok c → P)
    → P
unfolding ◌>>=◌
require-returns true rest h k = k refl h
require-returns false rest h k = cc

-- Every round of a loop that returns has returned.
pub for_each-All :
    {A : Type 0} (body : A → Raises (Unit {0})) (xs : List A)
    → for_each body xs ≡ ok tt
    → All (λ x. body x ≡ ok tt) xs
unfolding for_each
for_each-All body [] h = tt
for_each-All body (x ∷ xs) h =
    >>=-returns (body x) (λ _. for_each body xs) h
      (λ _ first rest. (first, for_each-All body xs rest))

-- The results of the rounds, in order.
pub data Collected {A C : Type 0} (body : A → Raises C) : List A → List C → Type 0 where
  all_collected : Collected body [] []
  next_collected :
      {x : A} {xs : List A} {y : C} {ys : List C}
      → body x ≡ ok y
      → Collected body xs ys
      → Collected body (x ∷ xs) (y ∷ ys)

pub collect_each-Collected :
    {A C : Type 0} (body : A → Raises C) (xs : List A) (ys : List C)
    → collect_each body xs ≡ ok ys
    → Collected body xs ys
unfolding collect_each
collect_each-Collected body [] ys h =
    let e : [] ≡ ys = cc in subst (Collected body []) e all_collected
collect_each-Collected body (x ∷ xs) ys h = >>=-returns _ _ h (λ y first rest.
    >>=-returns _ _ rest (λ zs others last.
      let e : y ∷ zs ≡ ys = cc in
      subst (Collected body (x ∷ xs)) e
        (next_collected first (collect_each-Collected body xs zs others))))
