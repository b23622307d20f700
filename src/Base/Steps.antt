-- ===== src/Base/Steps.antt =====
-- Calls with a state, put together by a bind that does not compute unless it is unfolded: a proof
-- reads the parts of a run from the run itself.
use laya_rs.Base.{
  inl, inr, sym, ◌≡◌, ◌≢◌, refl, ap, ◌∙◌, subst, Bool, true, false, not, List, [], ◌∷◌,
}
use laya_rs.Base.Raises.{Raises, Exception, ok, raise, assertion_error, require, Raises-cases}
use laya_rs.Base.Action as Actions
use laya_rs.Base.Action.{Action}

module _ {S : Type 0} where
  infixl 5 ◌>>=◌ ◌>>◌
  unfoldable pub ◌>>=◌ : {A C : Type 0} → Action S A → (A → Action S C) → Action S C
  m >>= f = Actions.◌>>=◌ m f

  unfoldable pub pure : {A : Type 0} → A → Action S A
  pure a s = (ok a, s)

  abbrev pub ◌>>◌ : {C : Type 0} → Action S (Unit {0}) → Action S C → Action S C
  m >> k = m >>= λ _. k

  -- `try: m finally: cleanup`
  unfoldable pub finally : {A : Type 0} → Action S A → Action S (Unit {0}) → Action S A
  finally m cleanup = Actions.always m cleanup

  -- `assert test`
  unfoldable pub demand : Bool → Action S (Unit {0})
  demand test s = (require test, s)

  -- A result that needs no state.
  unfoldable pub reading : {A : Type 0} → Raises A → Action S A
  reading r s = (r, s)

  -- `for x in xs: body(x)`
  unfoldable pub each : {A : Type 0} → (A → Action S (Unit {0})) → List A → Action S (Unit {0})
  each body [] = pure tt
  each body (x ∷ xs) = body x >> each body xs

  -- `[body(x) for x in xs]`
  unfoldable pub map_each : {A C : Type 0} → (A → Action S C) → List A → Action S (List C)
  map_each body [] = pure []
  map_each body (x ∷ xs) = do y ← body x; ys ← map_each body xs; pure (y ∷ ys)

  -- The call returns `a` and leaves the state `t`, from the state `s`.
  pub record Runs {A : Type 0} (call : Action S A) (s : S) (a : A) (t : S) : Type 0 where
    pub result_eq : call s ≡ (ok a, t)

  -- A call that returns has a run.
  pub has_run :
      {A : Type 0} (call : Action S A) (s : S) (a : A)
      → (call s).0 ≡ ok a
      → Runs call s a (call s).1
  has_run call s a h = record { result_eq = ap (λ r. (r, (call s).1)) h }

  pub returned :
      {A : Type 0} {call : Action S A} {s t : S} {a : A} → Runs call s a t → (call s).0 ≡ ok a
  returned r = ap (λ p. p.0) r.result_eq

  bind_cases :
      {A C : Type 0} (m : Action S A) (f : A → Action S C) (s : S) (c : C) (t : S)
      → (m >>= f) s ≡ (ok c, t)
      → (a : A) × Runs m s a (m s).1 × Runs (f a) (m s).1 c t
  unfolding ◌>>=◌
  bind_cases m f s c t h =
      let (a, e, q) = Actions.>>=-ok m f s c (ap (λ p. p.0) h) in
      (a, has_run m s a e, record { result_eq = q ∙ h })

  -- The parts of a run: what the first part returned and left, and the run of the second from there.
  pub >>=-Runs {ℓ} :
      {A C : Type 0} {m : Action S A} {f : A → Action S C} {s : S} {c : C} {t : S} {P : Type ℓ}
      → Runs (m >>= f) s c t
      → ((a : A) (u : S) → Runs m s a u → Runs (f a) u c t → P)
      → P
  >>=-Runs {A} {C} {m} {f} {s} {c} {t} r k =
      let (a, first, second) = bind_cases m f s c t r.result_eq in k a (m s).1 first second

  demand_cases :
      {C : Type 0} (test : Bool) (k : Action S C) (s : S) (c : C) (t : S)
      → (demand test >>= λ _. k) s ≡ (ok c, t)
      → (test ≡ true) × (k s ≡ (ok c, t))
  unfolding ◌>>=◌ demand
  demand_cases true k s c t h = (refl, h)
  demand_cases false k s c t h = cc

  pub demand-Runs :
      {C : Type 0} {test : Bool} {k : Action S C} {s : S} {c : C} {t : S}
      → Runs (demand test >> k) s c t
      → (test ≡ true) × Runs k s c t
  demand-Runs {C} {test} {k} {s} {c} {t} r =
      let (e, q) = demand_cases test k s c t r.result_eq in (e, record { result_eq = q })

  last_demand :
      (test : Bool) (s : S) (u : Unit {0}) (t : S)
      → demand test s ≡ (ok u, t)
      → (test ≡ true) × (s ≡ t)
  unfolding demand
  last_demand true s u t h = (refl, ap (λ p. p.1) h)
  last_demand false s u t h =
      let e : require false ≡ ok u = ap (λ p. p.0) h in absurd (impossible u e)
    where
      impossible : (u : Unit {0}) → ◌≢◌ {A = Raises (Unit {0})} (raise assertion_error) (ok u)
      impossible u h = cc

  pub last_demand-Runs :
      {test : Bool} {s : S} {u : Unit {0}} {t : S}
      → Runs (demand test) s u t
      → (test ≡ true) × (s ≡ t)
  last_demand-Runs {test} {s} {u} {t} r = last_demand test s u t r.result_eq

  pure_cases :
      {A : Type 0} (a : A) (s : S) (c : A) (t : S) → pure a s ≡ (ok c, t) → (a ≡ c) × (s ≡ t)
  unfolding pure
  pure_cases a s c t h = let e : ok a ≡ ok c = ap (λ p. p.0) h in (cc, ap (λ p. p.1) h)

  pub pure-Runs :
      {A : Type 0} {a : A} {s : S} {c : A} {t : S} → Runs (pure a) s c t → (a ≡ c) × (s ≡ t)
  pure-Runs {A} {a} {s} {c} {t} r = pure_cases a s c t r.result_eq

  reading_cases :
      {A : Type 0} (r : Raises A) (s : S) (a : A) (t : S)
      → reading r s ≡ (ok a, t)
      → (r ≡ ok a) × (s ≡ t)
  unfolding reading
  reading_cases r s a t h = (ap (λ p. p.0) h, ap (λ p. p.1) h)

  pub reading-Runs :
      {A : Type 0} {r : Raises A} {s : S} {a : A} {t : S}
      → Runs (reading r) s a t
      → (r ≡ ok a) × (s ≡ t)
  reading-Runs {A} {r} {s} {a} {t} h = reading_cases r s a t h.result_eq

  finally_cases :
      {A : Type 0} (m : Action S A) (cleanup : Action S (Unit {0})) (s : S) (a : A) (t : S)
      → finally m cleanup s ≡ (ok a, t)
      → Runs m s a (m s).1 × Runs cleanup (m s).1 tt t
  unfolding finally
  finally_cases m cleanup s a t h =
      let (e, q) = Actions.always-ok m cleanup s a (ap (λ p. p.0) h) in
      (
        has_run m s a e,
        record {
          result_eq = ap (λ r. (r, (cleanup (m s).1).1)) q ∙ ap (λ w. (ok tt, w)) (ap (λ p. p.1) h);
        },
      )

  pub finally-Runs {ℓ} :
      {A : Type 0} {m : Action S A} {cleanup : Action S (Unit {0})} {s : S} {a : A} {t : S}
      {P : Type ℓ}
      → Runs (finally m cleanup) s a t
      → ((u : S) → Runs m s a u → Runs cleanup u tt t → P)
      → P
  finally-Runs {A} {m} {cleanup} {s} {a} {t} r k =
      let (ran, cleaned) = finally_cases m cleanup s a t r.result_eq in k (m s).1 ran cleaned

  -- Whatever the parts do, the cleanup is the last thing that runs.
  pub finally-last :
      {A : Type 0} (m : Action S A) (cleanup : Action S (Unit {0})) (s : S)
      → (finally m cleanup s).1 ≡ (cleanup (m s).1).1
  unfolding finally
  finally-last m cleanup s = refl

  -- A run of `each` over a list, one round after another.
  pub data Each {A : Type 0} (body : A → Action S (Unit {0})) : List A → S → S → Type 0 where
    done : {s : S} → Each body [] s s
    round :
        {x : A} {xs : List A} {s u t : S}
        → Runs (body x) s tt u
        → Each body xs u t
        → Each body (x ∷ xs) s t

  each_rounds :
      {A : Type 0} (body : A → Action S (Unit {0})) (xs : List A) (s t : S)
      → each body xs s ≡ (ok tt, t)
      → Each body xs s t
  unfolding each
  each_rounds body [] s t h = subst (Each body [] s) (pure_cases tt s tt t h).1 done
  each_rounds body (x ∷ xs) s t h =
      >>=-Runs (record { result_eq = h })
        (λ _ u first rest. round first (each_rounds body xs u t rest.result_eq))

  pub each-Each :
      {A : Type 0} {body : A → Action S (Unit {0})} {xs : List A} {s t : S}
      → Runs (each body xs) s tt t
      → Each body xs s t
  each-Each {A} {body} {xs} {s} {t} r = each_rounds body xs s t r.result_eq

  pub >>=-of_raise :
      {A C : Type 0} (m : Action S A) (f : A → Action S C) (s : S) (e : Exception)
      → (m s).0 ≡ raise e
      → (m >>= f) s ≡ (raise e, (m s).1)
  unfolding ◌>>=◌
  >>=-of_raise m f s e h = Actions.>>=-of_raise m f s e h

  pub >>=-of_ok :
      {A C : Type 0} (m : Action S A) (f : A → Action S C) (s : S) (a : A)
      → (m s).0 ≡ ok a
      → (m >>= f) s ≡ f a (m s).1
  unfolding ◌>>=◌
  >>=-of_ok m f s a h = Actions.>>=-of_ok m f s a h

  -- Two continuations that agree wherever the first part can lead give the same call.
  pub >>=-cong :
      {A C : Type 0} (m : Action S A) (f g : A → Action S C) (s : S)
      → ((a : A) (u : S) → Runs m s a u → f a u ≡ g a u)
      → (m >>= f) s ≡ (m >>= g) s
  >>=-cong m f g s h = elim (Raises-cases (m s).0) [
    | inl (a, e) ↦ >>=-of_ok m f s a e ∙ h a (m s).1 (has_run m s a e) ∙ sym (>>=-of_ok m g s a e)
    | inr (x, e) ↦ >>=-of_raise m f s x e ∙ sym (>>=-of_raise m g s x e)
  ]

  -- The same for calls that are put together by a bind that computes.
  pub plain-Runs {ℓ} :
      {A C : Type 0} (m : Action S A) (f : A → Action S C) {s : S} {c : C} {t : S} {P : Type ℓ}
      → Runs (Actions.◌>>=◌ m f) s c t
      → ((a : A) (u : S) → Runs m s a u → Runs (f a) u c t → P)
      → P
  unfolding ◌>>=◌
  plain-Runs m f r k = >>=-Runs {m = m} {f = f} (record { result_eq = r.result_eq }) k

  pub plain_pure-Runs :
      {A : Type 0} (a : A) {s : S} {c : A} {t : S} → Runs (Actions.pure a) s c t → (a ≡ c) × (s ≡ t)
  unfolding pure
  plain_pure-Runs a r = pure-Runs {a = a} (record { result_eq = r.result_eq })

  pub plain_always-Runs {ℓ} :
      {A : Type 0} (m : Action S A) (cleanup : Action S (Unit {0})) {s : S} {a : A} {t : S}
      {P : Type ℓ}
      → Runs (Actions.always m cleanup) s a t
      → ((u : S) → Runs m s a u → Runs cleanup u tt t → P)
      → P
  unfolding finally
  plain_always-Runs m cleanup r k =
      finally-Runs {m = m} {cleanup = cleanup} (record { result_eq = r.result_eq }) k

  -- `assert not found`, of a test that was made by a call
  pub refuted-Runs :
      (m : Action S Bool) {s t : S}
      → Runs (Actions.◌>>=◌ m (λ found. Actions.reading (λ w. require (not found)))) s tt t
      → Runs m s false t
  refuted-Runs m {s} {t} r =
      plain-Runs m (λ found. Actions.reading (λ w. require (not found))) r
        (λ found u asked last. go found u asked last.result_eq)
    where
      impossible : ◌≢◌ {A = Raises (Unit {0})} (require false) (ok tt)
      impossible h = cc

      go :
          (found : Bool) (u : S)
          → Runs m s found u
          → ◌≡◌ {A = Raises (Unit {0}) × S} (require (not found), u) (ok tt, t)
          → Runs m s false t
      go false u asked e = subst (Runs m s false) (ap (λ p. p.1) e) asked
      go true u asked e = absurd (impossible (ap (λ p. p.0) e))
