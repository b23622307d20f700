-- ===== src/Base/Action.antt =====
-- A call that reads and writes a state, such as a directory. What was written stays written after a raise.
use laya_rs.Base.{◌≡◌, ◌≢◌, refl, ap, ◌∙◌}
use laya_rs.Base.Raises.{Raises, Exception, ok, raise}

abbrev pub Action : Type 0 → Type 0 → Type 0
Action S A = S → Raises A × S

module _ {S : Type 0} where
  infixl 5 ◌>>=◌ ◌>>◌
  abbrev pub pure : {A : Type 0} → A → Action S A
  pure a s = (ok a, s)

  abbrev pub reading : {A : Type 0} → (S → Raises A) → Action S A
  reading f s = (f s, s)

  abbrev pub ◌>>=◌ : {A C : Type 0} → Action S A → (A → Action S C) → Action S C
  ◌>>=◌ m f s = let (r, s') = m s in elim r [ ok a ↦ f a s' | raise e ↦ (raise e, s') ]

  abbrev pub ◌>>◌ : {C : Type 0} → Action S (Unit {0}) → Action S C → Action S C
  m >> k = m >>= λ _. k

  split :
      {A C : Type 0} (p : Raises A × S) (f : A → Action S C) (out : Raises C × S) {c : C}
      → elim p.0 [ ok a ↦ f a p.1 | raise e ↦ (raise e, p.1) ] ≡ out
      → out.0 ≡ ok c
      → (a : A) × (p.0 ≡ ok a) × (f a p.1 ≡ out)
  split (ok a, u) f out h e = (a, refl, h)
  split (raise e, u) f out h e' = absurd (raises e _ (ap (λ p. p.0) h ∙ e'))
    where
      raises : {C : Type 0} (e : Exception) (c : C) → ◌≢◌ {A = Raises C} (raise e) (ok c)
      raises e c h = cc

  -- A call that returns has run both parts.
  pub >>=-ok :
      {A C : Type 0} (m : Action S A) (f : A → Action S C) (s : S) (c : C)
      → ((m >>= f) s).0 ≡ ok c
      → (a : A) × ((m s).0 ≡ ok a) × (f a (m s).1 ≡ (m >>= f) s)
  >>=-ok m f s c h = split (m s) f ((m >>= f) s) refl h

  -- The same, for what the second part returns.
  pub >>=-value :
      {A C : Type 0} (m : Action S A) (f : A → Action S C) (s : S) (c : C)
      → ((m >>= f) s).0 ≡ ok c
      → (a : A) × ((m s).0 ≡ ok a) × ((f a (m s).1).0 ≡ ok c)
  >>=-value m f s c h = let (a, e, q) = >>=-ok m f s c h in (a, e, ap (λ p. p.0) q ∙ h)

  -- A read that raises ends the call and changes nothing.
  pub >>=-raise :
      {A C : Type 0} (f : S → Raises A) (g : A → Action S C) (s : S) (e : Exception)
      → f s ≡ raise e
      → (reading f >>= g) s ≡ (raise e, s)
  >>=-raise f g s e h = rw h

  -- `try: m finally: cleanup`: what the second call raises takes the place of what the first did
  abbrev pub always : {A : Type 0} → Action S A → Action S (Unit {0}) → Action S A
  always m cleanup s =
      let (r, s') = m s in
      let (u, s'') = cleanup s' in (elim u [ ok _ ↦ r | raise e ↦ raise e ], s'')

  -- `try: m except: handler`, with a handler for every exception, which may raise it again
  abbrev pub handle : {A : Type 0} → Action S A → (Exception → Action S A) → Action S A
  handle m handler s = let (r, s') = m s in elim r [ ok a ↦ (ok a, s') | raise e ↦ handler e s' ]

  -- A bind whose first part is known.
  pub >>=-of_ok :
      {A C : Type 0} (m : Action S A) (f : A → Action S C) (s : S) (a : A)
      → (m s).0 ≡ ok a
      → (m >>= f) s ≡ f a (m s).1
  >>=-of_ok m f s a h = rw (h, ◌>>=◌)

  pub >>=-of_raise :
      {A C : Type 0} (m : Action S A) (f : A → Action S C) (s : S) (e : Exception)
      → (m s).0 ≡ raise e
      → (m >>= f) s ≡ (raise e, (m s).1)
  >>=-of_raise m f s e h = rw (h, ◌>>=◌)

  -- A call whose result is dropped leaves the state that it leaves.
  pub dropped-state : {A : Type 0} (m : Action S A) (s : S) → ((m >>= λ a. pure tt) s).1 ≡ (m s).1
  dropped-state {A} m s = same (m s)
    where
      same :
          (p : Raises A × S)
          → (elim p.0 as (λ x. Raises (Unit {0}) × S) [
            | ok a ↦ (ok tt, p.1)
            | raise e ↦ (raise e, p.1)
          ]).1
            ≡ p.1
      same (ok a, t) = refl
      same (raise e, t) = refl

  -- The parts of a `finally` that returns.
  pub always-ok :
      {A : Type 0} (m : Action S A) (c : Action S (Unit {0})) (s : S) (a : A)
      → (always m c s).0 ≡ ok a
      → ((m s).0 ≡ ok a) × ((c (m s).1).0 ≡ ok tt)
  always-ok {A} m c s a h = both (m s).0 (c (m s).1).0 a h
    where
      both :
          (r : Raises A) (u : Raises (Unit {0})) (a : A)
          → elim u as (λ x. Raises A) [ ok x ↦ r | raise e ↦ raise e ] ≡ ok a
          → (r ≡ ok a) × (u ≡ ok tt)
      both r (ok tt) a h = (h, refl)
      both r (raise e) a h = cc
