-- ===== src/Bench/Warming.antt =====
-- The warm-up of a group ends: the fuel of the model is never used up.
use laya_rs.Base.{
  ℕ, zero, suc, ◌+◌, ◌-◌, ◌*◌, ◌≤◌, ◌≡◌, refl, sym, ◌∙◌, Bool, true, false, Bool-cases, inl, inr,
  List, [], ◌∷◌, ◌++◌, String, arith, length, length-append, ltb,
}
use native.Mathlib.Nat.{suc-add}
use laya_rs.Base.Raises.{Raises, ok, raise}
use laya_rs.Base.Action.{Action, ◌>>=◌}
use laya_rs.Base.Json.{Json}
use laya_rs.Smoke.{Host}
use laya_rs.Smoke.Service.{now}
use laya_rs.Smoke.Waiting.{IsTimely}
use laya_rs.Bench.Summary.{Row, is_success, second}
use laya_rs.Bench.Station.{Station, station_host}
use laya_rs.Bench.Invoke.{invoke}
use laya_rs.Bench.Group.{wants_more, warm_next, warm_round, warm_up}

differ : ◌≡◌ {A = Raises Bool} (ok false) (ok true) → ⊥
differ h = cc

-- An invocation takes a nanosecond or more.
module _ {W : Type 0} (host : Host W) (clock : IsTimely (station_host host)) (base : String)
    (fixture : Json)
    (spent : (epoch : ℕ) (s : Station W)
      → clock.time s + 1 ≤ clock.time (invoke (station_host host) base fixture epoch s).1) where
  open clock use {time, read}

  abbrev here : Host (Station W)
  here = station_host host

  -- The next rounds of the loop.
  abbrev Next : Type 0
  Next = List Row → Action (Station W) (List Row)

  warm_next-eq :
      (f g : Next) (done : List Row) (row : Row) (s : Station W)
      → f (done ++ row ∷ []) s ≡ g (done ++ row ∷ []) s
      → warm_next host f done row s ≡ warm_next host g done row s
  unfolding warm_next
  warm_next-eq f g done row s h = elim (Bool-cases (is_success row)) [
    | inl good ↦ rw (good, warm_next) h
    | inr bad ↦ rw (bad, warm_next) refl
  ]

  invoked-eq :
      (f g : Next) (done : List Row) (q : Raises Row × Station W)
      → ((row : Row) → f (done ++ row ∷ []) q.1 ≡ g (done ++ row ∷ []) q.1)
      → elim q.0 as (λ x. Raises (List Row) × Station W) [
        | ok row ↦ warm_next host f done row q.1
        | raise e ↦ (raise e, q.1)
      ]
        ≡ elim q.0 as (λ x. Raises (List Row) × Station W) [
          | ok row ↦ warm_next host g done row q.1
          | raise e ↦ (raise e, q.1)
        ]
  invoked-eq f g done (ok row, s) h = warm_next-eq f g done row s (h row)
  invoked-eq f g done (raise e, s) h = refl

  tested-eq :
      (f g : Next) (epoch : ℕ) (done : List Row) (p : Raises Bool × Station W)
      → (p.0 ≡ ok true
          → (row : Row)
          → f (done ++ row ∷ []) (invoke here base fixture epoch p.1).1
            ≡ g (done ++ row ∷ []) (invoke here base fixture epoch p.1).1)
      → elim p.0 as (λ x. Raises (List Row) × Station W) [
        | ok b ↦ warm_round host f base fixture epoch done b p.1
        | raise e ↦ (raise e, p.1)
      ]
        ≡ elim p.0 as (λ x. Raises (List Row) × Station W) [
          | ok b ↦ warm_round host g base fixture epoch done b p.1
          | raise e ↦ (raise e, p.1)
        ]
  unfolding warm_round
  tested-eq f g epoch done (ok true, s) h =
      invoked-eq f g done (invoke here base fixture epoch s) (h refl)
  tested-eq f g epoch done (ok false, s) h = refl
  tested-eq f g epoch done (raise e, s) h = refl

  wants_more-time :
      (epoch : ℕ) (done : List Row) (s : Station W) → time s ≤ time (wants_more host epoch done s).1
  unfolding wants_more
  wants_more-time epoch done s = elim (Bool-cases (ltb (length done) 10)) [
    | inl few ↦ rw few (omega arith)
    | inr many ↦ rw many (omega (arith, read s))
  ]

  -- After ten rows and ten seconds the loop ends.
  wants_more-end :
      (epoch : ℕ) (done : List Row) (s : Station W)
      → 10 ≤ length done
      → epoch + 10 * second ≤ time s
      → (wants_more host epoch done s).0 ≡ ok false
  unfolding wants_more
  wants_more-end epoch done s many late =
      let enough : ltb (length done) 10 ≡ false = ground arith in
      let r = read s in
      let over : ltb ((here.clock s).0 - epoch) (10 * second) ≡ false = ground arith in
      rw (enough, over) refl

  warm_up-fuel :
      (fuel more epoch : ℕ) (done : List Row) (s : Station W)
      → 10 ≤ length done + fuel
      → epoch + 10 * second ≤ time s + fuel
      → warm_up host (suc fuel) base fixture epoch done s
        ≡ warm_up host (suc (fuel + more)) base fixture epoch done s
  unfolding warm_up
  warm_up-fuel zero more epoch done s many late =
      tested-eq (warm_up host 0 base fixture epoch) (warm_up host (0 + more) base fixture epoch)
        epoch done (wants_more host epoch done s)
        (λ again. absurd (
          differ (
            sym (wants_more-end epoch done s (omega (arith, many)) (omega (arith, late))) ∙ again)))
  warm_up-fuel (suc fuel) more epoch done s many late =
      let next = warm_up host (suc fuel) base fixture epoch in
      let longer = warm_up host (suc (fuel + more)) base fixture epoch in
      let tested = wants_more host epoch done s in
      let s' = (invoke here base fixture epoch tested.1).1 in
      rw suc-add (
        tested-eq next longer epoch done tested (λ again row.
          warm_up-fuel fuel more epoch (done ++ row ∷ []) s'
            (omega (arith, many, length-append done (row ∷ [])))
            (omega (arith, late, wants_more-time epoch done s, spent epoch tested.1))))

  -- With a clock that never goes back, and invocations that take a nanosecond or more: the fuel of the
  -- warm-up, which counts the nanoseconds of ten seconds and one round more, is never used up, so any
  -- larger fuel gives the same rows and the same state.
  pub warm_up-enough :
      (more : ℕ) (s : Station W)
      → (now here >>= λ epoch. warm_up host (suc (10 * second)) base fixture epoch []) s
        ≡ (now here >>= λ epoch. warm_up host (suc (10 * second + more)) base fixture epoch []) s
  warm_up-enough more s =
      warm_up-fuel (10 * second) more (here.clock s).0 [] (here.clock s).1 (omega arith)
        (omega (arith, read s))
