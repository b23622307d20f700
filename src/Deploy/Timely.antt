-- ===== src/Deploy/Timely.antt =====
-- `wait_for` of tools/release/smoke-macos.py ends: the fuel of the model is never used up.
use laya_rs.Base.{
  ℕ, zero, suc, ◌+◌, ◌*◌, ◌≤◌, ◌≡◌, refl, ap, ◌∙◌, subst, Bool, true, false, arith, ltb, ltb→lt,
}
use native.Mathlib.Nat.{le_refl}
use laya_rs.Base.Raises.{ok}
use laya_rs.Base.Action.{Action}
use laya_rs.Base.Steps.{◌>>=◌, ◌>>◌, pure, demand, >>=-cong, last_demand-Runs}
use laya_rs.Deploy.{Host}
use laya_rs.Deploy.Instance.{require_alive, wait_until, wait_for, now, pause, seconds}

-- A clock that never goes back, that a sleep moves on by its length, and that looking at a process does
-- not turn back. `time` is the time in a state.
pub record IsTimely {W : Type 0} (host : Host W) : Type 0 where
  pub time : W → ℕ
  pub read : (w : W) → (time w ≤ (host.clock w).0) × ((host.clock w).0 ≤ time (host.clock w).1)
  pub slept : (d : ℕ) (w : W) → time w + d ≤ time (host.sleep d w)
  pub looked : (process : ℕ) (w : W) → time w ≤ time (require_alive host process w).1

module _ {W : Type 0} (host : Host W) (timely : IsTimely host) (check : Action W Bool)
    (onward : (w : W) → timely.time w ≤ timely.time (check w).1) (process : ℕ) where
  open timely use {time, read, slept, looked}

  -- What follows the check in a round.
  abbrev after_check : Action W (Unit {0}) → Bool → Action W (Unit {0})
  after_check next found = elim found [
    | true ↦ pure tt
    | false ↦ require_alive host process >> (pause host 100_000_000 >> next)
  ]

  -- A round, before `next`.
  abbrev one_round : Action W (Unit {0}) → ℕ → Action W (Unit {0})
  one_round next end = now host >>= λ t. demand (ltb t end) >> (check >>= after_check next)

  after_check-eq :
      (next other : Action W (Unit {0})) (found : Bool) (v : W)
      → ((x : W) → time v + 100_000_000 ≤ time x → next x ≡ other x)
      → after_check next found v ≡ after_check other found v
  after_check-eq next other true v h = refl
  after_check-eq next other false v h = >>=-cong _ _ _ v (λ _ u alive.
      >>=-cong _ _ _ u (λ _ x paused.
        let alive_at : time v ≤ time u =
          subst (λ z. time v ≤ time z) (ap (λ p. p.1) alive.result_eq) (looked process v) in
        let slept_at : time u + 100_000_000 ≤ time x =
          subst (λ z. time u + 100_000_000 ≤ time z) (ap (λ p. p.1) paused.result_eq)
            (slept 100_000_000 u) in
        h x (omega (arith, alive_at, slept_at))))

  one_round-eq :
      (next other : Action W (Unit {0})) (end : ℕ) (w : W)
      → ((x : W) → time w + 100_000_000 ≤ time x → time w + 1 ≤ end → next x ≡ other x)
      → one_round next end w ≡ one_round other end w
  one_round-eq next other end w h = >>=-cong _ _ _ w (λ t u clock. >>=-cong _ _ _ u (λ _ u' early.
      >>=-cong _ _ _ u' (λ found v checked.
        let clock_time : ok (host.clock w).0 ≡ ok t = ap (λ p. p.0) clock.result_eq in
        let t_eq : (host.clock w).0 ≡ t = cc in
        let before : time w ≤ t = subst (λ n. time w ≤ n) t_eq (read w).0 in
        let at_u : (host.clock w).0 ≤ time u =
          subst (λ z. (host.clock w).0 ≤ time z) (ap (λ p. p.1) clock.result_eq) (read w).1 in
        let (soon, same) = last_demand-Runs early in
        let at_u' : time u ≤ time u' = subst (λ z. time u ≤ time z) same (le_refl (time u)) in
        let at_v : time u' ≤ time v =
          subst (λ z. time u' ≤ time z) (ap (λ p. p.1) checked.result_eq) (onward u') in
        let in_time = ltb→lt t end soon in
        after_check-eq next other found v (λ x later.
          h x (omega (arith, (read w).0, at_u, at_u', at_v, later))
            (omega (arith, before, in_time))))))

  suc_more : (m n : ℕ) → suc (m + n) ≡ suc m + n
  suc_more m n = omega arith

  unrolled :
      (fuel end : ℕ) (w : W)
      → one_round (wait_until host fuel end check process) end w
        ≡ wait_until host (suc fuel) end check process w
  unfolding wait_until
  unrolled fuel end w = refl

  wait_until-fuel :
      (fuel more end : ℕ) (w : W)
      → end ≤ time w + 100_000_000 * fuel
      → wait_until host (suc fuel) end check process w
        ≡ wait_until host (suc fuel + more) end check process w
  unfolding wait_until
  wait_until-fuel zero more end w h =
      one_round-eq (wait_until host 0 end check process)
        (wait_until host (0 + more) end check process) end w
        (λ x later soon. absurd (omega (arith, h, soon)))
      ∙ unrolled (0 + more) end w
      ∙ ap (λ n. wait_until host n end check process w) (suc_more 0 more)
  wait_until-fuel (suc fuel) more end w h =
      one_round-eq (wait_until host (suc fuel) end check process)
        (wait_until host (suc fuel + more) end check process) end w
        (λ x later soon. wait_until-fuel fuel more end x (omega (arith, h, later)))
      ∙ unrolled (suc fuel + more) end w
      ∙ ap (λ n. wait_until host n end check process w) (suc_more (suc fuel) more)

  -- With such a clock, and a check that does not turn it back: the fuel of `wait_for`, ten rounds for
  -- each second and one more, is never used up, so any larger fuel gives the same result and the same
  -- state.
  pub wait_for-timely :
      (more : ℕ) (w : W)
      → wait_for host check process w
        ≡ (now host >>= λ t.
              wait_until host
                (suc (10 * seconds) + more)
                (t + 1_000_000_000 * seconds)
                check
                process)
            w
  unfolding wait_for
  wait_for-timely more w = >>=-cong _ _ _ w (λ t u clock.
      let clock_time : ok (host.clock w).0 ≡ ok t = ap (λ p. p.0) clock.result_eq in
      let t_eq : (host.clock w).0 ≡ t = cc in
      let at_u : (host.clock w).0 ≤ time u =
        subst (λ z. (host.clock w).0 ≤ time z) (ap (λ p. p.1) clock.result_eq) (read w).1 in
      wait_until-fuel (10 * seconds) more (t + 1_000_000_000 * seconds) u
        (omega (arith, at_u, t_eq)))
