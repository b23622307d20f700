-- ===== src/Smoke/Waiting.antt =====
-- `wait_for` ends: the fuel of the model is never used up.
use laya_rs.Base.{
  ℕ, zero, suc, ◌+◌, ◌*◌, ◌≤◌, ◌≡◌, refl, sym, ◌∙◌, inl, inr, Bool, true, false, Bool-cases, arith,
  ltb,
}
use native.Mathlib.Nat.{suc-add}
use laya_rs.Base.Raises.{Raises, ok, raise, assertion_error}
use laya_rs.Base.Action.{Action, ◌>>=◌}
use laya_rs.Smoke.{Host}
use laya_rs.Smoke.Service.{now, poll, wait_until, wait_for}

-- A clock that never goes back and that a sleep moves on by its length. `time` is the time in a state.
pub record IsTimely {W : Type 0} (host : Host W) : Type 0 where
  pub time : W → ℕ
  pub read : (w : W) → (time w ≤ (host.clock w).0) × ((host.clock w).0 ≤ time (host.clock w).1)
  pub slept : (d : ℕ) (w : W) → time w + d ≤ time (host.sleep d w)

ltb_late : (t end : ℕ) → end ≤ t → ltb t end ≡ false
ltb_late t end h = ground arith

module _ {W : Type 0} (host : Host W) (clock : IsTimely host) (check : Action W Bool)
    (onward : (w : W) → clock.time w ≤ clock.time (check w).1) where
  open clock use {time, read, slept}

  poll-eq :
      (f g : W → Raises (Unit {0}) × W) (p : Raises Bool × W)
      → f (host.sleep 50_000_000 p.1) ≡ g (host.sleep 50_000_000 p.1)
      → poll host f p ≡ poll host g p
  unfolding poll
  poll-eq f g (ok true, w) h = refl
  poll-eq f g (ok false, w) h = h
  poll-eq f g (raise e, w) h = refl

  wait_until-round :
      (fuel end : ℕ) (w : W)
      → ltb (host.clock w).0 end ≡ true
      → wait_until host (suc fuel) end check w
        ≡ poll host (wait_until host fuel end check) (check (host.clock w).1)
  unfolding wait_until
  wait_until-round fuel end w h = ground arith

  wait_until-late :
      (fuel end : ℕ) (w : W)
      → ltb (host.clock w).0 end ≡ false
      → wait_until host (suc fuel) end check w ≡ (raise assertion_error, (host.clock w).1)
  unfolding wait_until
  wait_until-late fuel end w h = ground arith

  wait_until-fuel :
      (fuel more end : ℕ) (w : W)
      → end ≤ time w + 50_000_000 * fuel
      → wait_until host (suc fuel) end check w ≡ wait_until host (suc fuel + more) end check w
  wait_until-fuel zero more end w h =
      let late : ltb (host.clock w).0 end ≡ false =
        ltb_late (host.clock w).0 end (omega (arith, read w)) in
      wait_until-late 0 end w late ∙ sym (rw suc-add (wait_until-late (0 + more) end w late))
  wait_until-fuel (suc fuel) more end w h = elim (Bool-cases (ltb (host.clock w).0 end)) [
    | inr late ↦
        wait_until-late (suc fuel) end w late
        ∙ sym (rw suc-add (wait_until-late (suc fuel + more) end w late))
    | inl early ↦
        let w1 = (check (host.clock w).1).1 in
        let ih =
          wait_until-fuel fuel more end (host.sleep 50_000_000 w1)
            (omega (arith, read w, onward (host.clock w).1, slept 50_000_000 w1)) in
        wait_until-round (suc fuel) end w early
        ∙ poll-eq (wait_until host (suc fuel) end check)
            (wait_until host (suc fuel + more) end check) (check (host.clock w).1) ih
        ∙ sym (rw suc-add (wait_until-round (suc fuel + more) end w early))
  ]

  -- With a clock that never goes back, which a sleep moves on by its length, and a check that does not
  -- turn the clock back: the fuel of `wait_for`, twenty rounds for each second and one more, is never
  -- used up, so any larger fuel gives the same result and the same state.
  pub wait_for-fuel :
      (seconds more : ℕ) (w : W)
      → wait_for host check seconds w
        ≡ (now host >>= λ t.
              wait_until host (suc (20 * seconds) + more) (t + 1_000_000_000 * seconds) check)
            w
  unfolding wait_for
  wait_for-fuel seconds more w =
      wait_until-fuel (20 * seconds) more ((host.clock w).0 + 1_000_000_000 * seconds)
        (host.clock w).1 (omega (arith, read w))
