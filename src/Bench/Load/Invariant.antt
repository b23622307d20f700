-- ===== src/Bench/Load/Invariant.antt =====
-- What holds of the counters and the rows of `load` whatever the order of the workers' steps.
use laya_rs.Base.{
  ℕ, zero, suc, ◌+◌, ◌≤◌, ◌≡◌, refl, ap, inl, inr, Bool-cases, false, false, some, List, [], ◌∷◌,
  ◌++◌, arith, get_elem?, length, count, All, replicate, length-append, count-append, All-append,
}
use laya_rs.Bench.Summary.{Row, is_completed}
use laya_rs.Bench.Load.{
  State, must_stop, claim, store, start, Step, tick, head, returned, raised, Reach, here, later,
}
use laya_rs.Bench.Load.Workers.{
  ready, calling, done, failed, is_calling, is_failed, count-set, length-set, count-replicate,
}

pub record IsConsistent (clients : ℕ) (s : State) : Type 0 where
  -- every attempt has its row, is in `invoke`, or ended its worker
  pub accounted : s.started ≡ length s.rows + count is_calling s.workers + count is_failed s.workers
  pub answered : s.completed ≡ count is_completed s.rows
  pub logged : s.written ≡ s.rows
  pub capped : s.started ≤ 10_000
  pub timely : All (λ (r : Row). r.end_s ≤ s.elapsed) s.rows
  pub manned : length s.workers ≡ clients

later_bound :
    (rows : List Row) (t d : ℕ)
    → All (λ (r : Row). r.end_s ≤ t) rows
    → All (λ (r : Row). r.end_s ≤ t + d) rows
later_bound [] t d a = tt
later_bound (r ∷ rows) t d a = (omega arith, later_bound rows t d a.1)

start-IsConsistent : (clients : ℕ) → IsConsistent clients (start clients)
start-IsConsistent clients = record {
  accounted = omega (arith, count-replicate clients);
  answered = refl;
  logged = refl;
  capped = omega arith;
  timely = tt;
  manned = length-replicate clients;
}
  where
    length-replicate : (n : ℕ) → length (replicate n ready) ≡ n
    length-replicate zero = refl
    length-replicate (suc n) = omega (arith, length-replicate n)

started_below_cap : (s : State) → must_stop s ≡ false → s.started + 1 ≤ 10_000
unfolding must_stop
started_below_cap s go = ground arith

module _ {n : ℕ} {s : State} (inv : IsConsistent n s) (i : ℕ) where
  claim-IsConsistent : get_elem? s.workers i ≡ some ready → IsConsistent n (claim i s)
  unfolding claim
  claim-IsConsistent e = elim (Bool-cases (must_stop s)) [
    | inl stop ↦ rw stop (record {
      accounted = omega (
        arith,
        count-set is_calling s.workers i ready done e,
        count-set is_failed s.workers i ready done e,
        inv.accounted,
      );
      answered = inv.answered;
      logged = inv.logged;
      capped = inv.capped;
      timely = inv.timely;
      manned = omega (arith, length-set s.workers i done, inv.manned);
    })
    | inr go ↦ rw go (record {
      accounted = omega (
        arith,
        count-set is_calling s.workers i ready calling e,
        count-set is_failed s.workers i ready calling e,
        inv.accounted,
      );
      answered = inv.answered;
      logged = inv.logged;
      capped = omega (arith, started_below_cap s go);
      timely = inv.timely;
      manned = omega (arith, length-set s.workers i calling, inv.manned);
    })
  ]

  store-IsConsistent :
      (row : Row)
      → get_elem? s.workers i ≡ some calling
      → row.end_s ≤ s.elapsed
      → IsConsistent n (store i row s)
  unfolding store
  store-IsConsistent row e h = record {
    accounted = omega (
      arith,
      length-append s.rows (row ∷ []),
      count-set is_calling s.workers i calling ready e,
      count-set is_failed s.workers i calling ready e,
      inv.accounted,
    );
    answered = ground (arith, count-append is_completed s.rows (row ∷ []), inv.answered);
    logged = ap (λ (l : List Row). l ++ row ∷ []) inv.logged;
    capped = inv.capped;
    timely = All-append (λ (r : Row). r.end_s ≤ s.elapsed) s.rows (row ∷ []) inv.timely (h, tt);
    manned = omega (arith, length-set s.workers i ready, inv.manned);
  }

-- No step of any worker breaks the invariant.
pub Step-IsConsistent : {n : ℕ} {s t : State} → Step s t → IsConsistent n s → IsConsistent n t
Step-IsConsistent {s} (tick d) inv = record {
  accounted = inv.accounted;
  answered = inv.answered;
  logged = inv.logged;
  capped = inv.capped;
  timely = later_bound s.rows s.elapsed d inv.timely;
  manned = inv.manned;
}
Step-IsConsistent (head i e) inv = claim-IsConsistent inv i e
Step-IsConsistent (returned i row e h) inv = store-IsConsistent inv i row e h
Step-IsConsistent {s} (raised i e) inv = record {
  accounted = omega (
    arith,
    count-set is_calling s.workers i calling failed e,
    count-set is_failed s.workers i calling failed e,
    inv.accounted,
  );
  answered = inv.answered;
  logged = inv.logged;
  capped = inv.capped;
  timely = inv.timely;
  manned = omega (arith, length-set s.workers i failed, inv.manned);
}

-- In every state that `load` can reach with a given number of workers: each attempt that was counted
-- has its row, is under way, or has ended its worker; `completed` counts the rows with an answer; the
-- file has the same rows in the same order; at most 10000 attempts were started; no row ends later
-- than now; and no worker was added or lost.
pub Reach-IsConsistent : (n : ℕ) {s : State} → Reach (start n) s → IsConsistent n s
Reach-IsConsistent n here = start-IsConsistent n
Reach-IsConsistent n (later r st) = Step-IsConsistent st (Reach-IsConsistent n r)
