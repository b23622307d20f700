-- ===== src/Bench/Load/Stopping.antt =====
-- When `load` ends, and how much it has done by then.
use laya_rs.Base.{
  ℕ, ◌+◌, ◌*◌, ◌≤◌, ◌<◌, ◌≡◌, refl, ◌∙◌, ◌⊎◌, inl, inr, Bool-cases, true, arith, length, count,
}
use laya_rs.Bench.Summary.{is_completed, second}
use laya_rs.Bench.Load.{
  State, must_stop, claim, store, start, Step, tick, head, returned, raised, Reach, here, later,
}
use laya_rs.Bench.Load.Invariant.{IsConsistent, Reach-IsConsistent, Step-IsConsistent}
use laya_rs.Bench.Load.Workers.{
  ready, calling, done, failed, set, is_calling, is_done, is_failed, count-set, count-replicate,
  count_phases,
}

-- What a worker saw when it returned.
abbrev pub Stopped : State → Type 0
Stopped s =
    ((60 * second ≤ s.elapsed) × (100 ≤ s.completed))
    ⊎ (300 * second ≤ s.elapsed)
    ⊎ (10_000 ≤ s.started)

must_stop→Stopped : (s : State) → must_stop s ≡ true → Stopped s
unfolding must_stop
must_stop→Stopped s h = ground arith

must_stop_mono :
    (s t : State)
    → s.elapsed ≤ t.elapsed
    → s.completed ≤ t.completed
    → s.started ≤ t.started
    → must_stop s ≡ true
    → must_stop t ≡ true
unfolding must_stop
must_stop_mono s t h k l e = ground arith

-- Once the tests hold they go on holding, no attempt is added, and no lost worker comes back.
record Settled (s t : State) : Type 0 where
  stays : must_stop t ≡ true
  same : t.started ≡ s.started
  lost : count is_failed s.workers ≤ count is_failed t.workers

Step-Settled : {s t : State} → must_stop s ≡ true → Step s t → Settled s t
unfolding claim store
Step-Settled {s} e (tick d) = record {
  stays =
      must_stop_mono s (record s { elapsed = s.elapsed + d }) (omega arith) (omega arith)
        (omega arith) e;
  same = refl;
  lost = omega arith;
}
Step-Settled {s} e (head i h) = rw e (record {
  stays =
      must_stop_mono s (record s { workers = set s.workers i done }) (omega arith) (omega arith)
        (omega arith) e;
  same = refl;
  lost = omega (arith, count-set is_failed s.workers i ready done h);
})
Step-Settled {s} e (returned i row h late) = record {
  stays = must_stop_mono s (store i row s) (omega arith) (ground arith) (omega arith) e;
  same = refl;
  lost = omega (arith, count-set is_failed s.workers i calling ready h);
}
Step-Settled {s} e (raised i h) = record {
  stays =
      must_stop_mono s (record s { workers = set s.workers i failed }) (omega arith) (omega arith)
        (omega arith) e;
  same = refl;
  lost = omega (arith, count-set is_failed s.workers i calling failed h);
}

Reach-Settled : {s t : State} → must_stop s ≡ true → Reach s t → Settled s t
Reach-Settled e here = record { stays = e; same = refl; lost = omega arith }
Reach-Settled e (later r st) =
    let before = Reach-Settled e r in
    let after = Step-Settled before.stays st in
    record { stays = after.stays; same = after.same ∙ before.same; lost = omega arith }

-- A worker has returned only if the tests hold.
abbrev Justified : State → Type 0
Justified s = (count is_done s.workers ≡ 0) ⊎ (must_stop s ≡ true)

Step-Justified : {s t : State} → Step s t → Justified s → Justified t
unfolding claim store
Step-Justified {s} st (inr e) = inr (Step-Settled e st).stays
Step-Justified {s} (tick d) (inl z) = inl z
Step-Justified {s} (head i h) (inl z) = elim (Bool-cases (must_stop s)) [
  | inl e ↦ inr (Step-Settled e (head i h)).stays
  | inr e ↦ rw e (inl (omega (arith, count-set is_done s.workers i ready calling h)))
]
Step-Justified {s} (returned i row h late) (inl z) =
    inl (omega (arith, count-set is_done s.workers i calling ready h))
Step-Justified {s} (raised i h) (inl z) =
    inl (omega (arith, count-set is_done s.workers i calling failed h))

Reach-Justified : (n : ℕ) {s : State} → Reach (start n) s → Justified s
Reach-Justified n here = inl (omega (arith, count-replicate n))
Reach-Justified n (later r st) = Step-Justified st (Reach-Justified n r)

-- What `load` hands to `summarize` when every worker has returned.
pub record IsResult (s : State) : Type 0 where
  pub complete : length s.rows ≡ s.started
  pub logged : s.written ≡ s.rows
  pub stopped :
      ((60 * second ≤ s.elapsed) × (100 ≤ count is_completed s.rows))
      ⊎ (300 * second ≤ s.elapsed)
      ⊎ (length s.rows ≡ 10_000)

-- Once all workers of `load`, at least one, have returned without an exception, whatever the order
-- of their steps, each attempt has exactly one row, the file has the same rows in the same order,
-- and sixty seconds and a hundred answers were reached, or 300 seconds, or exactly 10000 attempts.
pub load_returns :
    (n : ℕ) {s : State} → 0 < n → Reach (start n) s → count is_done s.workers ≡ n → IsResult s
load_returns n {s} some_worker r all_done =
    let inv = Reach-IsConsistent n r in
    let stop : must_stop s ≡ true = elim (Reach-Justified n r) [
      | inl z ↦ absurd (omega arith)
      | inr e ↦ e
    ] in
    let everyone = count_phases s.workers in
    record {
      complete = omega (arith, inv.accounted, inv.manned);
      logged = inv.logged;
      stopped =
          ground
            (arith, must_stop→Stopped s stop, inv.accounted, inv.manned, inv.capped, inv.answered);
    }

-- From a state of `load` in which the tests at the head of the loop hold, whatever the workers do
-- next, at most as many rows are added as there were calls under way.
pub load_overshoot :
    (n : ℕ) {s t : State}
    → Reach (start n) s
    → must_stop s ≡ true
    → Reach s t
    → length t.rows ≤ length s.rows + count is_calling s.workers
load_overshoot n {s} {t} r e more =
    let settled = Reach-Settled e more in
    let before = Reach-IsConsistent n r in let after = continue more before in omega arith
  where
    continue : {u : State} → Reach s u → IsConsistent n s → IsConsistent n u
    continue here inv = inv
    continue (later r' st) inv = Step-IsConsistent st (continue r' inv)
