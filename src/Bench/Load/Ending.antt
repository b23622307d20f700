-- ===== src/Bench/Load/Ending.antt =====
-- `load` ends: the critical sections that it runs are bounded. And a load that ends by its own rule
-- can be reported as one that did not meet the protocol.
use laya_rs.Base.{
  ℕ, suc, ◌+◌, ◌-◌, ◌*◌, ◌≤◌, ◌<◌, ◌≡◌, inl, inr, Bool-cases, false, some, arith, get_elem?, count,
}
use laya_rs.Base.Json.{null}
use laya_rs.Bench.Summary.{Row}
use laya_rs.Bench.Load.{
  State, must_stop, claim, store, start, Step, tick, head, returned, raised, Reach, here, later,
}
use laya_rs.Bench.Load.Workers.{
  Phase, ready, calling, done, failed, is_ready, is_calling, is_done, is_failed, count-set,
  count-replicate,
}

-- How often a worker moved. The passing of time is no move.
abbrev pub moves : {s t : State} → Reach s t → ℕ
moves here = 0
moves (later r (tick d)) = moves r
moves (later r _) = suc (moves r)

-- What is left to do: an attempt costs two sections, and a worker one more to return.
abbrev pub left : State → ℕ
left s = 2 * (10_000 - s.started) + 2 * count is_calling s.workers + count is_ready s.workers

below_cap : (s : State) → must_stop s ≡ false → s.started < 10_000
unfolding must_stop
below_cap s go = ground arith

claim-left : (s : State) (i : ℕ) → get_elem? s.workers i ≡ some ready → left (claim i s) < left s
unfolding claim
claim-left s i e = elim (Bool-cases (must_stop s)) [
  | inl stop ↦ rw stop (
      omega (
        arith,
        count-set is_calling s.workers i ready done e,
        count-set is_ready s.workers i ready done e,
      ))
  | inr go ↦ rw go (
      omega (
        arith,
        below_cap s go,
        count-set is_calling s.workers i ready calling e,
        count-set is_ready s.workers i ready calling e,
      ))
]

store-left :
    (s : State) (i : ℕ) (row : Row)
    → get_elem? s.workers i ≡ some calling
    → left (store i row s) < left s
unfolding store
store-left s i row e = omega (
  arith,
  count-set is_calling s.workers i calling ready e,
  count-set is_ready s.workers i calling ready e,
)

moves-left : {s t : State} (r : Reach s t) → moves r + left t ≤ left s
moves-left here = omega arith
moves-left (later r (tick d)) = omega (arith, moves-left r)
moves-left (later {t} r (head i e)) = omega (arith, moves-left r, claim-left t i e)
moves-left (later {t} r (returned i row e h)) = omega (arith, moves-left r, store-left t i row e)
moves-left (later {t} r (raised i e)) = omega (
  arith,
  moves-left r,
  count-set is_calling t.workers i calling failed e,
  count-set is_ready t.workers i calling failed e,
)

-- In every run of `load`, whatever the order of steps, the workers run at most 20000 critical
-- sections and ends of calls, and one more for each worker.
pub moves-le : (n : ℕ) {s : State} (r : Reach (start n) s) → moves r ≤ 20_000 + n
moves-le n r = omega (arith, moves-left r, count-replicate n)

-- A worker that has neither returned nor raised can move: at the head of the loop at once, and in
-- `invoke` when its call returns.
pub can_move :
    (s : State) (i : ℕ) (p : Phase)
    → get_elem? s.workers i ≡ some p
    → (is_done p ≡ false)
    → (is_failed p ≡ false)
    → (t : State) × Step s t × (left t < left s)
can_move s i ready e a b = (_, head i e, claim-left s i e)
can_move s i calling e a b =
    let row : Row = record { start_s = 0; end_s = 0; latency_ms = 0; status = 0; outcome = null } in
    (_, returned i row e (omega arith), store-left s i row e)
can_move s i done e a b = cc
can_move s i failed e a b = cc
