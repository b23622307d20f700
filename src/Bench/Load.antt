-- ===== src/Bench/Load.antt =====
-- `load` in docs/validation/benchmark.py: several workers that send requests in turn and share
-- the counters and the list of rows under one lock. Between two steps of the model any worker may
-- run; what a worker does while it holds the lock is one step. `invoke` runs outside the lock.
pub mod Workers
pub mod Invariant
pub mod Stopping
pub mod Ending
use laya_rs.Base.{
  ℕ, ◌+◌, ◌*◌, ◌≤◌, ◌≡◌, Bool, true, false, ◌&&◌, ◌||◌, Option, none, some, List, [], ◌∷◌, ◌++◌,
  leb, get_elem?, replicate, if◌then◌else◌,
}
use laya_rs.Bench.Summary.{Row, second, is_completed}
use laya_rs.Bench.Load.Workers.{Phase, ready, calling, done, failed, set}

-- The shared variables, the clock's distance from `epoch`, and where each worker stands. `written`
-- holds the lines of requests.jsonl.
pub record State : Type 0 where
  pub elapsed : ℕ
  pub started : ℕ
  pub completed : ℕ
  pub rows : List Row
  pub written : List Row
  pub workers : List Phase

-- The two tests at the head of the loop, on which a worker returns.
unfoldable pub must_stop : State → Bool
must_stop s =
    ((leb (60 * second) s.elapsed && leb 100 s.completed) || leb (300 * second) s.elapsed)
    || leb 10_000 s.started

-- The first critical section, for worker `i`: return, or count one more attempt and go on to call
-- `invoke`.
unfoldable pub claim : ℕ → State → State
claim i s =
    if must_stop s
    then record s { workers = set s.workers i done }
    else record s { started = s.started + 1; workers = set s.workers i calling }

-- The second critical section: keep the row and write its line.
unfoldable pub store : ℕ → Row → State → State
store i row s = record s {
  rows = s.rows ++ row ∷ [];
  completed = if is_completed row then s.completed + 1 else s.completed;
  written = s.written ++ row ∷ [];
  workers = set s.workers i ready;
}

-- The pool has started the workers, and no time has passed.
abbrev pub start : ℕ → State
start clients = record {
  elapsed = 0;
  started = 0;
  completed = 0;
  rows = [];
  written = [];
  workers = replicate clients ready;
}

-- One step: time passes, a worker takes the lock at the head of its loop, or a worker whose call
-- has returned stores its row. A call that raises ends its worker. A row may be any that ends by now:
-- it is not tied to the call's start, so there are more runs than the program has.
pub data Step (s : State) : State → Type 0 where
  tick : (d : ℕ) → Step s (record s { elapsed = s.elapsed + d })
  head : (i : ℕ) → get_elem? s.workers i ≡ some ready → Step s (claim i s)
  returned :
      (i : ℕ) (row : Row)
      → get_elem? s.workers i ≡ some calling
      → row.end_s ≤ s.elapsed
      → Step s (store i row s)
  raised :
      (i : ℕ)
      → get_elem? s.workers i ≡ some calling
      → Step s (record s { workers = set s.workers i failed })

pub data Reach (s : State) : State → Type 0 where
  here : Reach s s
  later : {t u : State} → Reach s t → Step t u → Reach s u
