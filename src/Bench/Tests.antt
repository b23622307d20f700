-- ===== src/Bench/Tests.antt =====
-- Runs of the benchmark model on small inputs.
use laya_rs.Base.{
  ℕ, ◌+◌, ◌*◌, zero, suc, ◌≤◌, ◌<◌, ◌≡◌, ◌⊎◌, all, refl, ℕ_discrete, some, get_elem?, true, false,
  List, [], ◌∷◌, arith, length, count, All, replicate,
}
use laya_rs.Base.Raises.{ok, raise, type_error}
use laya_rs.Base.Json.{text, array, nil}
use laya_rs.Base.Sorting.{sorted}
use laya_rs.Bench.Percentile.{percentile}
use laya_rs.Bench.Summary.{Row, Report, second, latencies, summarize}
use laya_rs.Bench.Summary.Counting.{Describes, summarize-Describes}
use laya_rs.Bench.Summary.Latency.{has_key, LatencyOf, summarize-LatencyOf}
use laya_rs.Bench.Load.{
  State, must_stop, claim, store, start, tick, head, returned, Reach, here, later,
}
use laya_rs.Bench.Load.Workers.{ready, is_done, is_calling}
use laya_rs.Bench.Load.Invariant.{IsConsistent, Reach-IsConsistent}
use laya_rs.Bench.Load.Stopping.{IsResult, load_returns, load_overshoot}
use laya_rs.Bench.Load.Ending.{moves, moves-le}

abbrev row_at : ℕ → Row
row_at t = record { start_s = t; end_s = t; latency_ms = 7; status = 200; outcome = text "success" }

abbrev late_row : Row
late_row = row_at (61 * second)

abbrev minute : List Row
minute = late_row ∷ replicate 99 (row_at second)

fifth_of_four : percentile (sorted (9 ∷ 3 ∷ 7 ∷ 5 ∷ [])) 50 ≡ ok 5
unfolding percentile sorted ℕ_discrete
fifth_of_four = refl

keyed : all has_key minute ≡ true
keyed = refl

summarize-Describes_example : (r : Report) × (summarize 1 minute ≡ ok r) × Describes 1 minute r
summarize-Describes_example = summarize-Describes 1 minute keyed

-- An outcome that is a list cannot be counted.
unhashable : summarize 1 (record late_row { outcome = array nil } ∷ []) ≡ raise type_error
unfolding summarize laya_rs.Base.ℕ_discrete
unhashable = refl

latency_example :
    (all has_key minute ≡ false) × (summarize 1 minute ≡ raise type_error)
    ⊎ ((all has_key minute ≡ true)
        × (r : Report) × (summarize 1 minute ≡ ok r)
        × LatencyOf r.protocol_met (latencies minute) r.latency_ms)
latency_example = summarize-LatencyOf 1 minute

-- One worker sends a request, stores its row, and sees at 300 seconds that it has to return.
abbrev after_call : State
after_call = claim 0 (start 1)

abbrev after_row : State
after_row = store 0 (row_at 0) after_call

abbrev after_wait : State
after_wait = record after_row { elapsed = after_row.elapsed + 300 * second }

abbrev at_end : State
at_end = claim 0 after_wait

reach_row : Reach (start 1) after_row
unfolding claim must_stop store ℕ_discrete
reach_row = later (later here (head 0 refl)) (returned 0 (row_at 0) refl (omega arith))

reach_wait : Reach (start 1) after_wait
reach_wait = later reach_row (tick (300 * second))

reach_end : Reach (start 1) at_end
unfolding claim must_stop store ℕ_discrete
reach_end = later reach_wait (head 0 refl)

end_done : count is_done at_end.workers ≡ 1
unfolding claim must_stop store ℕ_discrete
end_done = refl

wait_stops : must_stop after_wait ≡ true
unfolding claim must_stop store ℕ_discrete
wait_stops = refl

load_returns_example : IsResult at_end
load_returns_example = load_returns 1 (omega arith) reach_end end_done

load_overshoot_example :
    length at_end.rows ≤ length after_wait.rows + count is_calling after_wait.workers
unfolding claim must_stop store ℕ_discrete
load_overshoot_example = load_overshoot 1 reach_wait wait_stops (later here (head 0 wait_ready))
  where
    wait_ready : get_elem? after_wait.workers 0 ≡ some ready
    wait_ready = refl

Reach-IsConsistent_example : IsConsistent 1 at_end
Reach-IsConsistent_example = Reach-IsConsistent 1 reach_end

moves_example : moves reach_end ≤ 20_001
moves_example = moves-le 1 reach_end
