-- ===== src/Bench/Invoke.antt =====
-- `invoke` in docs/validation/benchmark.py: one request, and the row that it leaves.
use laya_rs.Base.{ℕ, ◌-◌, true, false, String, ◌==◌, nat_eq, if◌then◌else◌}
use laya_rs.Base.Raises
use laya_rs.Base.Raises.{
  Raises, Exception, ok, raise, index_error, key_error, type_error, assertion_error, file_not_found,
  file_exists, value_error, runtime_error, attribute_error, stop_iteration, timeout_error,
  connection_error, os_error, http_exception, url_error, called_process_error, other_error,
}
use laya_rs.Base.Action.{Action, pure, reading, ◌>>=◌}
use laya_rs.Base.Json.{Json, text, get}
use laya_rs.Smoke.{Host}
use laya_rs.Smoke.Answer.{check_answer}
use laya_rs.Smoke.Service.{request, now}
use laya_rs.Smoke.Acceptance.{sent_for}
use laya_rs.Bench.Summary.{Row}

-- The `except` clauses: the outcome for an exception, or the exception again if none of them takes it.
-- FileNotFoundError and FileExistsError are OSErrors.
unfoldable pub classify : Exception → Raises String
classify timeout_error = ok "transport_timeout"
classify (url_error true) = ok "transport_timeout"
classify (url_error false) = ok "transport_error"
classify connection_error = ok "transport_error"
classify os_error = ok "transport_error"
classify file_not_found = ok "transport_error"
classify file_exists = ok "transport_error"
classify http_exception = ok "transport_error"
classify assertion_error = ok "answer_mismatch"
classify key_error = ok "answer_mismatch"
classify type_error = ok "answer_mismatch"
classify (value_error m) = ok "answer_mismatch"
classify index_error = raise index_error
classify (runtime_error m) = raise (runtime_error m)
classify attribute_error = raise attribute_error
classify stop_iteration = raise stop_iteration
classify (called_process_error n) = raise (called_process_error n)
classify (other_error name) = raise (other_error name)

module _ {W : Type 0} (host : Host W) where
  open host use {loads, unit}

  -- The outcome that a response gives. A code is any value.
  unfoldable pub judge : Json → ℕ × String → Raises Json
  unfolding get check_answer
  judge fixture (status, body) = Raises.◌>>=◌ (loads body) λ value.
      if status == 200
      then (Raises.◌>>=◌ (get "response" fixture)
          λ official. Raises.◌>>◌ (check_answer unit value official) (ok (text "success")))
      else (Raises.◌>>=◌ (get "error" value) λ error. get "code" error)

  -- What the `try` statement leaves in `status` and `outcome`: a status stays when the body is no good.
  unfoldable pub outcome_of : Json → Raises (ℕ × String) → Raises (ℕ × Json)
  unfolding judge classify
  outcome_of fixture (raise e) = Raises.◌>>=◌ (classify e) λ outcome. ok (0, text outcome)
  outcome_of fixture (ok reply) = elim (judge fixture reply) [
    | ok outcome ↦ ok (reply.0, outcome)
    | raise e ↦ Raises.◌>>=◌ (classify e) λ outcome. ok (reply.0, text outcome)
  ]

  abbrev pub ask : String → Json → Action W (ℕ × String)
  ask base fixture =
      reading (λ w. sent_for fixture) >>= λ sent. request host base "/v1/system-one" sent

  -- `ask` with whatever it raises as a value.
  unfoldable pub attempt : String → Json → Action W (ℕ × Json)
  unfolding sent_for request outcome_of
  attempt base fixture w = let (r, w') = ask base fixture w in (outcome_of fixture r, w')

  unfoldable pub row_of : ℕ → ℕ → ℕ × Json → ℕ → Row
  row_of epoch start (status, outcome) end = record {
    start_s = start - epoch;
    end_s = end - epoch;
    latency_ms = end - start;
    status = status;
    outcome = outcome;
  }

  unfoldable pub invoke : String → Json → ℕ → Action W Row
  unfolding attempt row_of
  invoke base fixture epoch = do
    start ← now host
    found ← attempt base fixture
    end ← now host
    pure (row_of epoch start found end)
