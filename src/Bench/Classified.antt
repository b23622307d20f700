-- ===== src/Bench/Classified.antt =====
-- What the `except` clauses of `invoke` make of an exception.
use laya_rs.Base.{ℕ, ◌≡◌, ◌≢◌, ap, ◌∙◌, true, false, String, subst, arith, nat_eq, string_eq}
use package.text.Mathlib.TextEquality.{eq_iff}
use laya_rs.Base.Raises.{
  Raises, Exception, ok, raise, index_error, key_error, type_error, assertion_error, file_not_found,
  file_exists, value_error, runtime_error, attribute_error, stop_iteration, timeout_error,
  connection_error, os_error, http_exception, url_error, called_process_error, other_error,
  >>=-eq-ok, Raises-cases,
}
use laya_rs.Base.Raises
use laya_rs.Base.Json.{Json, null, text}
use laya_rs.Bench.Invoke.{classify}

timeout_ne_success : ◌≢◌ {A = String} "transport_timeout" "success"
timeout_ne_success = ground (arith, eq_iff "transport_timeout" "success")

error_ne_success : ◌≢◌ {A = String} "transport_error" "success"
error_ne_success = ground (arith, eq_iff "transport_error" "success")

mismatch_ne_success : ◌≢◌ {A = String} "answer_mismatch" "success"
mismatch_ne_success = ground (arith, eq_iff "answer_mismatch" "success")

pub same_text : {a b : String} → ◌≡◌ {A = Raises String} (ok a) (ok b) → a ≡ b
same_text h = cc

classify-ne_success : (e : Exception) → ◌≢◌ {A = Raises String} (classify e) (ok "success")
unfolding classify
classify-ne_success timeout_error h = timeout_ne_success (same_text h)
classify-ne_success (url_error true) h = timeout_ne_success (same_text h)
classify-ne_success (url_error false) h = error_ne_success (same_text h)
classify-ne_success connection_error h = error_ne_success (same_text h)
classify-ne_success os_error h = error_ne_success (same_text h)
classify-ne_success file_not_found h = error_ne_success (same_text h)
classify-ne_success file_exists h = error_ne_success (same_text h)
classify-ne_success http_exception h = error_ne_success (same_text h)
classify-ne_success assertion_error h = mismatch_ne_success (same_text h)
classify-ne_success key_error h = mismatch_ne_success (same_text h)
classify-ne_success type_error h = mismatch_ne_success (same_text h)
classify-ne_success (value_error m) h = mismatch_ne_success (same_text h)
classify-ne_success index_error h = cc
classify-ne_success (runtime_error m) h = cc
classify-ne_success attribute_error h = cc
classify-ne_success stop_iteration h = cc
classify-ne_success (called_process_error n) h = cc
classify-ne_success (other_error name) h = cc

-- The exceptions that no `except` clause of `invoke` takes.
pub data IsUncaught : Exception → Type 0 where
  by_index : IsUncaught index_error
  by_runtime : (m : String) → IsUncaught (runtime_error m)
  by_attribute : IsUncaught attribute_error
  by_iteration : IsUncaught stop_iteration
  by_process : (n : ℕ) → IsUncaught (called_process_error n)
  by_other : (name : String) → IsUncaught (other_error name)

same_exception : {a b : Exception} → ◌≡◌ {A = Raises String} (raise a) (raise b) → a ≡ b
same_exception h = cc

pub classify-IsUncaught : (e : Exception) {e' : Exception} → classify e ≡ raise e' → IsUncaught e'
unfolding classify
classify-IsUncaught timeout_error h = cc
classify-IsUncaught (url_error true) h = cc
classify-IsUncaught (url_error false) h = cc
classify-IsUncaught connection_error h = cc
classify-IsUncaught os_error h = cc
classify-IsUncaught file_not_found h = cc
classify-IsUncaught file_exists h = cc
classify-IsUncaught http_exception h = cc
classify-IsUncaught assertion_error h = cc
classify-IsUncaught key_error h = cc
classify-IsUncaught type_error h = cc
classify-IsUncaught (value_error m) h = cc
classify-IsUncaught index_error h = subst IsUncaught (same_exception h) by_index
classify-IsUncaught (runtime_error m) h = subst IsUncaught (same_exception h) (by_runtime m)
classify-IsUncaught attribute_error h = subst IsUncaught (same_exception h) by_attribute
classify-IsUncaught stop_iteration h = subst IsUncaught (same_exception h) by_iteration
classify-IsUncaught (called_process_error n) h = subst IsUncaught (same_exception h) (by_process n)
classify-IsUncaught (other_error name) h = subst IsUncaught (same_exception h) (by_other name)

pub classified-outcome :
    (e : Exception) (status : ℕ) {p : ℕ × Json}
    → Raises.◌>>=◌ (classify e) (λ outcome. ok (status, text outcome)) ≡ ok p
    → p.1 ≢ text "success"
classified-outcome e status {p} h is =
    let (outcome, he, hp) = >>=-eq-ok (classify e) (λ outcome. ok (status, text outcome)) h in
    let named : text outcome ≡ text "success" =
      ap (λ r. elim r as (λ x. Json) [ ok q ↦ q.1 | raise x ↦ null ]) hp ∙ is in
    let o : outcome ≡ "success" = cc in classify-ne_success e (he ∙ ap ok o)

pub raised_by :
    (r : Raises String) (status : ℕ) {e : Exception}
    → ◌≡◌ {A = Raises (ℕ × Json)} (Raises.◌>>=◌ r (λ outcome. ok (status, text outcome))) (raise e)
    → r ≡ raise e
raised_by (ok o) status h = cc
raised_by (raise e1) status h = let same : e1 ≡ _ = cc in ap raise same

-- The result of the `try` statement behind a response, by what the response was judged to be.
abbrev pub settle : ℕ → Raises Json → Raises (ℕ × Json)
settle status judged = elim judged [
  | ok outcome ↦ ok (status, outcome)
  | raise e ↦ Raises.◌>>=◌ (classify e) λ outcome. ok (status, text outcome)
]

pub settle-success :
    (status : ℕ) (judged : Raises Json) {p : ℕ × Json}
    → settle status judged ≡ ok p
    → p.1 ≡ text "success"
    → (status ≡ p.0) × (judged ≡ ok (text "success"))
settle-success status (ok outcome) h is = (
  ap (λ r. elim r as (λ x. ℕ) [ ok q ↦ q.0 | raise x ↦ 0 ]) h,
  ap ok (ap (λ r. elim r as (λ x. Json) [ ok q ↦ q.1 | raise x ↦ null ]) h ∙ is),
)
settle-success status (raise e) h is = absurd (classified-outcome e status h is)

pub settle-IsUncaught :
    (status : ℕ) (judged : Raises Json) {e : Exception}
    → settle status judged ≡ raise e
    → IsUncaught e
settle-IsUncaught status (ok outcome) h = cc
settle-IsUncaught status (raise e) h = classify-IsUncaught e (raised_by (classify e) status h)
