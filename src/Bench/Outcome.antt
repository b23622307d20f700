-- ===== src/Bench/Outcome.antt =====
-- What a row of `invoke` says of the response, and what `invoke` raises.
use laya_rs.Base.{
  ℕ, ◌≡◌, ◌≢◌, refl, sym, ap, ◌∙◌, ◌⊎◌, inl, inr, Bool, true, false, Bool-cases, Option, none, some,
  List, [], ◌∷◌, String, subst, arith, ◌==◌, nat_eq, string_eq, if◌then◌else◌,
}
use laya_rs.Base.Raises.{
  Raises, Exception, ok, raise, index_error, key_error, type_error, assertion_error, file_not_found,
  file_exists, value_error, runtime_error, attribute_error, stop_iteration, timeout_error,
  connection_error, os_error, http_exception, url_error, called_process_error, other_error,
  >>=-eq-ok, Raises-cases,
}
use laya_rs.Base.Raises
use laya_rs.Base.Action.{pure, reading, ◌>>=◌, >>=-value}
use laya_rs.Base.Json.{Json, text, get}
use laya_rs.Smoke.{Host}
use laya_rs.Smoke.Answer.{check_answer}
use laya_rs.Smoke.Service.{request, now}
use laya_rs.Smoke.Acceptance.{sent_for}
use laya_rs.Smoke.Passing.{IsAnswered}
use laya_rs.Bench.Summary.{Row}
use laya_rs.Bench.Invoke.{classify, judge, outcome_of, ask, attempt, row_of, invoke}
use laya_rs.Bench.Classified.{
  IsUncaught, classified-outcome, classify-IsUncaught, raised_by, settle-success, settle-IsUncaught,
}

module _ {W : Type 0} (host : Host W) where
  open host use {loads, unit}

  outcome_of-reply :
      (fixture : Json) (r : Raises (ℕ × String)) {p : ℕ × Json}
      → outcome_of host fixture r ≡ ok p
      → p.1 ≡ text "success"
      → (reply : ℕ × String) × (r ≡ ok reply)
        × (reply.0 ≡ p.0)
        × (judge host fixture reply ≡ ok (text "success"))
  unfolding outcome_of
  outcome_of-reply fixture (raise e) h is = absurd (classified-outcome e 0 h is)
  outcome_of-reply fixture (ok reply) h is =
      let (status_eq, judged) = settle-success reply.0 (judge host fixture reply) h is in
      (reply, refl, status_eq, judged)

  outcome_of-IsUncaught :
      (fixture : Json) (r : Raises (ℕ × String)) {e : Exception}
      → outcome_of host fixture r ≡ raise e
      → IsUncaught e
  unfolding outcome_of
  outcome_of-IsUncaught fixture (raise e) h = classify-IsUncaught e (raised_by (classify e) 0 h)
  outcome_of-IsUncaught fixture (ok reply) h =
      settle-IsUncaught reply.0 (judge host fixture reply) h

  -- A response whose status is not 200, with the code "success" in its body.
  pub record IsMisnamed (base : String) (fixture : Json) (status : ℕ) : Type 0 where
    pub sent : Option String
    pub before : W
    pub body : String
    pub value : Json
    pub error : Json
    pub not_200 : status ≢ 200
    pub reply_eq : (request host base "/v1/system-one" sent before).0 ≡ ok (status, body)
    pub value_eq : loads body ≡ ok value
    pub error_eq : get "error" value ≡ ok error
    pub code_eq : get "code" error ≡ ok (text "success")

  judge-200 :
      (fixture : Json) (body : String)
      → judge host fixture (200, body) ≡ ok (text "success")
      → (actual : Json) × (expected : Json) × (loads body ≡ ok actual)
        × (get "response" fixture ≡ ok expected)
        × (check_answer unit actual expected ≡ ok tt)
  unfolding judge laya_rs.Base.ℕ_discrete
  judge-200 fixture body h =
      let (actual, ha, h1) = >>=-eq-ok (loads body) _ h in
      let (expected, he, h2) = >>=-eq-ok (get "response" fixture) _ h1 in
      let (u, hc, h3) =
        >>=-eq-ok (check_answer unit actual expected) (λ _. ok (text "success")) h2 in
      (actual, expected, ha, he, hc)

  judge-other :
      (fixture : Json) (status : ℕ) (body : String)
      → ◌≡◌ {A = Bool} (status == 200) false
      → judge host fixture (status, body) ≡ ok (text "success")
      → (value : Json) × (error : Json) × (loads body ≡ ok value)
        × (get "error" value ≡ ok error)
        × (get "code" error ≡ ok (text "success"))
  unfolding judge
  judge-other fixture status body differ h =
      let (value, hv, h1) = >>=-eq-ok (loads body) _ h in
      let h2 =
        subst
          (λ b.
            (if b
              then (Raises.◌>>=◌ (get "response" fixture)
                  λ official. Raises.◌>>◌ (check_answer unit value official) (ok (text "success")))
              else (Raises.◌>>=◌ (get "error" value) λ error. get "code" error))
            ≡ ok (text "success"))
          differ h1 in
      let (error, he, h3) = >>=-eq-ok (get "error" value) (λ error. get "code" error) h2 in
      (value, error, hv, he, h3)

  attempt-success :
      (base : String) (fixture : Json) (w : W) (found : ℕ × Json)
      → (attempt host base fixture w).0 ≡ ok found
      → found.1 ≡ text "success"
      → ((found.0 ≡ 200) × IsAnswered host base fixture) ⊎ IsMisnamed base fixture found.0
  unfolding attempt
  attempt-success base fixture w found h is =
      let ((status, body), asked, same, judged) =
        outcome_of-reply fixture (ask host base fixture w).0 h is in
      let (sent, hs, hr) =
        >>=-value (reading (λ w. sent_for fixture))
          (λ sent. request host base "/v1/system-one" sent) w (status, body) asked in
      elim (Bool-cases (status == 200)) [
        | inl equal ↦
            let is_200 : status ≡ 200 = ground arith in
            let (actual, expected, ha, he, hc) =
              judge-200 fixture body
                (subst (λ n. judge host fixture (n, body) ≡ ok (text "success")) is_200 judged) in
            inl (
              sym same ∙ is_200,
              record {
                sent = sent;
                before = w;
                body = body;
                actual = actual;
                expected = expected;
                sent_eq = hs;
                reply_eq = hr ∙ ap (λ n. ok (n, body)) is_200;
                actual_eq = ha;
                expected_eq = he;
                accepted = hc;
              },
            )
        | inr differ ↦
            let (value, error, hv, he, hc) = judge-other fixture status body differ judged in
            let not_200 : status ≢ 200 = ground arith in
            inr (record {
              sent = sent;
              before = w;
              body = body;
              value = value;
              error = error;
              not_200 = subst (λ n. n ≢ 200) same not_200;
              reply_eq = hr ∙ ap (λ n. ok (n, body)) same;
              value_eq = hv;
              error_eq = he;
              code_eq = hc;
            })
      ]

  -- When `invoke` returns a row with the outcome "success": the service answered the fixture's request
  -- with the status 200, which is the row's, and a value that `check_answer` accepts; or it answered
  -- with another status and a body whose error code is "success".
  pub invoke-success :
      (base : String) (fixture : Json) (epoch : ℕ) (w : W) (r : Row)
      → (invoke host base fixture epoch w).0 ≡ ok r
      → r.outcome ≡ text "success"
      → ((r.status ≡ 200) × IsAnswered host base fixture) ⊎ IsMisnamed base fixture r.status
  unfolding invoke row_of attempt
  invoke-success base fixture epoch w r h is =
      let rest = λ (start : ℕ) (found : ℕ × Json).
        now host >>= λ end. pure (row_of host epoch start found end) in
      let (start, _, h1) =
        >>=-value (now host) (λ start. attempt host base fixture >>= rest start) w r h in
      let (found, tried, h2) = >>=-value (attempt host base fixture) (rest start) _ r h1 in
      let (end, _, h3) =
        >>=-value (now host) (λ end. pure (row_of host epoch start found end)) _ r h2 in
      let same : row_of host epoch start found end ≡ r = cc in
      let outcome_eq : found.1 ≡ text "success" = ap (λ (x : Row). x.outcome) same ∙ is in
      subst (λ n. ((n ≡ 200) × IsAnswered host base fixture) ⊎ IsMisnamed base fixture n)
        (ap (λ (x : Row). x.status) same) (attempt-success base fixture _ found tried outcome_eq)

  raised_before :
      (epoch start : ℕ) (p : Raises (ℕ × Json) × W) {e : Exception}
      → (elim p.0 as (λ x. Raises Row × W) [
        | ok found ↦ (now host >>= λ end. pure (row_of host epoch start found end)) p.1
        | raise e ↦ (raise e, p.1)
      ]).0
        ≡ raise e
      → p.0 ≡ raise e
  raised_before epoch start (ok found, w) h = cc
  raised_before epoch start (raise e1, w) h = let same : e1 ≡ _ = cc in ap raise same

  -- What `invoke` raises is an IndexError, a RuntimeError, an AttributeError, a StopIteration, a
  -- CalledProcessError or of a class that the `except` clauses do not name.
  pub invoke-IsUncaught :
      (base : String) (fixture : Json) (epoch : ℕ) (w : W) (e : Exception)
      → (invoke host base fixture epoch w).0 ≡ raise e
      → IsUncaught e
  unfolding invoke attempt
  invoke-IsUncaught base fixture epoch w e h =
      outcome_of-IsUncaught fixture (ask host base fixture (host.clock w).1).0
        (raised_before epoch (host.clock w).0 (attempt host base fixture (host.clock w).1) h)
