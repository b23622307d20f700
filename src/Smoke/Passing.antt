-- ===== src/Smoke/Passing.antt =====
-- What it means that `fixtures` raises nothing.
use laya_rs.Base.{
  ℕ, suc, ◌+◌, ◌≡◌, sym, ap, ◌∙◌, true, false, Bool-cases, inl, inr, Option, none, String, subst,
  arith, ◌==◌, nat_eq,
}
use laya_rs.Base.Raises.{ok, require, is_required, >>=-eq-ok, require-eq-ok}
use laya_rs.Base.Action.{Action, pure, reading, ◌>>=◌, >>=-ok}
use laya_rs.Base.Json.{Json, Items, nil, item, get}
use laya_rs.Smoke.{Host}
use laya_rs.Smoke.Answer.{check_answer}
use laya_rs.Smoke.Service.{request}
use laya_rs.Smoke.Acceptance.{
  sent_for, check_reply, entry_fixture, visit, manifest_files, check_count, check_fixture,
  is_official, metric_lines, check_files, check_metrics, fixtures,
}

module _ {W : Type 0} (host : Host W) where
  open host use {loads, unit}

  -- The service at `base` was sent the fixture's request, and its answer had the status 200 and passed
  -- `check_answer`.
  pub record IsAnswered (base : String) (fixture : Json) : Type 0 where
    pub sent : Option String
    pub before : W
    pub body : String
    pub actual : Json
    pub expected : Json
    pub sent_eq : sent_for fixture ≡ ok sent
    pub reply_eq : (request host base "/v1/system-one" sent before).0 ≡ ok (200, body)
    pub actual_eq : loads body ≡ ok actual
    pub expected_eq : get "response" fixture ≡ ok expected
    pub accepted : check_answer unit actual expected ≡ ok tt

  -- Every official fixture among the entries was answered; `n` of them are official.
  pub data Passed (base : String) : Items → ℕ → Type 0 where
    finished : Passed base nil 0
    skipped :
        {entry fixture kind : Json} {entries : Items} {n : ℕ}
        → entry_fixture host entry ≡ ok (fixture, kind)
        → is_official host kind ≡ false
        → Passed base entries n
        → Passed base (item entry entries) n
    passed :
        {entry fixture kind : Json} {entries : Items} {n : ℕ}
        → entry_fixture host entry ≡ ok (fixture, kind)
        → is_official host kind ≡ true
        → IsAnswered base fixture
        → Passed base entries n
        → Passed base (item entry entries) (suc n)

  answered :
      (base : String) (fixture : Json) (w : W)
      → (check_fixture host base fixture w).0 ≡ ok tt
      → IsAnswered base fixture
  unfolding check_fixture check_reply
  answered base fixture w h =
      let ask = λ (sent : Option String). request host base "/v1/system-one" sent in
      let judge : ℕ × String → Action W (Unit {0}) =
        λ reply. reading (λ w. check_reply host fixture reply) in
      let (sent, hs, q) =
        >>=-ok (reading (λ w. sent_for fixture)) (λ sent. ask sent >>= judge) w tt h in
      let ((status, body), hr, q') = >>=-ok (ask sent) judge w tt (ap (λ p. p.0) q ∙ h) in
      let fine : check_reply host fixture (status, body) ≡ ok tt =
        ap (λ p. p.0) q' ∙ ap (λ p. p.0) q ∙ h in
      let (is_200, h1) = require-eq-ok (status == 200) _ fine in
      let (actual, ha, h2) = >>=-eq-ok (loads body) _ h1 in
      let (expected, he, h3) = >>=-eq-ok (get "response" fixture) _ h2 in
      let is : status ≡ 200 = ground arith in
      record {
        sent = sent;
        before = w;
        body = body;
        actual = actual;
        expected = expected;
        sent_eq = hs;
        reply_eq = hr ∙ ap (λ s. ok (s, body)) is;
        actual_eq = ha;
        expected_eq = he;
        accepted = h3;
      }

  visit-other :
      (base : String) (next : ℕ → Action W ℕ) (count : ℕ) (fixture kind : Json) (w : W)
      → is_official host kind ≡ false
      → visit host base next count (fixture, kind) w ≡ next count w
  unfolding visit
  visit-other base next count fixture kind w h = rw (h, visit)

  visit-official :
      (base : String) (next : ℕ → Action W ℕ) (count : ℕ) (fixture kind : Json) (w : W)
      → is_official host kind ≡ true
      → visit host base next count (fixture, kind) w
        ≡ (check_fixture host base fixture >>= λ _. next (count + 1)) w
  unfolding visit
  visit-official base next count fixture kind w h = rw (h, visit)

  check_files-Passed :
      (base : String) (entries : Items) (count : ℕ) (w : W) (total : ℕ)
      → (check_files host base entries count w).0 ≡ ok total
      → (n : ℕ) × (total ≡ count + n) × Passed base entries n
  unfolding check_files
  check_files-Passed base nil count w total h =
      let e : count ≡ total = cc in (0, omega (arith, e), finished)
  check_files-Passed base (item entry entries) count w total h =
      let next = check_files host base entries in
      let ((fixture, kind), found, q) =
        >>=-ok (reading (λ w. entry_fixture host entry)) (visit host base next count) w total h in
      let h1 : (visit host base next count (fixture, kind) w).0 ≡ ok total = ap (λ p. p.0) q ∙ h in
      elim (Bool-cases (is_official host kind)) [
        | inr other ↦
            let h2 = sym (ap (λ p. p.0) (visit-other base next count fixture kind w other)) ∙ h1 in
            let (n, e, rest) = check_files-Passed base entries count w total h2 in
            (n, e, skipped found other rest)
        | inl official ↦
            let h2 =
              sym (ap (λ p. p.0) (visit-official base next count fixture kind w official)) ∙ h1 in
            let (u, checked, q') =
              >>=-ok (check_fixture host base fixture) (λ _. next (count + 1)) w total h2 in
            let (n, e, rest) =
              check_files-Passed base entries (count + 1) _ total (ap (λ p. p.0) q' ∙ h2) in
            (suc n, omega (arith, e), passed found official (answered base fixture w checked) rest)
      ]

  check_count-total :
      (base : String) (total : ℕ) (w : W) → (check_count host base total w).0 ≡ ok tt → total ≡ 21
  unfolding check_count
  check_count-total base total w h =
      let rest : Unit {0} → Action W (Unit {0}) = λ _. check_metrics host base metric_lines >>= λ _.
      request host base "/metrics" none >>= λ reply. pure tt in
      let (u, tested, q) = >>=-ok (reading (λ w. require (total == 21))) rest w tt h in
      let same = is_required (total == 21) tested in ground arith

  -- When `fixtures` raises nothing: the manifest was read, and exactly 21 of the fixtures that it lists
  -- are official; each of them was sent to the service, which answered with the status 200 and a value
  -- that `check_answer` accepts.
  pub fixtures-Passed :
      (base : String) (w : W)
      → (fixtures host base w).0 ≡ ok tt
      → (entries : Items) × (manifest_files host ≡ ok entries) × Passed base entries 21
  unfolding fixtures
  fixtures-Passed base w h =
      let run = λ (entries : Items). check_files host base entries 0 in
      let (entries, listed, q) =
        >>=-ok (reading (λ w. manifest_files host))
          (λ entries. run entries >>= check_count host base) w tt h in
      let h1 = ap (λ p. p.0) q ∙ h in
      let (total, counted, q') = >>=-ok (run entries) (check_count host base) w tt h1 in
      let (n, e, all) = check_files-Passed base entries 0 w total counted in
      let is_21 =
        check_count-total base total (check_files host base entries 0 w).1
          (ap (λ p. p.0) q' ∙ h1) in
      let n_eq : n ≡ 21 = omega (arith, e, is_21) in
      (entries, listed, subst (Passed base entries) n_eq all)
