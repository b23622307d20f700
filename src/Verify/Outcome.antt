-- ===== src/Verify/Outcome.antt =====
-- The two ways in which `verify` ends, and what record.py makes of the first.
use laya_rs.Base.{
  ℕ, ◌≡◌, ◌≢◌, refl, sym, ap, ◌∙◌, subst, subst₂, Bool, true, false, ◌⊎◌, inl, inr, Bool-cases,
  Option, none, some, List, [], ◌∷◌, String, ◌<>◌, ◌==◌, ==_sound, string_eq, arith, All,
  if◌then◌else◌,
}
use laya_rs.Base.Dict.{Dict, insert, lookup, lookup-insert}
use laya_rs.Base.Json.{Json, Fields, end, field, object, text, get, json_eq}
use laya_rs.Base.Raises.{Raises, Exception, ok, raise, file_not_found, require, Raises-cases}
use laya_rs.Base.Raises as Calls
use laya_rs.Base.Checked.{>>=-returns}
use laya_rs.Prepare.{remove}
use laya_rs.Record.{bundle_root, digest_of, load_json, check_digests, accept, fields_of}
use laya_rs.Release.{read}
use laya_rs.Verify.{Tools}
use laya_rs.Verify.Bundle.{required_files}
use laya_rs.Verify.Main.{validation_path, digests_of, examine, write_report, verify}
use laya_rs.Verify.Passed.{IsVerified, examine-IsVerified}

module _ {B M T Q : Type 0} (tools : Tools B M T Q) where
  open tools use {record_host}

  removed-lookup : (k : String) (files : Dict String B) → lookup k (remove k files) ≡ none
  unfolding remove lookup
  removed-lookup k [] = refl
  removed-lookup k ((j, b) ∷ files) = elim (Bool-cases (k == j)) [
    | inl same ↦ rw same (removed-lookup k files)
    | inr other ↦ rw (other, lookup) (rw other (removed-lookup k files))
  ]

  abbrev pub cleared : Dict String B → Dict String B
  cleared files = remove validation_path files

  -- Either everything was verified on the files without the old validation, and the only change beside
  -- its removal is the new report; or an exception was raised, and there is no validation.
  pub data IsOutcome (files : Dict String B) : Type 0 where
    passed :
        {report : Json}
        → IsVerified tools (cleared files) report
        → verify tools files
          ≡ (ok tt, insert validation_path (record_host.dumps report) (cleared files))
        → IsOutcome files
    failed :
        {e : Exception}
        → verify tools files ≡ (raise e, cleared files)
        → lookup validation_path (cleared files) ≡ none
        → IsOutcome files

  -- On any files, `verify` ends in one of the two ways.
  pub verify-IsOutcome : (files : Dict String B) → IsOutcome files
  unfolding verify write_report
  verify-IsOutcome files = elim (Raises-cases (examine tools (cleared files))) [
    | inl (report, e) ↦
        passed (examine-IsVerified tools (cleared files) report e) (rw (e, write_report) refl)
    | inr (x, e) ↦ failed {e = x} (rw (e, write_report) refl) (removed-lookup validation_path files)
  ]

  -- What `record_bundle` of record.py reads of a report that was printed.
  abbrev pub is_elsewhere : String → Bool
  is_elsewhere name = bundle_root <> name == validation_path

  digest-insert :
      (path : String) (content : B) (files : Dict String B)
      → (path == validation_path) ≡ false
      → digest_of record_host path (insert validation_path content files)
        ≡ digest_of record_host path files
  unfolding digest_of read
  digest-insert path content files h =
      ap
        (λ (found : Option B).
          Calls.◌>>=◌
            (elim found as (λ x. Raises B) [ none ↦ raise file_not_found | some b ↦ ok b ])
            (λ b. ok (record_host.release.sha256 b)))
        (lookup-insert path validation_path content files ∙ rw h refl)

  text_same : (s : String) → json_eq record_host.unit (text s) (text s) ≡ true
  unfolding json_eq
  text_same s = ground arith

  none-accepted : (files : Dict String B) → check_digests record_host end files ≡ ok tt
  unfolding check_digests
  none-accepted files = refl

  one-accepted :
      (name found : String) (rest : Fields) (files : Dict String B)
      → digest_of record_host (bundle_root <> name) files ≡ ok found
      → check_digests record_host rest files ≡ ok tt
      → check_digests record_host (field name (text found) rest) files ≡ ok tt
  unfolding check_digests
  one-accepted name found rest files read others = rw (read, text_same found) others

  digests-accepted :
      (names : List String) (digests : Fields) (content : B) (files : Dict String B)
      → All (λ name. is_elsewhere name ≡ false) names
      → digests_of tools names files ≡ ok digests
      → check_digests record_host digests (insert validation_path content files) ≡ ok tt
  unfolding digests_of
  digests-accepted [] digests content files h e =
      let same : end ≡ digests = cc in
      subst (λ d. check_digests record_host d (insert validation_path content files) ≡ ok tt) same
        (none-accepted (insert validation_path content files))
  digests-accepted (name ∷ names) digests content files (h, hs) e =
      >>=-returns _ _ e (λ found read h1. >>=-returns _ _ h1 (λ others rest last.
        let same : field name (text found) others ≡ digests = cc in
        subst (λ d. check_digests record_host d (insert validation_path content files) ≡ ok tt) same
          (one-accepted name found others (insert validation_path content files)
            (digest-insert (bundle_root <> name) content files h ∙ read)
            (digests-accepted names others content files hs rest))))

  elsewhere : All (λ name. is_elsewhere name ≡ false) required_files
  unfolding string_eq laya_rs.Base.ℕ_discrete
  elsewhere = (refl, (refl, (refl, (refl, (refl, tt)))))

  accepted :
      (report : Json) (digests : Fields) (files : Dict String B)
      → load_json record_host validation_path files ≡ ok report
      → get "status" report ≡ ok (text "passed")
      → get "files" report ≡ ok (object digests)
      → check_digests record_host digests files ≡ ok tt
      → accept record_host files ≡ ok (report, digests)
  unfolding accept fields_of
  accepted report digests files loaded status listed checked =
      rw (loaded, status, text_same "passed", listed, checked) refl

  load-insert :
      (report : Json) (files : Dict String B)
      → record_host.loads (record_host.dumps report) ≡ ok report
      → load_json record_host validation_path
          (insert validation_path (record_host.dumps report) files)
        ≡ ok report
  unfolding load_json read string_eq laya_rs.Base.ℕ_discrete
  load-insert report files again =
      ap
        (λ (found : Option B).
          Calls.◌>>=◌
            (elim found as (λ x. Raises B) [ none ↦ raise file_not_found | some b ↦ ok b ])
            record_host.loads)
        (lookup-insert validation_path validation_path (record_host.dumps report) files)
      ∙ again

  -- If what is printed is parsed as it was: when `verify` returns, `record` accepts the files that it
  -- left, with the report and the digests that `verify` wrote.
  pub verify-accept :
      ((j : Json) → record_host.loads (record_host.dumps j) ≡ ok j)
      → (files left : Dict String B) → verify tools files ≡ (ok tt, left)
      → (report : Json) × (digests : Fields) × IsVerified tools (cleared files) report
        × (accept record_host left ≡ ok (report, digests))
  verify-accept again files left h = elim (verify-IsOutcome files) [
    | passed {report = report} verified e ↦
        let r = verified.reported in
        let written = insert validation_path (record_host.dumps report) (cleared files) in
        let same : written ≡ left = ap (λ p. p.1) (sym e ∙ h) in
        (
          report,
          r.digests,
          verified,
          subst (λ f. accept record_host f ≡ ok (report, r.digests)) same
              (accepted report r.digests written (load-insert report (cleared files) (again report))
                r.status_eq r.files_eq
                (digests-accepted required_files r.digests _ (cleared files) elsewhere
                  r.digests_eq)),
        )
    | failed e absent ↦ absurd (never _ (ap (λ p. p.0) (sym e ∙ h)))
  ]
    where
      never : (x : Exception) → ◌≢◌ {A = Raises (Unit {0})} (raise x) (ok tt)
      never x p = cc
