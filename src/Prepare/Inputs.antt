-- ===== src/Prepare/Inputs.antt =====
-- The script's end in tools/model-prep/prepare.py: all inputs, the licenses, and the records of what was
-- downloaded.
use laya_rs.Base.{
  ◌≡◌, refl, sym, ap, ◌∙◌, subst, Bool, false, some, List, [], ◌∷◌, String, ◌<>◌, ◌==◌, string_eq,
  arith,
}
use laya_rs.Base.Dict
use laya_rs.Base.Dict.{Dict}
use laya_rs.Base.Raises
use laya_rs.Base.Raises.{Raises, ok, raise, require, is_required, >>=-eq-ok}
use laya_rs.Base.Action.{Action, pure, reading, ◌>>=◌, >>=-ok}
use laya_rs.Prepare.{Host, Record, prep, download, open_file}
use laya_rs.Prepare.Checkpoint.{checkpoint_files}
use laya_rs.Prepare.Sources.{SourceRecord, source_files}

abbrev pub license_url : String
license_url = "https://www.apache.org/licenses/LICENSE-2.0.txt"

abbrev pub license_file : String
license_file = prep <> "source/Apache-2.0.txt"

abbrev pub license_hash : String
license_hash = "cfc7749b96f63bd31c3c42b5c471bf756814053e847c10f3eb003417bc523d30"

abbrev pub licenses : String
licenses = "models/multilingual/licenses/"

-- What is copied, and the names of the copies.
abbrev pub other_copies : List (String × String)
other_copies =
    (prep <> "source/official-README.md", "official-README.md")
    ∷ (prep <> "checkpoint/README.md", "model-README.md")
    ∷ (prep <> "source/receptron-LICENSE", "receptron-LICENSE")
    ∷ ("tools/model-prep/NOTICE.md", "NOTICE.md")
    ∷ []

abbrev pub copies : List (String × String)
copies = (license_file, "Apache-2.0.txt") ∷ other_copies

open_file-lookup :
    {B : Type 0} (path : String) (files : Dict String B) (b : B)
    → open_file path files ≡ ok b
    → Dict.lookup path files ≡ some b
unfolding open_file
open_file-lookup path files b h = ground arith

some_inj : {B : Type 0} {b c : B} → some b ≡ some c → b ≡ c
some_inj h = cc

-- The copies leave a file alone that has another name than any of them.
abbrev Apart : String → List (String × String) → Type 0
Apart path [] = Unit
Apart path ((source, name) ∷ rest) =
    (◌≡◌ {A = Bool} (path == licenses <> name) false) × Apart path rest

module _ {B : Type 0} where
  unfoldable pub put_file : String → B → Action (Dict String B) (Unit {0})
  unfolding Dict.insert
  put_file path content files = (ok tt, Dict.insert path content files)

  unfoldable pub copy_licenses : List (String × String) → Action (Dict String B) (Unit {0})
  unfolding open_file put_file
  copy_licenses [] = pure tt
  copy_licenses ((source, name) ∷ rest) = reading (open_file source) >>= λ content.
      put_file (licenses <> name) content >>= λ _. copy_licenses rest

module _ {B : Type 0} (host : Host B) where
  open host use {sha256}

  unfoldable pub check_license : Dict String B → Raises (Unit {0})
  unfolding open_file
  check_license files =
      Raises.◌>>=◌ (open_file license_file files)
        λ content. require (sha256 content == license_hash)

  -- A file holds the license.
  pub IsLicense : Dict String B → String → Type 0
  IsLicense files path =
      (content : B) × (Dict.lookup path files ≡ some content) × (sha256 content ≡ license_hash)

  put_file-other :
      (path other : String) (content : B) (files : Dict String B)
      → ◌≡◌ {A = Bool} (path == other) false
      → IsLicense files path
      → IsLicense (put_file other content files).1 path
  unfolding put_file IsLicense
  put_file-other path other content files differ (b, there, is) =
      (b, Dict.lookup-insert path other content files ∙ rw differ there, is)

  check_license-IsLicense :
      (files : Dict String B) → check_license files ≡ ok tt → IsLicense files license_file
  unfolding check_license IsLicense
  check_license-IsLicense files h =
      let (content, found, h1) =
        >>=-eq-ok (open_file license_file files)
          (λ content. require (sha256 content == license_hash)) h in
      let tested = is_required (sha256 content == license_hash) h1 in
      let same : sha256 content ≡ license_hash = ground arith in
      (content, open_file-lookup license_file files content found, same)

  copy_licenses-other :
      (path : String) (list : List (String × String)) (files : Dict String B)
      → Apart path list
      → (copy_licenses list files).0 ≡ ok tt
      → IsLicense files path
      → IsLicense (copy_licenses list files).1 path
  unfolding copy_licenses
  copy_licenses-other path [] files apart h is = is
  copy_licenses-other path ((source, name) ∷ rest) files (differ, apart) h is =
      let write = λ (content : B). put_file (licenses <> name) content in
      let (content, _, q1) =
        >>=-ok (reading (open_file source)) (λ content. write content >>= λ _. copy_licenses rest)
          files tt h in
      let h1 = ap (λ p. p.0) q1 ∙ h in
      let (_, _, q2) = >>=-ok (write content) (λ _. copy_licenses rest) files tt h1 in
      subst (λ fs. IsLicense fs path) (ap (λ p. p.1) (q2 ∙ q1))
        (copy_licenses-other path rest (write content files).1 apart (ap (λ p. p.0) q2 ∙ h1)
          (put_file-other path (licenses <> name) content files differ is))

  put_file-same :
      (path : String) (content : B) (files : Dict String B)
      → sha256 content ≡ license_hash
      → IsLicense (put_file path content files).1 path
  unfolding put_file IsLicense
  put_file-same path content files is = (content, put_there path content files, is)
    where
      put_there :
          (path : String) (content : B) (files : Dict String B)
          → Dict.lookup path (Dict.insert path content files) ≡ some content
      put_there path content files = ground (arith, Dict.lookup-insert path path content files)

  -- The first copy, when its source holds the license.
  copy_licenses-first :
      (source name : String) (rest : List (String × String)) (files : Dict String B)
      → Apart (licenses <> name) rest
      → (copy_licenses ((source, name) ∷ rest) files).0 ≡ ok tt
      → IsLicense files source
      → IsLicense (copy_licenses ((source, name) ∷ rest) files).1 (licenses <> name)
  unfolding copy_licenses IsLicense
  copy_licenses-first source name rest files apart h (b, there, is) =
      let write = λ (content : B). put_file (licenses <> name) content in
      let (content, found, q1) =
        >>=-ok (reading (open_file source)) (λ content. write content >>= λ _. copy_licenses rest)
          files tt h in
      let h1 = ap (λ p. p.0) q1 ∙ h in
      let (_, _, q2) = >>=-ok (write content) (λ _. copy_licenses rest) files tt h1 in
      let same : b ≡ content = some_inj (sym there ∙ open_file-lookup source files content found) in
      subst (λ fs. IsLicense fs (licenses <> name)) (ap (λ p. p.1) (q2 ∙ q1))
        (copy_licenses-other (licenses <> name) rest (write content files).1 apart
          (ap (λ p. p.0) q2 ∙ h1)
          (put_file-same (licenses <> name) content files
            (subst (λ c. sha256 c ≡ license_hash) same is)))

-- `dumps` gives the content of inputs.json.
module _ {B : Type 0} (host : Host B) (dumps : List Record → List SourceRecord → B) where
  unfoldable pub prepare_inputs : Action (Dict String B) (Unit {0})
  unfolding checkpoint_files source_files download check_license copy_licenses put_file
  prepare_inputs = checkpoint_files host >>= λ records. source_files host >>= λ sources.
      download host license_url license_file >>= λ _. reading (check_license host) >>= λ _.
      copy_licenses copies >>= λ _. put_file (prep <> "inputs.json") (dumps records sources)

  -- When all inputs are prepared without an exception, the copy of the Apache license beside the model has
  -- the digest that the script pins, and so has its source.
  pub prepare_inputs-IsLicense :
      (files : Dict String B)
      → (prepare_inputs files).0 ≡ ok tt
      → IsLicense host (prepare_inputs files).1 license_file
        × IsLicense host (prepare_inputs files).1 (licenses <> "Apache-2.0.txt")
  unfolding prepare_inputs string_eq
  prepare_inputs-IsLicense files h =
      let write = λ (records : List Record) (sources : List SourceRecord).
        put_file (prep <> "inputs.json") (dumps records sources) in
      let copy = copy_licenses copies in
      let last = λ (records : List Record) (sources : List SourceRecord).
        reading (check_license host) >>= λ _. copy >>= λ _. write records sources in
      let get_license = download host license_url license_file in
      let s1 = (checkpoint_files host files).1 in
      let s2 = (source_files host s1).1 in
      let (records, _, q1) =
        >>=-ok (checkpoint_files host)
          (λ records. source_files host >>= λ sources. get_license >>= λ _. last records sources)
          files tt h in
      let h1 = ap (λ p. p.0) q1 ∙ h in
      let (sources, _, q2) =
        >>=-ok (source_files host) (λ sources. get_license >>= λ _. last records sources) s1 tt
          h1 in
      let h2 = ap (λ p. p.0) q2 ∙ h1 in
      let (_, _, q3) = >>=-ok get_license (λ _. last records sources) s2 tt h2 in
      let h3 = ap (λ p. p.0) q3 ∙ h2 in
      let s3 = (get_license s2).1 in
      let (_, checked, q4) =
        >>=-ok (reading (check_license host)) (λ _. copy >>= λ _. write records sources) s3 tt h3 in
      let h4 = ap (λ p. p.0) q4 ∙ h3 in
      let (_, copied, q5) = >>=-ok copy (λ _. write records sources) s3 tt h4 in
      let whole : (write records sources (copy s3).1).1 ≡ (prepare_inputs files).1 =
        ap (λ p. p.1) (q5 ∙ q4 ∙ q3 ∙ q2 ∙ q1) in
      let source = check_license-IsLicense host s3 checked in
      let kept =
        copy_licenses-other host license_file copies s3 (refl, (refl, (refl, (refl, (refl, tt)))))
          copied source in
      let made =
        copy_licenses-first host license_file "Apache-2.0.txt" other_copies s3
          (refl, (refl, (refl, (refl, tt)))) copied source in
      (
        subst (λ fs. IsLicense host fs license_file) whole
            (put_file-other host license_file (prep <> "inputs.json") (dumps records sources)
              (copy s3).1 refl kept),
        subst (λ fs. IsLicense host fs (licenses <> "Apache-2.0.txt")) whole
            (put_file-other host (licenses <> "Apache-2.0.txt") (prep <> "inputs.json")
              (dumps records sources) (copy s3).1 refl made),
      )
