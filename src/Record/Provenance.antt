-- ===== src/Record/Provenance.antt =====
-- What the manifest says of the bundle's files, and that `pack_model` accepts them by it.
use laya_rs.Base.{
  ℕ, ◌≡◌, ◌≢◌, refl, sym, ap, ◌∙◌, subst, Bool, true, false, ◌&&◌, Option, none, some, List, [],
  ◌∷◌, String, ◌<>◌, ◌==◌, nat_eq, string_eq, arith, All,
}
use laya_rs.Base.Dict
use laya_rs.Base.Dict.{Dict}
use laya_rs.Base.Raises.{Raises, ok, >>=-eq-ok, require-eq-ok}
use laya_rs.Base.Action.{reading, ◌>>=◌, >>=-ok}
use package.text.Mathlib.Text.{starts_with}
use package.text.Mathlib.TextPositions.{starts_with-append}
use laya_rs.Base.Json.{Json, Fields, end, field, text, get, json_eq, iterate}
use laya_rs.Release.{read}
use laya_rs.Release.Metadata.{demand}
use laya_rs.Prepare.{prep}
use laya_rs.Release.Model.{ManifestEntry, verify_file, verify_files}
use laya_rs.Record.{
  Host, bundle_root, evidence, parts_of, manifest_path, log_names, load_json, digest_of,
  check_digests, copy_logs, entry_of, entries_of, entries_json, manifest, bundle_files, assemble,
  write_manifest, accept, record_bundle, fields_of,
}

demand_same : (n : ℕ) (s message : String) → demand (n == n && s == s) message ≡ ok tt
demand_same n s message = ground arith

-- The manifest is no file of the bundle.
elsewhere : (p : String) → (bundle_root <> p) ≢ manifest_path
elsewhere p h =
    let e : false ≡ true =
      subst (λ s. starts_with s bundle_root ≡ true) h (starts_with-append bundle_root p) in
    cc

accepted_fields : {a b : Json × Fields} → ◌≡◌ {A = Raises (Json × Fields)} (ok a) (ok b) → a.1 ≡ b.1
accepted_fields {a} {b} h = let e : a ≡ b = cc in ap (λ x. x.1) e

module _ {B : Type 0} where
  -- A path of the bundle names no link in the directory that is packed, and the same file.
  unfoldable pub IsShipped : Dict String B → (String → Bool) → Dict String B → String → Type 0
  IsShipped files is_symlink view p =
      (is_symlink p ≡ false) × (Dict.lookup p view ≡ Dict.lookup (bundle_root <> p) files)

module _ {B : Type 0} (host : Host B) where
  open host use {release, dumps, unit}

  -- Every file that the validation names is there, with the digest that the validation gives.
  pub Validated : Fields → Dict String B → Type 0
  Validated end files = Unit
  Validated (field name expected rest) files =
      ((content : B) × (Dict.lookup (bundle_root <> name) files ≡ some content)
        × (json_eq unit (text (release.sha256 content)) expected ≡ true))
      × Validated rest files

  read-lookup :
      (path : String) (files : Dict String B) {content : B}
      → read path files ≡ ok content
      → Dict.lookup path files ≡ some content
  unfolding read
  read-lookup path files h = ground arith

  check_digests-Validated :
      (fields : Fields) (files : Dict String B)
      → check_digests host fields files ≡ ok tt
      → Validated fields files
  unfolding check_digests digest_of Validated
  check_digests-Validated end files h = tt
  check_digests-Validated (field name expected rest) files h =
      let (found, hf, h1) = >>=-eq-ok (digest_of host (bundle_root <> name) files) _ h in
      let (content, hc, h2) = >>=-eq-ok (read (bundle_root <> name) files) _ hf in
      let (same, h3) = require-eq-ok (json_eq unit (text found) expected) _ h1 in
      let is : release.sha256 content ≡ found = cc in
      (
        (
          content,
          read-lookup (bundle_root <> name) files hc,
          subst (λ d. json_eq unit (text d) expected ≡ true) (sym is) same,
        ),
        check_digests-Validated rest files h3,
      )

  lookup-read :
      (path : String) (files : Dict String B) {content : B}
      → Dict.lookup path files ≡ some content
      → read path files ≡ ok content
  unfolding read
  lookup-read path files h = rw (h, read) refl

  -- An entry's size and digest are those of its file.
  entry_of-verified :
      (path : String) (files view : Dict String B) (is_symlink : String → Bool) (e : ManifestEntry)
      → is_symlink path ≡ false
      → Dict.lookup path view ≡ Dict.lookup (bundle_root <> path) files
      → entry_of host bundle_root path files ≡ ok e
      → verify_file release is_symlink e view ≡ ok tt
  unfolding entry_of verify_file
  entry_of-verified path files view is_symlink e plain same h =
      let (content, found, h1) = >>=-eq-ok (read (bundle_root <> path) files) _ h in
      let e_eq : ◌≡◌ {A = ManifestEntry}
          (record { path = path; bytes = release.size content; sha256 = release.sha256 content })
          e =
        cc in
      let there : read path view ≡ ok content =
        lookup-read path view (same ∙ read-lookup (bundle_root <> path) files found) in
      subst (λ x. verify_file release is_symlink x view ≡ ok tt) e_eq
        (rw (plain, verify_file, there)
          (demand_same (release.size content) (release.sha256 content) _))

  entries_of-verified :
      (paths : List String) (files view : Dict String B) (is_symlink : String → Bool)
      (es : List ManifestEntry)
      → All (IsShipped files is_symlink view) paths
      → entries_of host bundle_root paths files ≡ ok es
      → verify_files release is_symlink es view ≡ ok tt
  unfolding entries_of verify_files IsShipped
  entries_of-verified [] files view is_symlink es shipped h = let e : es ≡ [] = cc in rw e refl
  entries_of-verified (path ∷ paths) files view is_symlink es ((plain, same), others) h =
      let (e, he, h1) = >>=-eq-ok (entry_of host bundle_root path files) _ h in
      let (rest, hr, h2) =
        >>=-eq-ok (entries_of host bundle_root paths files) (λ entries. ok (e ∷ entries)) h1 in
      let es_eq : es ≡ e ∷ rest = cc in
      let one = entry_of-verified path files view is_symlink e plain same he in
      rw (es_eq, one) (entries_of-verified paths files view is_symlink rest others hr)

  -- An accepted validation has passed, and the files that it names have its digests.
  accept-Validated :
      (files : Dict String B) (validation : Json) (validated : Fields)
      → accept host files ≡ ok (validation, validated)
      → Validated validated files
  unfolding accept
  accept-Validated files validation validated h =
      let (v, _, h1) = >>=-eq-ok (load_json host (prep <> "validation.json") files) _ h in
      let (status, _, h2) = >>=-eq-ok (get "status" v) _ h1 in
      let (_, h3) = require-eq-ok (json_eq unit status (text "passed")) _ h2 in
      let (listed, _, h4) = >>=-eq-ok (get "files" v) _ h3 in
      let (fields, _, h5) = >>=-eq-ok (fields_of listed) _ h4 in
      let (_, checked, h6) = >>=-eq-ok (check_digests host fields files) (λ _. ok (v, fields)) h5 in
      let same : fields ≡ validated = cc in
      subst (λ fs. Validated fs files) same (check_digests-Validated fields files checked)

  -- The entries stand in the dict that is written.
  assemble-files :
      (accepted : Json × Fields) (files : Dict String B) (found : Json × List ManifestEntry)
      → assemble host accepted files ≡ ok found
      → (entries_of host bundle_root (bundle_files host accepted.1 files) files ≡ ok found.1)
        × (get "files" found.0 ≡ ok (entries_json host found.1))
  unfolding assemble manifest get laya_rs.Base.Json.find string_eq
  assemble-files (validation, validated) files found h =
      let (config, _, h1) =
        >>=-eq-ok (load_json host (bundle_root <> "laya_config.json") files) _ h in
      let (entries, he, h2) =
        >>=-eq-ok (entries_of host bundle_root (bundle_files host validated files) files) _ h1 in
      let (inputs, _, h3) = >>=-eq-ok (load_json host (prep <> "inputs.json") files) _ h2 in
      let (tools, _, h4) = >>=-eq-ok (entries_of host "" (host.scripts files) files) _ h3 in
      let (kept, _, h5) = >>=-eq-ok (entries_of host "" (host.iterdir evidence files) files) _ h4 in
      let (parts, _, h6) =
        >>=-eq-ok (parts_of host validation)
          (λ parts. ok (manifest host config entries inputs tools kept parts, entries)) h5 in
      let same : ◌≡◌ {A = Json × List ManifestEntry}
          (manifest host config entries inputs tools kept parts, entries) found =
        cc in
      (
        he ∙ ap (λ (x : Json × List ManifestEntry). ok x.1) same,
        subst (λ (x : Json × List ManifestEntry). get "files" x.0 ≡ ok (entries_json host x.1)) same
            refl,
      )

  last_state :
      (p : String) (j : Json) (files : Dict String B)
      → Dict.lookup (bundle_root <> p) (write_manifest host j files).1
        ≡ Dict.lookup (bundle_root <> p) files
  unfolding write_manifest
  last_state p j files =
      let apart = elsewhere p in
      let different : ◌≡◌ {A = Bool} ((bundle_root <> p) == manifest_path) false = ground arith in
      Dict.lookup-insert (bundle_root <> p) manifest_path (dumps j) files ∙ rw different refl

  IsShipped-before :
      (paths : List String) (middle after : Dict String B) (is_symlink : String → Bool)
      (view : Dict String B)
      → ((p : String)
          → Dict.lookup (bundle_root <> p) after ≡ Dict.lookup (bundle_root <> p) middle)
      → All (IsShipped after is_symlink view) paths
      → All (IsShipped middle is_symlink view) paths
  unfolding IsShipped
  IsShipped-before [] middle after is_symlink view moved all = tt
  IsShipped-before (p ∷ paths) middle after is_symlink view moved ((plain, same), all) =
      ((plain, same ∙ moved p), IsShipped-before paths middle after is_symlink view moved all)

  written_manifest :
      (j : Json) (files : Dict String B)
      → Dict.lookup manifest_path (write_manifest host j files).1 ≡ some (dumps j)
  unfolding write_manifest string_eq
  written_manifest j files = Dict.lookup-insert manifest_path manifest_path (dumps j) files

  -- What a run that returns has written; `middle` are the files once the logs are copied.
  pub record IsRecorded (before middle after : Dict String B) (validated : Fields)
      (is_symlink : String → Bool) (view : Dict String B) : Type 0 where
    pub checked : Validated validated before
    pub manifest_json : Json
    pub entries : List ManifestEntry
    pub entries_eq :
        entries_of host bundle_root (bundle_files host validated middle) middle ≡ ok entries
    pub written : Dict.lookup manifest_path after ≡ some (dumps manifest_json)
    pub listed : get "files" manifest_json ≡ ok (entries_json host entries)
    pub verified : verify_files release is_symlink entries view ≡ ok tt

  -- When `record` raises nothing on an accepted validation: the files that the validation names have its
  -- digests, the manifest was written, and if the bundle's files in a directory are those of the run and
  -- no links, the verification of `pack_model` accepts the directory by the manifest's files.
  pub record_bundle-IsRecorded :
      (files : Dict String B) (validation : Json) (validated : Fields)
      → accept host files ≡ ok (validation, validated)
      → (record_bundle host files).0 ≡ ok tt
      → (is_symlink : String → Bool) (view : Dict String B)
      → All
          (IsShipped (record_bundle host files).1 is_symlink view)
          (bundle_files host validated (copy_logs host log_names files).1)
      → IsRecorded files
          (copy_logs host log_names files).1
          (record_bundle host files).1
          validated
          is_symlink
          view
  unfolding record_bundle
  record_bundle-IsRecorded files validation validated ok_eq h is_symlink view shipped =
      let write = λ (found : Json × List ManifestEntry). write_manifest host found.0 in
      let build = λ (accepted : Json × Fields). reading (assemble host accepted) >>= write in
      let copy = copy_logs host log_names in
      let (accepted, ha, q1) =
        >>=-ok (reading (accept host)) (λ accepted. copy >>= λ _. build accepted) files tt h in
      let h1 = ap (λ p. p.0) q1 ∙ h in
      let (_, _, q2) = >>=-ok copy (λ _. build accepted) files tt h1 in
      let h2 = ap (λ p. p.0) q2 ∙ h1 in
      let middle = (copy files).1 in
      let (found, hf, q3) = >>=-ok (reading (assemble host accepted)) write middle tt h2 in
      let last : (write_manifest host found.0 middle).1 ≡ (record_bundle host files).1 =
        ap (λ p. p.1) (q3 ∙ q2 ∙ q1) in
      let who : accepted.1 ≡ validated = accepted_fields (sym ha ∙ ok_eq) in
      let (made, listed) = assemble-files accepted middle found hf in
      let made' =
        ap (λ fs. entries_of host bundle_root (bundle_files host fs middle) middle) (sym who)
        ∙ made in
      let moved = λ (p : String).
        ap (λ fs. Dict.lookup (bundle_root <> p) fs) (sym last) ∙ last_state p found.0 middle in
      record {
        checked = accept-Validated files validation validated ok_eq;
        manifest_json = found.0;
        entries = found.1;
        entries_eq = made';
        written =
            ap (λ fs. Dict.lookup manifest_path fs) (sym last) ∙ written_manifest found.0 middle;
        listed = listed;
        verified =
            entries_of-verified (bundle_files host validated middle) middle view is_symlink found.1
              (IsShipped-before (bundle_files host validated middle) middle
                (record_bundle host files).1 is_symlink view moved shipped)
              made';
      }
