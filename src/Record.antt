-- ===== src/Record.antt =====
-- tools/model-prep/record.py: the manifest of a verified bundle. The state is the files by path; hashes,
-- the parser and the printer of JSON, and the listings of directories are the host's.
pub mod Provenance
mod Tests
use laya_rs.Base.{
  ℕ, ◌*◌, Bool, true, false, Option, none, some, List, [], ◌∷◌, ◌++◌, String, ◌<>◌, ◌==◌, string_eq,
  map, leb,
}
use laya_rs.Base.Int.{ℤ, pos, negsuc}
use laya_rs.Base.Dict
use laya_rs.Base.Dict.{Dict}
use laya_rs.Base.Raises
use laya_rs.Base.Raises.{
  Raises, ok, raise, require, attribute_error, type_error, value_error, file_not_found,
}
use laya_rs.Base.Action.{Action, pure, reading, ◌>>=◌, ◌>>◌}
use laya_rs.Base.Json.{
  Json, Number, finite, infinity, minus_infinity, nan, Items, Fields, null, boolean, number, text,
  array, object, nil, item, end, field, get, json_eq, iterate, as_number, names,
}
use laya_rs.Release
use laya_rs.Release.{read}
use laya_rs.Release.Model.{ManifestEntry}
use laya_rs.Prepare.{checkpoint, prep}
use laya_rs.Prepare.Sources.{official, exporter}

pub record Host (B : Type 0) : Type 0 where
  -- the digest and the size of a content
  pub release : Release.Host B
  -- `json.loads(path.read_text())` of a file's content
  pub loads : B → Raises Json
  -- the content that `write_text(json.dumps(...))` gives
  pub dumps : Json → B
  -- `len` of a list
  pub unit : ℕ
  -- the sorted listings of a directory and of the scripts
  pub iterdir : String → Dict String B → List String
  pub scripts : Dict String B → List String

abbrev pub bundle_root : String
bundle_root = "models/multilingual/"

abbrev pub evidence : String
evidence = "docs/validation/model-prep/"

abbrev pub manifest_path : String
manifest_path = "docs/model-manifest.json"

-- The log_names that are kept.
abbrev pub log_names : List String
log_names = "prepare.log" ∷ "export.log" ∷ "verify.log" ∷ "validation.json" ∷ "environment.log" ∷ []

-- `a < b` of two numbers, and the greater
unfoldable pub number_lt : Number → Number → Bool
number_lt (finite (pos a)) (finite (pos b)) = elim (leb b a) [ true ↦ false | false ↦ true ]
number_lt (finite (pos a)) (finite (negsuc b)) = false
number_lt (finite (negsuc a)) (finite (pos b)) = true
number_lt (finite (negsuc a)) (finite (negsuc b)) = elim (leb a b) [ true ↦ false | false ↦ true ]
number_lt (finite a) infinity = true
number_lt minus_infinity (finite b) = true
number_lt minus_infinity infinity = true
number_lt _ _ = false

abbrev pub items_of : List Json → Items
items_of [] = nil
items_of (j ∷ js) = item j (items_of js)

unfoldable pub length_of : Items → ℕ
length_of nil = 0
length_of (item j js) = ℕ.suc (length_of js)

-- `.items()`
unfoldable pub fields_of : Json → Raises Fields
fields_of (object fs) = ok fs
fields_of _ = raise attribute_error

pub record Parts : Type 0 where
  pub versions : Json
  pub python : Json
  pub graph : Json
  pub session : Json
  pub special_tokens : Json
  pub cases : Items
  pub providers : Json
  pub logit_error : Json
  pub act_error : Json

module _ {B : Type 0} (host : Host B) where
  open host use {release, loads, dumps, unit, iterdir, scripts}

  unfoldable pub load_json : String → Dict String B → Raises Json
  unfolding read
  load_json path files = Raises.◌>>=◌ (read path files) loads

  unfoldable pub digest_of : String → Dict String B → Raises String
  unfolding read
  digest_of path files = Raises.◌>>=◌ (read path files) λ content. ok (release.sha256 content)

  -- The loop over the validated files.
  unfoldable pub check_digests : Fields → Dict String B → Raises (Unit {0})
  unfolding digest_of json_eq
  check_digests end files = ok tt
  check_digests (field name expected rest) files =
      Raises.◌>>=◌ (digest_of (bundle_root <> name) files) λ found.
        Raises.◌>>◌ (require (json_eq unit (text found) expected)) (check_digests rest files)

  -- `shutil.copyfile(PREP / name, evidence / name)` for each log
  unfoldable pub copy_logs : List String → Action (Dict String B) (Unit {0})
  unfolding read Dict.insert
  copy_logs [] = pure tt
  copy_logs (name ∷ rest) = reading (read (prep <> name)) >>= λ content.
      (λ files. copy_logs rest (Dict.insert (evidence <> name) content files))

  -- `dict(path=..., bytes=..., sha256=...)`, for a path below a directory
  unfoldable pub entry_of : String → String → Dict String B → Raises ManifestEntry
  unfolding read
  entry_of directory path files = Raises.◌>>=◌ (read (directory <> path) files) λ content.
      ok (record { path = path; bytes = release.size content; sha256 = release.sha256 content })

  unfoldable pub entries_of : String → List String → Dict String B → Raises (List ManifestEntry)
  unfolding entry_of
  entries_of directory [] files = ok []
  entries_of directory (path ∷ paths) files =
      Raises.◌>>=◌ (entry_of directory path files)
        λ entry. Raises.◌>>=◌ (entries_of directory paths files) λ entries. ok (entry ∷ entries)

  abbrev pub number_json : ℕ → Json
  number_json n = number (finite (pos (n * unit)))

  abbrev pub entry_json : ManifestEntry → Json
  entry_json e = object (
      field "path" (text e.path)
        (field "bytes" (number_json e.bytes) (field "sha256" (text e.sha256) end)))

  abbrev pub entries_json : List ManifestEntry → Json
  entries_json entries = array (items_of (map entry_json entries))

  unfoldable pub number_of : String → Json → Raises Number
  unfolding get as_number
  number_of key c =
      Raises.◌>>=◌ (get key c)
        λ value. elim (as_number unit value) [ none ↦ raise type_error | some n ↦ ok n ]

  -- `max(c[key] for c in cases)`, from the greatest so far
  unfoldable pub max_from : String → Number → Items → Raises Json
  unfolding number_of number_lt
  max_from key seen nil = ok (number seen)
  max_from key seen (item c cases) =
      Raises.◌>>=◌ (number_of key c) λ n. elim (number_lt seen n) [
        | true ↦ max_from key n cases
        | false ↦ max_from key seen cases
      ]

  unfoldable pub max_error : String → Items → Raises Json
  unfolding number_of max_from
  max_error key nil = raise (value_error "max() iterable argument is empty")
  max_error key (item c cases) = Raises.◌>>=◌ (number_of key c) λ n. max_from key n cases

  abbrev pub pinned : String → String → Json
  pinned name revision =
      object (field "repository" (text name) (field "revision" (text revision) end))

  -- What the manifest takes of the validation.
  unfoldable pub parts_of : Json → Raises Parts
  unfolding get iterate max_error
  parts_of validation = Raises.◌>>=◌ (get "versions" validation) λ versions.
      Raises.◌>>=◌ (get "python" validation) λ python.
        Raises.◌>>=◌ (get "graph" validation) λ graph.
          Raises.◌>>=◌ (get "session" validation) λ session.
            Raises.◌>>=◌ (get "special_tokens" validation) λ special_tokens.
              Raises.◌>>=◌ (get "cases" validation) λ listed. Raises.◌>>=◌ (iterate listed) λ cases.
                Raises.◌>>=◌ (get "providers" validation) λ providers.
                  Raises.◌>>=◌ (max_error "max_logit_error" cases) λ logit_error.
                    Raises.◌>>=◌ (max_error "max_act_error" cases) λ act_error. ok (record {
                      versions = versions;
                      python = python;
                      graph = graph;
                      session = session;
                      special_tokens = special_tokens;
                      cases = cases;
                      providers = providers;
                      logit_error = logit_error;
                      act_error = act_error;
                    })

  -- The dict that is written.
  unfoldable pub manifest :
      Json → List ManifestEntry → Json → List ManifestEntry → List ManifestEntry → Parts → Json
  unfolding length_of
  manifest config files inputs tools kept p = object (
      field "schema_version" (number_json 1) (
        field "status" (text "verified") (
          field "model" (text "laya-multilingual") (
            field "precision" (text "fp32") (
              field "checkpoint" (pinned "convaiinnovations/laya-multilingual" checkpoint) (
                field "official_source" (pinned "he-jev/laya" official) (
                  field "exporter_reference" (pinned "receptron/laya" exporter) (
                    field "bundle_directory" (text "models/multilingual") (
                      field "preparation_directory" (text "models/multilingual/prep") (
                        field "image"
                          (text
                            "python@sha256:a36c24f9cbdf4fd0f52d67f0823eeac19c2028c637cecc392d97f980d4fec56b")
                          (field "platform" (text "linux/arm64") (
                            field "cpu_limit" (number_json 8) (
                              field "memory_bytes" (number_json 12_884_901_888) (
                                field "swap_bytes" (number_json 0) (
                                  field "config" config (
                                    field "files" (entries_json files) (
                                      field "inputs" inputs (
                                        field "tools" (entries_json tools) (
                                          field "evidence" (entries_json kept) (
                                            field "versions" p.versions (
                                              field "python" p.python (
                                                field "graph" p.graph (
                                                  field "session" p.session (
                                                    field "special_tokens" p.special_tokens (
                                                      field "validation"
                                                        (object (
                                                          field "cases"
                                                            (number_json (length_of p.cases))
                                                            (field "providers" p.providers (
                                                            field "max_logit_error" p.logit_error (
                                                            field "max_act_error" p.act_error
                                                            end)))))
                                                        (field "reproduction"
                                                          (text "tools/model-prep/README.md")
                                                          end))))))))))))))))))))))))))

  -- The files of the bundle: the validated ones, and the licenses.
  abbrev pub bundle_files : Fields → Dict String B → List String
  bundle_files validated files = names validated ++ iterdir "licenses" files

  -- The manifest, for an accepted validation, and its entries of the bundle's files.
  unfoldable pub assemble : Json × Fields → Dict String B → Raises (Json × List ManifestEntry)
  unfolding load_json entries_of parts_of manifest
  assemble (validation, validated) files =
      Raises.◌>>=◌ (load_json (bundle_root <> "laya_config.json") files) λ config.
        Raises.◌>>=◌ (entries_of bundle_root (bundle_files validated files) files) λ entries.
          Raises.◌>>=◌ (load_json (prep <> "inputs.json") files) λ inputs.
            Raises.◌>>=◌ (entries_of "" (scripts files) files) λ tools.
              Raises.◌>>=◌ (entries_of "" (iterdir evidence files) files) λ kept.
                Raises.◌>>=◌ (parts_of validation)
                  λ parts. ok (manifest config entries inputs tools kept parts, entries)

  unfoldable pub write_manifest : Json → Action (Dict String B) (Unit {0})
  unfolding Dict.insert
  write_manifest j files = (ok tt, Dict.insert manifest_path (dumps j) files)

  -- The validation, and the files that it names, once it is accepted.
  unfoldable pub accept : Dict String B → Raises (Json × Fields)
  unfolding load_json get json_eq fields_of check_digests
  accept files = Raises.◌>>=◌ (load_json (prep <> "validation.json") files) λ validation.
      Raises.◌>>=◌ (get "status" validation) λ status.
        Raises.◌>>◌ (require (json_eq unit status (text "passed"))) (
          Raises.◌>>=◌ (get "files" validation) λ listed.
            Raises.◌>>=◌ (fields_of listed)
              λ validated. Raises.◌>>◌ (check_digests validated files) (ok (validation, validated)))

  unfoldable pub record_bundle : Action (Dict String B) (Unit {0})
  unfolding accept copy_logs assemble write_manifest
  record_bundle = reading accept >>= λ accepted.
      copy_logs log_names >>= λ _. reading (assemble accepted) >>= λ found. write_manifest found.0
