-- ===== src/Verify/Main.antt =====
-- `verify` in tools/model-prep/verify.py.
use laya_rs.Base.{ℕ, ◌*◌, List, [], ◌∷◌, ◌++◌, map, String, ◌<>◌, ◌==◌, string_eq}
use laya_rs.Base.Int.{pos}
use laya_rs.Base.Dict.{Dict, insert}
use laya_rs.Base.Json.{
  Json, Fields, null, number, finite, text, array, object, end, field, get, json_eq, texts,
}
use laya_rs.Base.Raises.{Raises, ok, raise, require}
use laya_rs.Base.Checked.{◌>>=◌, ◌>>◌, collect_each, for_each}
use laya_rs.Base.Action.{Action}
use laya_rs.Prepare.{prep, remove}
use laya_rs.Record.{bundle_root, digest_of, load_json, items_of}
use laya_rs.Verify.{Tools, Session, BatchItem, Port, Dimension, named, sized, unknown}
use laya_rs.Verify.Bundle.{required_files, GraphReport, require_bundle, inspect_graph}
use laya_rs.Verify.Opening.{session, load_reference}
use laya_rs.Verify.Cases.{batch_of, case_groups}

abbrev pub validation_path : String
validation_path = prep <> "validation.json"

-- A dict, of the keys and values in order.
abbrev pub object_of : List (String × Json) → Fields
object_of [] = end
object_of ((key, value) ∷ entries) = field key value (object_of entries)

abbrev pub config_keys : List String
config_keys = "max_len" ∷ "head_max_len" ∷ "temperature" ∷ "temperature_by_options" ∷ []

abbrev pub tokenizer_files : List String
tokenizer_files = "tokenizer.json" ∷ "tokenizer_config.json" ∷ []

abbrev pub packages : List String
packages =
    "torch" ∷ "transformers" ∷ "onnx" ∷ "onnxscript" ∷ "onnxruntime" ∷ "numpy" ∷ "safetensors"
    ∷ "tokenizers" ∷ []

abbrev pub token_names : List String
token_names = "cls_token_id" ∷ "sep_token_id" ∷ "mask_token_id" ∷ "pad_token_id" ∷ []

-- `{key: value(key) for key in keys}`, with keys that differ
unfoldable pub dict_of : (String → Raises Json) → List String → Raises Json
dict_of value keys = do
  entries ← collect_each (λ key. do found ← value key; ok (key, found)) keys
  ok (object (object_of entries))

module _ {B M T Q : Type 0} (tools : Tools B M T Q) where
  open tools use {
    record_host, load_tokenizer, minimum, compare, special_token, version, platform, python,
  }

  unit : ℕ
  unit = record_host.unit

  abbrev pub number_json : ℕ → Json
  number_json n = number (finite (pos (n * record_host.unit)))

  abbrev counts_json : Dict String ℕ → Json
  counts_json d = object (object_of (map (λ p. (p.0, number_json p.1)) d))

  abbrev pub graph_json : GraphReport → Json
  graph_json g = object (
      field "ir_version" (number_json g.ir_version) (
        field "opsets" (counts_json g.opsets) (
          field "initializer_types" (counts_json g.initializer_types)
            (field "external_data" (array (texts g.external_data)) end))))

  abbrev dimension_json : Dimension → Json
  dimension_json (named s) = text s
  dimension_json (sized n) = number_json n
  dimension_json unknown = null

  abbrev port_json : Port → Json
  port_json p = object (
      field "name" (text p.name) (
        field "dtype" (text p.kind)
          (field "shape" (array (items_of (map dimension_json p.shape))) end)))

  -- `assert config["max_len"] == 1024 and config["head_max_len"] == 256`
  unfoldable pub check_lengths : Json → Raises (Unit {0})
  unfolding get json_eq
  check_lengths config = do
    max_len ← get "max_len" config
    require (json_eq record_host.unit max_len (number_json 1024))
    head_max_len ← get "head_max_len" config
    require (json_eq record_host.unit head_max_len (number_json 256))

  -- The bundle's configuration is that of the checkpoint.
  unfoldable pub check_config : Json → Dict String B → Raises (Unit {0})
  unfolding load_json dict_of get json_eq
  check_config config files = do
    bundle_config ← load_json record_host (bundle_root <> "laya_config.json") files
    expected ← dict_of (λ key. get key config) config_keys
    require (json_eq record_host.unit bundle_config expected)

  unfoldable pub check_tokenizer : Dict String B → String → Raises (Unit {0})
  unfolding digest_of
  check_tokenizer files name = do
    exported ← digest_of record_host (bundle_root <> ("tokenizer/" <> name)) files
    official ← digest_of record_host (prep <> ("checkpoint/tokenizer/" <> name)) files
    require (exported == official)

  unfoldable pub compare_group : T → M → Session → String × List BatchItem → Raises Json
  unfolding batch_of
  compare_group tok model runtime (name, group) = do
    batch ← batch_of tools tok group
    compare name batch model runtime

  -- All comparisons, with the shortest batch at the end.
  unfoldable pub compare_all : T → Json → M → Session → Raises (List Json)
  unfolding case_groups compare_group
  compare_all tok config model runtime = do
    groups ← case_groups tools tok config
    records ← collect_each (compare_group tok model runtime) groups
    batch ← minimum tok
    last ← compare "tensor-L2" batch model runtime
    ok (records ++ (last ∷ []))

  -- `{n: digest(ROOT / n) for n in FILES}`
  unfoldable pub digests_of : List String → Dict String B → Raises Fields
  unfolding digest_of
  digests_of [] files = ok end
  digests_of (name ∷ rest) files = do
    found ← digest_of record_host (bundle_root <> name) files
    others ← digests_of rest files
    ok (field name (text found) others)

  unfoldable pub report_of : T → GraphReport → Session → List Json → Dict String B → Raises Json
  unfolding dict_of digests_of
  report_of tok graph runtime records files = do
    versions ← dict_of (λ name. do found ← version name; ok (text found)) packages
    special_tokens ← dict_of (special_token tok) token_names
    digests ← digests_of required_files files
    ok (
        object (
          field "status" (text "passed") (
            field "platform" (text platform) (
              field "python" (text python) (
                field "versions" versions (
                  field "graph" (graph_json graph) (
                    field "session"
                      (array (items_of (map port_json (runtime.inputs ++ runtime.outputs))))
                      (field "providers" (array (texts runtime.providers)) (
                        field "special_tokens" special_tokens (
                          field "files" (object digests)
                            (field "cases" (array (items_of records)) end)))))))))))

  -- What stands between the removal of the old validation and the new one.
  unfoldable pub examine : Dict String B → Raises Json
  unfolding require_bundle inspect_graph session load_reference check_lengths check_config
      check_tokenizer compare_all report_of
  examine files = do
    require_bundle tools files
    graph ← inspect_graph tools files
    runtime ← session tools files
    reference ← load_reference tools files
    check_lengths reference.1
    check_config reference.1 files
    for_each (check_tokenizer files) tokenizer_files
    tok ← load_tokenizer files
    records ← compare_all tok reference.1 reference.0 runtime
    report_of tok graph runtime records files

  -- `(PREP / "validation.json").write_text(...)`
  unfoldable pub write_report : Raises Json → Action (Dict String B) (Unit {0})
  unfolding insert
  write_report (raise e) files = (raise e, files)
  write_report (ok report) files = (ok tt, insert validation_path (record_host.dumps report) files)

  unfoldable pub verify : Action (Dict String B) (Unit {0})
  unfolding remove examine write_report
  verify files =
      let cleared = remove validation_path files in write_report (examine cleared) cleared
