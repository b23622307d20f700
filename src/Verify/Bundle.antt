-- ===== src/Verify/Bundle.antt =====
-- `require_bundle` and `inspect_graph` in tools/model-prep/verify.py.
use laya_rs.Base.{
  ℕ, suc, Bool, false, not, ◌&&◌, none, some, List, [], ◌∷◌, String, ◌<>◌, ◌==◌, nat_eq, string_eq,
  if◌then◌else◌, contains, all,
}
use laya_rs.Base.Dict.{Dict, lookup, insert}
use laya_rs.Base.Raises.{Raises, ok, raise, require, value_error}
use laya_rs.Base.Checked.{◌>>=◌, ◌>>◌, for_each, collect_each}
use laya_rs.Record.{bundle_root}
use laya_rs.Release.{read}
use laya_rs.Release.Publish.{sort_names}
use laya_rs.Verify.{Tensor, Tools}

abbrev pub required_files : List String
required_files =
    "laya.onnx" ∷ "laya.onnx.data" ∷ "laya_config.json" ∷ "tokenizer/tokenizer.json"
    ∷ "tokenizer/tokenizer_config.json" ∷ []

-- `set.update`
unfoldable pub add_all : List String → List String → List String
add_all [] seen = seen
add_all (s ∷ names) seen = add_all names (if contains seen s then seen else s ∷ seen)

-- `external == {"laya.onnx.data"}`, of a set
abbrev pub is_external : List String → Bool
is_external seen = contains seen "laya.onnx.data" && all (λ s. s == "laya.onnx.data") seen

-- The places of a tensor's external data.
unfoldable pub locations : List (String × String) → List String
locations [] = []
locations ((key, value) ∷ entries) =
    let rest = locations entries in if key == "location" then value ∷ rest else rest

-- `Counter`, of names
unfoldable pub count_name : String → Dict String ℕ → Dict String ℕ
unfolding lookup insert
count_name s counts = elim (lookup s counts) [
  | none ↦ insert s 1 counts
  | some n ↦ insert s (suc n) counts
]

unfoldable pub counter : List String → Dict String ℕ → Dict String ℕ
unfolding count_name
counter [] counts = counts
counter (s ∷ names) counts = counter names (count_name s counts)

-- `{o.domain: o.version for o in ...}`
unfoldable pub opsets_of : List (String × ℕ) → Dict String ℕ → Dict String ℕ
unfolding insert
opsets_of [] d = d
opsets_of ((domain, version) ∷ rest) d = opsets_of rest (insert domain version d)

pub record GraphReport : Type 0 where
  pub ir_version : ℕ
  pub opsets : Dict String ℕ
  pub initializer_types : Dict String ℕ
  pub external_data : List String

module _ {B M T Q : Type 0} (tools : Tools B M T Q) where
  open tools use {record_host, load_graph, check_model, float16, bfloat16, double, type_name}

  -- The check of one file. A path that is not a file in the state is missing.
  unfoldable pub is_present : Dict String B → String → Bool
  unfolding lookup
  is_present files name = elim (lookup (bundle_root <> name) files) [
    | none ↦ false
    | some content ↦ not (record_host.release.size content == 0)
  ]

  unfoldable pub require_file : Dict String B → String → Raises (Unit {0})
  unfolding is_present
  require_file files name =
      if is_present files name
      then ok tt
      else raise (value_error ("Missing or empty bundle file: " <> name))

  unfoldable pub require_bundle : Dict String B → Raises (Unit {0})
  unfolding require_file
  require_bundle files = for_each (require_file files) required_files

  abbrev pub is_allowed : Tensor → Bool
  is_allowed t = not (contains (float16 ∷ bfloat16 ∷ double ∷ []) t.data_type)

  -- The loop over the initializers.
  unfoldable pub scan : List Tensor → List String → Raises (List String)
  unfolding locations add_all
  scan [] external = ok external
  scan (t ∷ tensors) external = do
    require (is_allowed t)
    scan tensors (add_all (locations t.external_data) external)

  unfoldable pub inspect_graph : Dict String B → Raises GraphReport
  unfolding read scan counter opsets_of sort_names
  inspect_graph files = do
    content ← read (bundle_root <> "laya.onnx") files
    graph ← load_graph content
    check_model (bundle_root <> "laya.onnx") files
    external ← scan graph.initializer []
    require (is_external external)
    types ← collect_each (λ (t : Tensor). type_name t.data_type) graph.initializer
    ok (record {
      ir_version = graph.ir_version;
      opsets = opsets_of graph.opset_import [];
      initializer_types = counter types [];
      external_data = sort_names external;
    })
