-- ===== src/Verify/Opening.antt =====
-- `session` in tools/model-prep/verify.py, and `load_reference` in tools/model-prep/export.py.
use laya_rs.Base.{
  ℕ, Bool, true, false, not, ◌&&◌, none, some, List, [], ◌∷◌, ◌++◌, map, String, ◌<>◌, ◌==◌, nat_eq,
  string_eq, if◌then◌else◌, all, length, get_elem?,
}
use laya_rs.Base.Dict.{Dict}
use laya_rs.Base.Json.{Json}
use laya_rs.Base.Raises.{Raises, ok, raise, require, index_error}
use laya_rs.Base.Checked.{◌>>=◌, ◌>>◌}
use laya_rs.Prepare.{prep}
use laya_rs.Record.{bundle_root, digest_of, load_json}
use laya_rs.Verify.{Dimension, named, sized, unknown, Port, Session, Tools}

abbrev pub port_names : List String
port_names = "input_ids" ∷ "attention_mask" ∷ "marker_pos" ∷ "marker_mask" ∷ "qtype" ∷ []

abbrev pub port_kinds : List String
port_kinds =
    "tensor(int64)" ∷ "tensor(int64)" ∷ "tensor(int64)" ∷ "tensor(bool)" ∷ "tensor(int64)" ∷ []

-- `xs == ys` of two lists of texts
unfoldable pub same_texts : List String → List String → Bool
same_texts [] [] = true
same_texts (x ∷ xs) (y ∷ ys) = (x == y) && same_texts xs ys
same_texts _ _ = false

-- `zip(ports, ranks)`
abbrev pub zipped : List Port → List ℕ → List (Port × ℕ)
zipped [] ranks = []
zipped (p ∷ ports) [] = []
zipped (p ∷ ports) (n ∷ ranks) = (p, n) ∷ zipped ports ranks

-- `isinstance(d, str) and d`
abbrev pub is_dynamic : Dimension → Bool
is_dynamic (named s) = not (s == "")
is_dynamic (sized n) = false
is_dynamic unknown = false

-- `shape[:-1]`
unfoldable pub without_last : List Dimension → List Dimension
without_last [] = []
without_last (d ∷ []) = []
without_last (d ∷ e ∷ shape) = d ∷ without_last (e ∷ shape)

unfoldable pub dynamic_part : Port → List Dimension
unfolding without_last
dynamic_part p = if p.name == "act_probs" then without_last p.shape else p.shape

-- The checks of a port with its rank.
unfoldable pub is_ranked : Port × ℕ → Bool
unfolding dynamic_part
is_ranked (p, rank) = (length p.shape == rank) && all is_dynamic (dynamic_part p)

abbrev pub is_two : Dimension → Bool
is_two (sized n) = n == 2
is_two _ = false

-- `outputs[1].shape[1] == 2`
unfoldable pub has_two_acts : List Port → Raises Bool
has_two_acts outputs = elim (get_elem? outputs 1) [
  | none ↦ raise index_error
  | some p ↦ elim (get_elem? p.shape 1) [ none ↦ raise index_error | some d ↦ ok (is_two d) ]
]

abbrev pub names_of : List Port → List String
names_of ports = map (λ (p : Port). p.name) ports

abbrev pub kinds_of : List Port → List String
kinds_of ports = map (λ (p : Port). p.kind) ports

-- The checks of an opened session.
unfoldable pub check_session : Session → Raises (Unit {0})
unfolding same_texts is_ranked has_two_acts
check_session s = do
  require (same_texts s.providers ("CPUExecutionProvider" ∷ []))
  require (same_texts (names_of s.inputs) port_names)
  require (same_texts (kinds_of s.inputs) port_kinds)
  require (same_texts (names_of s.outputs) ("logits" ∷ "act_probs" ∷ []))
  require (same_texts (kinds_of s.outputs) ("tensor(float)" ∷ "tensor(float)" ∷ []))
  require (all is_ranked (zipped (s.inputs ++ s.outputs) (2 ∷ 2 ∷ 2 ∷ 2 ∷ 1 ∷ 2 ∷ 2 ∷ [])))
  two ← has_two_acts s.outputs
  require two

abbrev pub source_hash : String
source_hash = "8d83611d480c971d640a7b7d3aa2f2219c5e8455e9cc2329fd073681bd8be23e"

abbrev pub weights_hash : String
weights_hash = "9d628fd971b700382ac6f65920a86f149777b2e748e0c955fb3b19695aa8f204"

module _ {B M T Q : Type 0} (tools : Tools B M T Q) where
  open tools use {record_host, open_session, build_model}

  unfoldable pub session : Dict String B → Raises Session
  unfolding check_session
  session files = do
    found ← open_session (bundle_root <> "laya.onnx") files
    check_session found
    ok found

  -- `assert digest(path) == hash`
  unfoldable pub require_digest : String → String → Dict String B → Raises (Unit {0})
  unfolding digest_of
  require_digest path hash files = do
    found ← digest_of record_host path files
    require (found == hash)

  unfoldable pub load_reference : Dict String B → Raises (M × Json)
  unfolding require_digest load_json
  load_reference files = do
    require_digest (prep <> "source/rl_common.py") source_hash files
    require_digest (prep <> "checkpoint/model.safetensors") weights_hash files
    config ← load_json record_host (prep <> "checkpoint/rl_agent_config.json") files
    model ← build_model config files
    ok (model, config)
