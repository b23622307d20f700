-- ===== src/Normalize.antt =====
-- tools/model-prep/normalize.py: each LayerNormalization node of an ONNX graph becomes a chain of
-- elementary nodes. The onnx package is a parameter: a graph is what the tool reads and writes of
-- it, tensors (`T`) and floats (`F`) are opaque.
pub mod Meaning
pub mod Names
pub mod Expansion
pub mod Layer
pub mod Relation
pub mod Constants
pub mod Whole
pub mod Safety
mod Tests
use laya_rs.Base.{
  ℕ, ◌+◌, Bool, true, false, ◌&&◌, not, Option, none, some, List, [], ◌∷◌, ◌++◌, String, ◌<>◌, ◌==◌,
  nat_eq, string_eq, if◌then◌else◌,
}
use laya_rs.Base.Dict
use laya_rs.Base.Dict.{Dict}
use laya_rs.Base.Int.{ℤ, pos, negsuc, int_eq}
use laya_rs.Base.Raises.{Raises, ok, raise, assertion_error, file_not_found, ◌>>=◌, ◌>>◌, require}

-- The attributes that the tool reads, at the types that the operator gives them.
pub data Attribute (F : Type 0) : Type 0 where
  axis : ℤ → Attribute F
  stash_type : ℤ → Attribute F
  epsilon : F → Attribute F
  other : String → Attribute F

pub record Node (F : Type 0) : Type 0 where
  pub domain : String
  pub op_type : String
  pub inputs : List String
  pub outputs : List String
  pub name : String
  pub attributes : List (Attribute F)

-- The tensor of an initializer: one that the model came with, or one that `numpy_helper.from_array`
-- makes of a list of integers or of a 32-bit float.
pub data Constant (F T : Type 0) : Type 0 where
  given : T → Constant F T
  int64s : List ℤ → Constant F T
  float32 : F → Constant F T

abbrev pub Initializers : Type 0 → Type 0 → Type 0
Initializers F T = List (String × Constant F T)

pub record Model (F T : Type 0) : Type 0 where
  pub nodes : List (Node F)
  pub initializers : Initializers F T

module _ {F : Type 0} where
  -- `attrs.get(name, default)`, where `attrs` keeps the last value of a repeated name.
  unfoldable pub get_axis : ℤ → List (Attribute F) → ℤ
  get_axis found [] = found
  get_axis found (axis v ∷ attrs) = get_axis v attrs
  get_axis found (_ ∷ attrs) = get_axis found attrs

  unfoldable pub get_stash_type : ℤ → List (Attribute F) → ℤ
  get_stash_type found [] = found
  get_stash_type found (stash_type v ∷ attrs) = get_stash_type v attrs
  get_stash_type found (_ ∷ attrs) = get_stash_type found attrs

  unfoldable pub get_epsilon : F → List (Attribute F) → F
  get_epsilon found [] = found
  get_epsilon found (epsilon v ∷ attrs) = get_epsilon v attrs
  get_epsilon found (_ ∷ attrs) = get_epsilon found attrs

-- What the assertion on the numbers of inputs and outputs lets through: the operands of the layer
-- and the name of its result.
pub record Operands : Type 0 where
  pub x : String
  pub scale : String
  pub bias : Option String
  pub result : String

unfoldable pub operands : List String → List String → Raises Operands
operands (x ∷ s ∷ []) (y ∷ []) = ok (record { x = x; scale = s; bias = none; result = y })
operands (x ∷ s ∷ b ∷ []) (y ∷ []) = ok (record { x = x; scale = s; bias = some b; result = y })
operands _ _ = raise assertion_error

abbrev pub mark : String
mark = "laya_norm_"

-- `prefix` of the new names for a layer
abbrev pub prefix_of : String → String
prefix_of result = mark <> (result <> "_")

module _ {F : Type 0} where
  -- `helper.make_node(op, inputs, [output], name=output)`, in `add`
  unfoldable pub make : String → List String → String → Node F
  make op inputs output = record {
    domain = "";
    op_type = op;
    inputs = inputs;
    outputs = output ∷ [];
    name = output;
    attributes = [];
  }

  -- The last node of the chain, which has the layer's own output.
  unfoldable pub make_output : String → Operands → Node F
  make_output p o = elim o.bias [
    | none ↦ record {
      domain = "";
      op_type = "Identity";
      inputs = (p <> "scaled") ∷ [];
      outputs = o.result ∷ [];
      name = p <> "output";
      attributes = [];
    }
    | some b ↦ record {
      domain = "";
      op_type = "Add";
      inputs = (p <> "scaled") ∷ b ∷ [];
      outputs = o.result ∷ [];
      name = p <> "output";
      attributes = [];
    }
  ]

  unfoldable pub chain : String → Operands → List (Node F)
  unfolding make make_output
  chain p o =
      make "ReduceMean" (o.x ∷ (p <> "axes") ∷ []) (p <> "mean")
      ∷ make "Sub" (o.x ∷ (p <> "mean") ∷ []) (p <> "centered")
      ∷ make "Mul" ((p <> "centered") ∷ (p <> "centered") ∷ []) (p <> "squared")
      ∷ make "ReduceMean" ((p <> "squared") ∷ (p <> "axes") ∷ []) (p <> "variance")
      ∷ make "Add" ((p <> "variance") ∷ (p <> "epsilon") ∷ []) (p <> "adjusted")
      ∷ make "Sqrt" ((p <> "adjusted") ∷ []) (p <> "sqrt")
      ∷ make "Reciprocal" ((p <> "sqrt") ∷ []) (p <> "reciprocal")
      ∷ make "Mul" ((p <> "centered") ∷ (p <> "reciprocal") ∷ []) (p <> "normalized")
      ∷ make "Mul" ((p <> "normalized") ∷ o.scale ∷ []) (p <> "scaled")
      ∷ make_output p o
      ∷ []

  abbrev pub is_layer_norm : Node F → Bool
  is_layer_norm node = node.domain == "" && node.op_type == "LayerNormalization"

module _ {F T : Type 0} (default_epsilon : F) where
  -- The nodes for one layer, and the initializers with its two constants behind them.
  unfoldable pub layer_norm_nodes :
      Node F → Initializers F T → Raises (List (Node F) × Initializers F T)
  unfolding get_axis get_stash_type get_epsilon operands chain int_eq
  layer_norm_nodes node initializers = do
    require (
        get_axis (negsuc 0) node.attributes == negsuc 0
        && get_stash_type (pos 1) node.attributes == pos 1)
    o ← operands node.inputs node.outputs
    let p = prefix_of o.result
    ok (
      chain p o,
      initializers
          ++ (p <> "axes", int64s (negsuc 0 ∷ []))
            ∷ (p <> "epsilon", float32 (get_epsilon default_epsilon node.attributes))
            ∷ [],
    )

  -- The loop over `model.graph.node`, with the nodes so far and the count.
  unfoldable pub expand_nodes :
      List (Node F)
      → List (Node F)
      → Initializers F T
      → ℕ
      → Raises (List (Node F) × Initializers F T × ℕ)
  unfolding layer_norm_nodes
  expand_nodes [] nodes initializers count = ok (nodes, initializers, count)
  expand_nodes (node ∷ rest) nodes initializers count = elim (is_layer_norm node) [
    | true ↦ do
      (new, initializers') ← layer_norm_nodes node initializers
      expand_nodes rest (nodes ++ new) initializers' (count + 1)
    | false ↦ expand_nodes rest (nodes ++ node ∷ []) initializers count
  ]

  unfoldable pub expand_layer_norm : Model F T → Raises (Model F T × ℕ)
  unfolding expand_nodes
  expand_layer_norm model = do
    (nodes, initializers, count) ← expand_nodes model.nodes [] model.initializers 0
    require (count == 50)
    ok (record { nodes = nodes; initializers = initializers }, count)

-- The graph files by their paths.
abbrev pub Files : Type 0 → Type 0 → Type 0
Files F T = Dict String (Model F T)

-- `home` is `path.parent.resolve()`, and `check_model` that of the onnx package. A file is the graph
-- that `onnx.load` reads from it.
module _ {F T : Type 0} (default_epsilon : F) (home : String → String)
    (check_model : Model F T → Raises (Unit {0})) where
  expand_file : String → String → Files F T → Raises (Model F T × ℕ)
  unfolding expand_layer_norm Dict.lookup
  expand_file source destination files = do
    require (not (Dict.contains_key destination files))
    require (home source == home destination)
    model ← elim (Dict.lookup source files) [ none ↦ raise file_not_found | some m ↦ ok m ]
    expand_layer_norm default_epsilon model

  -- The graph is saved before it is checked, so a graph that fails the check stays on disk.
  unfoldable pub rewrite : String → String → Files F T → Raises ℕ × Files F T
  unfolding expand_file Dict.insert
  rewrite source destination files = elim (expand_file source destination files) [
    | raise e ↦ (raise e, files)
    | ok (model, count) ↦
        let files' = Dict.insert destination model files in (do check_model model; ok count, files')
  ]
