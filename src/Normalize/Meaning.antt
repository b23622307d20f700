-- ===== src/Normalize/Meaning.antt =====
-- What a graph computes: the nodes run in order, each on the tensors that the names of its inputs
-- stand for. The operators are the runtime's, a parameter.
use laya_rs.Base.{
  ◌≡◌, ◌≢◌, Option, none, some, List, [], ◌∷◌, String, arith, ◌==◌, string_eq, if◌then◌else◌,
}
use laya_rs.Base.Int.{pos, negsuc}
use laya_rs.Normalize.{
  Attribute, Node, Constant, Initializers, get_axis, get_stash_type, get_epsilon,
}

pub record Runtime (F T : Type 0) : Type 0 where
  -- an operator by its domain and type, on its attributes and inputs
  pub run : String → String → List (Attribute F) → List T → Option (List T)
  pub constant : Constant F T → T

abbrev pub Env : Type 0 → Type 0
Env T = String → Option T

module _ {T : Type 0} where
  unfoldable pub bind : Env T → String → T → Env T
  bind env name t j = if j == name then some t else env j

  -- The tensors of the inputs. A name that nothing has bound is a fault.
  unfoldable pub collect : Env T → List String → Option (List T)
  collect env [] = some []
  collect env (name ∷ names) = elim (env name) [
    | none ↦ none
    | some t ↦ elim (collect env names) [ none ↦ none | some ts ↦ some (t ∷ ts) ]
  ]

  unfoldable pub bind_all : Env T → List String → List T → Option (Env T)
  unfolding bind
  bind_all env [] [] = some env
  bind_all env (name ∷ names) (t ∷ ts) = bind_all (bind env name t) names ts
  bind_all env _ _ = none

  pub bind_self : (env : Env T) (name : String) (t : T) → bind env name t name ≡ some t
  unfolding bind
  bind_self env name t = ground arith

  pub bind_ne : (env : Env T) (name j : String) (t : T) → j ≢ name → bind env name t j ≡ env j
  unfolding bind
  bind_ne env name j t h = ground arith

module _ {F T : Type 0} (runtime : Runtime F T) where
  open runtime use {run, constant}

  unfoldable pub eval_node : Env T → Node F → Option (Env T)
  unfolding collect bind_all
  eval_node env node = elim (collect env node.inputs) [
    | none ↦ none
    | some args ↦ elim (run node.domain node.op_type node.attributes args) [
      | none ↦ none
      | some outs ↦ bind_all env node.outputs outs
    ]
  ]

  unfoldable pub eval : Env T → List (Node F) → Option (Env T)
  eval env [] = some env
  eval env (node ∷ nodes) = elim (eval_node env node) [ none ↦ none | some env' ↦ eval env' nodes ]

  -- The initializers bind their names before any node runs.
  unfoldable pub load : Env T → Initializers F T → Env T
  unfolding bind
  load env [] = env
  load env ((name, c) ∷ rest) = load (bind env name (constant c)) rest

  -- An elementary operator with one result.
  abbrev pub Yields : String → List T → T → Type 0
  Yields op args t = run "" op [] args ≡ some (t ∷ [])

  -- The function body that the ONNX specification gives for LayerNormalization over the last axis, by
  -- its intermediate tensors: `d` is centered, `inv` the reciprocal of the standard deviation.
  pub record Body (axes eps x scale : T) (scaled : T) : Type 0 where
    pub mean : T
    pub d : T
    pub dd : T
    pub var : T
    pub var_eps : T
    pub std_dev : T
    pub inv : T
    pub normalized : T
    pub mean_eq : Yields "ReduceMean" (x ∷ axes ∷ []) mean
    pub d_eq : Yields "Sub" (x ∷ mean ∷ []) d
    pub dd_eq : Yields "Mul" (d ∷ d ∷ []) dd
    pub var_eq : Yields "ReduceMean" (dd ∷ axes ∷ []) var
    pub var_eps_eq : Yields "Add" (var ∷ eps ∷ []) var_eps
    pub std_dev_eq : Yields "Sqrt" (var_eps ∷ []) std_dev
    pub inv_eq : Yields "Reciprocal" (std_dev ∷ []) inv
    pub normalized_eq : Yields "Mul" (d ∷ inv ∷ []) normalized
    pub scaled_eq : Yields "Mul" (normalized ∷ scale ∷ []) scaled

  -- Documented behaviour of the runtime, over exact arithmetic: the operator is its function body,
  -- and `Identity` returns its input.
  pub record FollowsSpecification (default_epsilon : F) : Type 0 where
    pub without_bias :
        (attrs : List (Attribute F)) (x s : T) (outs : List T)
        → get_axis (negsuc 0) attrs ≡ negsuc 0
        → get_stash_type (pos 1) attrs ≡ pos 1
        → run "" "LayerNormalization" attrs (x ∷ s ∷ []) ≡ some outs
        → (y : T) × (outs ≡ y ∷ [])
          × Body
              (constant (Constant.int64s (negsuc 0 ∷ [])))
              (constant (Constant.float32 (get_epsilon default_epsilon attrs)))
              x
              s
              y
    pub with_bias :
        (attrs : List (Attribute F)) (x s b : T) (outs : List T)
        → get_axis (negsuc 0) attrs ≡ negsuc 0
        → get_stash_type (pos 1) attrs ≡ pos 1
        → run "" "LayerNormalization" attrs (x ∷ s ∷ b ∷ []) ≡ some outs
        → (y scaled : T) × (outs ≡ y ∷ [])
          × Body
              (constant (Constant.int64s (negsuc 0 ∷ [])))
              (constant (Constant.float32 (get_epsilon default_epsilon attrs)))
              x
              s
              scaled
          × Yields "Add" (scaled ∷ b ∷ []) y
    pub identity : (t : T) → Yields "Identity" (t ∷ []) t
