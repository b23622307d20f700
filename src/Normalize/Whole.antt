-- ===== src/Normalize/Whole.antt =====
-- The rewritten model computes what the original one does, on every name of the original.
use laya_rs.Base.{
  ℕ, ◌≡◌, ◌≢◌, refl, sym, ap, subst, ◌∙◌, true, some, List, [], ◌∷◌, String, ◌<>◌, arith, All,
  nat_eq, string_eq, Option-cases, inl, inr, ◌⊎◌,
}
use mathlib.Core.Option.{none-ne-some, some-injective}
use laya_rs.Base.Raises.{ok}
use laya_rs.Normalize.{
  Node, Initializers, Model, Operands, prefix_of, is_layer_norm, expand_layer_norm,
}
use laya_rs.Normalize.Meaning.{
  Runtime, Env, bind, bind_ne, bind_all, collect, eval_node, eval, load, FollowsSpecification,
}
use laya_rs.Normalize.Names.{IsPlain, plain_ne}
use laya_rs.Normalize.Relation.{Expands, finished, copied, expanded, expand_layer_norm-Accepted}
use laya_rs.Normalize.Layer.{
  eval_node-parts, operands-cases, TwoInputs, ThreeInputs, Agree, bind-Agree, layer_lem,
}
use laya_rs.Normalize.Expansion.{eval-step}
use laya_rs.Normalize.Constants.{
  Bound, Bound-frame, load-append, load-Bound_of_Expands, load-Agree, names-All, layer_results,
  Distinct, names,
}

-- None of the node's names has the mark of the expansion.
pub record IsPlainNode {F : Type 0} (node : Node F) : Type 0 where
  pub inputs : All IsPlain node.inputs
  pub outputs : All IsPlain node.outputs

module _ {T : Type 0} where
  collect-Agree :
      (env env' : Env T) (ins : List String)
      → All IsPlain ins
      → Agree env env'
      → collect env ins ≡ collect env' ins
  unfolding collect
  collect-Agree env env' [] p a = refl
  collect-Agree env env' (i ∷ ins) p a = ground (arith, a i p.0, collect-Agree env env' ins p.1 a)

  -- Both environments bind the same outputs, and go on agreeing.
  record Both (env' e : Env T) (outs : List String) (ts : List T) : Type 0 where
    env1 : Env T
    binds : bind_all env' outs ts ≡ some env1
    agrees : Agree e env1
    frames : (j : String) → All (λ o. j ≢ o) outs → env1 j ≡ env' j

  bind_all-Both :
      (env env' e : Env T) (outs : List String) (ts : List T)
      → Agree env env'
      → bind_all env outs ts ≡ some e
      → Both env' e outs ts
  unfolding bind_all
  bind_all-Both env env' e [] [] a h = record {
    env1 = env';
    binds = refl;
    agrees = subst (λ x. Agree x env') (some-injective _ _ h) a;
    frames = λ j other. refl;
  }
  bind_all-Both env env' e (o ∷ outs) (t ∷ ts) a h =
      let b =
        bind_all-Both (bind env o t) (bind env' o t) e outs ts (bind-Agree env env' o t a) h in
      record {
        env1 = b.env1;
        binds = b.binds;
        agrees = b.agrees;
        frames = λ j other. b.frames j other.1 ∙ bind_ne env' o j t other.0;
      }
  bind_all-Both env env' e _ _ a h = absurd (none-ne-some _ h)

-- No plain name is one of a chain or a constant.
foreign :
    (end r : String) (outs : List String)
    → All IsPlain outs
    → All (λ o. (prefix_of r <> end) ≢ o) outs
foreign end r [] p = tt
foreign end r (o ∷ outs) p = (λ e. plain_ne o r end p.0 (sym e), foreign end r outs p.1)

module _ {F T : Type 0} (runtime : Runtime F T) where
  eval-head :
      (env e : Env T) (node : Node F) (nodes : List (Node F))
      → eval runtime env (node ∷ nodes) ≡ some e
      → (e1 : Env T) × (eval_node runtime env node ≡ some e1) × (eval runtime e1 nodes ≡ some e)
  unfolding eval
  eval-head env e node nodes h = elim (Option-cases (eval_node runtime env node)) [
    | inl stuck ↦ absurd (none-ne-some _ (rw (stuck, eval) at h))
    | inr (e1, ran) ↦ (e1, ran, rw (ran, eval) at h)
  ]

  -- A node that is copied does in one environment what it does in the other.
  record Copied (env' e : Env T) (node : Node F) : Type 0 where
    env1 : Env T
    runs : eval_node runtime env' node ≡ some env1
    agrees : Agree e env1
    frames : (j : String) → All (λ o. j ≢ o) node.outputs → env1 j ≡ env' j

  eval_node-Copied :
      (env env' e : Env T) (node : Node F)
      → IsPlainNode node
      → Agree env env'
      → eval_node runtime env node ≡ some e
      → Copied env' e node
  unfolding eval_node
  eval_node-Copied env env' e node plain a h =
      let (args, outs, c, ran, bound) = eval_node-parts runtime env e node h in
      let c' = sym (collect-Agree env env' node.inputs plain.inputs a) ∙ c in
      let b = bind_all-Both env env' e node.outputs outs a bound in
      record {
        env1 = b.env1;
        runs = rw (c', ran, b.binds, eval_node);
        agrees = b.agrees;
        frames = b.frames;
      }

  names-Copied :
      {d : F} {nodes new : List (Node F)} {more : Initializers F T}
      → Expands d nodes new more
      → (node : Node F) → IsPlainNode node
      → {env' e : Env T} (step : Copied env' e node) → All (λ y. step.env1 y ≡ env' y) (names more)
  names-Copied x node plain {env'} step =
      names-All runtime x (λ y. step.env1 y ≡ env' y)
        (λ r. step.frames _ (foreign "axes" r node.outputs plain.outputs))
        (λ r. step.frames _ (foreign "epsilon" r node.outputs plain.outputs))

operands-plain :
    (ins outs : List String) (o : Operands)
    → TwoInputs ins outs o ⊎ ThreeInputs ins outs o
    → All IsPlain ins
    → IsPlain o.x × IsPlain o.scale × ((b : String) → o.bias ≡ some b → IsPlain b)
operands-plain ins outs o (inl (ei, eo, no_bias)) p =
    let q = rw ei at p in (q.0, q.1.0, λ b e. absurd (none-ne-some b (sym no_bias ∙ e)))
operands-plain ins outs o (inr (c, ei, eo, biased)) p =
    let q = rw ei at p in
    (q.0, q.1.0, λ b e. subst IsPlain (some-injective c b (sym biased ∙ e)) q.1.1.0)

operands-result :
    (ins outs : List String) (o : Operands)
    → TwoInputs ins outs o ⊎ ThreeInputs ins outs o
    → All IsPlain outs
    → IsPlain o.result
operands-result ins outs o (inl (ei, eo, no_bias)) p = let q = rw eo at p in q.0
operands-result ins outs o (inr (c, ei, eo, biased)) p = let q = rw eo at p in q.0

layer_tests :
    {F : Type 0} (node : Node F)
    → is_layer_norm node ≡ true
    → (node.domain ≡ "") × (node.op_type ≡ "LayerNormalization")
layer_tests node h = ground arith

module _ {F T : Type 0} (runtime : Runtime F T) (d : F)
    (spec : FollowsSpecification runtime d) where
  -- What a run of the expanded nodes leaves, from an environment with the constants.
  abbrev Simulates : Env T → Env T → List (Node F) → Type 0
  Simulates env' e new = (e' : Env T) × (eval runtime env' new ≡ some e') × Agree e e'

  Expands-Simulates :
      {nodes new : List (Node F)} {more : Initializers F T}
      → Expands d nodes new more
      → All IsPlainNode nodes
      → (env env' e : Env T) → Agree env env'
      → Bound runtime env' more
      → eval runtime env nodes ≡ some e
      → Simulates env' e new
  unfolding eval
  Expands-Simulates finished plain env env' e a b h =
      (env', refl, subst (λ x. Agree x env') (some-injective _ _ h) a)
  Expands-Simulates (copied {node} {rest} {new} {more} not_layer x) plain env env' e a b h =
      let (e1, ran, h1) = eval-head runtime env e node rest h in
      let step = eval_node-Copied runtime env env' e1 node plain.0 a ran in
      let (e', ran', a') =
        Expands-Simulates x plain.1 e1 step.env1 e step.agrees
          (Bound-frame runtime env' step.env1 more (names-Copied runtime x node plain.0 step) b)
          h1 in
      (e', eval-step runtime env' step.env1 node new step.runs ∙ ran', a')
  Expands-Simulates (expanded {node} {rest} {new} {more} o l x) plain env env' e a b h =
      let (e1, ran, h1) = eval-head runtime env e node rest h in
      let shape = operands-cases node.inputs node.outputs o l.shape in
      let (px, ps, pb) = operands-plain node.inputs node.outputs o shape plain.0.inputs in
      let pr = operands-result node.inputs node.outputs o shape plain.0.outputs in
      let (dom, op) = layer_tests node l.layer in
      let step =
        layer_lem runtime d spec env env' e1 node o dom op l.last_axis l.stash l.shape
          (record {
            plain_x = px;
            plain_scale = ps;
            plain_bias = pb;
            has_axes = b.0;
            has_epsilon = b.1.0;
          })
          a ran in
      let kept =
        names-All runtime x (λ y. step.env1 y ≡ env' y)
          (λ r.
            step.frames (prefix_of r <> "axes") (λ name st eq. (st o.result r).0 (sym eq))
              (λ eq. plain_ne o.result r "axes" pr (sym eq)))
          (λ r.
            step.frames (prefix_of r <> "epsilon") (λ name st eq. (st o.result r).1 (sym eq))
              (λ eq. plain_ne o.result r "epsilon" pr (sym eq))) in
      let (e', ran', a') =
        Expands-Simulates x plain.1 e1 step.env1 e step.agrees
          (Bound-frame runtime env' step.env1 more kept b.1.1) h1 in
      (e', step.runs new ∙ ran', a')

  -- What the tool needs of a model: no name of a node has the mark of the expansion, and no two
  -- layers write the same output.
  pub record IsSuitable (model : Model F T) : Type 0 where
    pub plain : All IsPlainNode model.nodes
    pub distinct : Distinct (layer_results model.nodes)

  -- Take a model that `expand_layer_norm` accepts, whose nodes have no name with the tool's prefix,
  -- and whose layers have distinct outputs. Whenever the original graph runs on some inputs, under a
  -- runtime whose LayerNormalization is the function body of the specification, the rewritten graph
  -- runs on them too, and every name without the prefix stands for the same tensor.
  pub expand_layer_norm-Simulates :
      (model model' : Model F T) (n : ℕ)
      → expand_layer_norm d model ≡ ok (model', n)
      → IsSuitable model
      → (inputs e : Env T)
      → eval runtime (load runtime inputs model.initializers) model.nodes ≡ some e
      → (e' : Env T) × (eval runtime (load runtime inputs model'.initializers) model'.nodes
          ≡ some e')
        × Agree e e'
  expand_layer_norm-Simulates model model' n accepted suitable inputs e h =
      let acc = expand_layer_norm-Accepted d model model' n accepted in
      let env = load runtime inputs model.initializers in
      let env' = load runtime env acc.more in
      let (e', ran, agree) =
        Expands-Simulates acc.expands suitable.plain env env' e (load-Agree runtime acc.expands env)
          (load-Bound_of_Expands runtime acc.expands env suitable.distinct) h in
      (
        e',
        subst (λ x. eval runtime x model'.nodes ≡ some e')
            (sym (
              ap (load runtime inputs) acc.inits_eq
              ∙ load-append runtime inputs model.initializers acc.more))
            ran,
        agree,
      )
