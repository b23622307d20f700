-- ===== src/Normalize/Layer.antt =====
-- One layer, in an environment that agrees with the original one on all plain names.
use laya_rs.Base.{
  ◌≡◌, ◌≢◌, refl, sym, subst, subst₂, ◌∙◌, none, some, List, [], ◌∷◌, ◌++◌, String, ◌<>◌, arith,
  string_eq, ◌⊎◌, inl, inr, Option-cases,
}
use mathlib.Core.Option.{none-ne-some, some-injective}
use laya_rs.Base.Int.{pos, negsuc}
use laya_rs.Normalize.{
  Node, Attribute, Constant, Operands, make_output, chain, prefix_of, get_axis, get_stash_type,
  get_epsilon, operands,
}
use laya_rs.Base.Raises.{ok}
use laya_rs.Normalize.Meaning.{
  Runtime, Env, bind, bind_ne, collect, bind_all, eval_node, eval, Yields, FollowsSpecification,
}
use laya_rs.Normalize.Names.{IsPlain, plain_ne, IsStep}
use laya_rs.Normalize.Expansion.{eval-step, eval-chain, frame, scaled9, e9}

abbrev pub Agree : {T : Type 0} → Env T → Env T → Type 0
Agree env env' = (j : String) → IsPlain j → env j ≡ env' j

pub bind-Agree :
    {T : Type 0} (env env' : Env T) (name : String) (t : T)
    → Agree env env'
    → Agree (bind env name t) (bind env' name t)
unfolding bind
bind-Agree env env' name t a j q = ground (arith, a j q)

module _ {T : Type 0} (env : Env T) where
  collect_cons :
      (name : String) (names : List String) {args : List T}
      → collect env (name ∷ names) ≡ some args
      → (t : T) × (ts : List T) × (env name ≡ some t)
        × (collect env names ≡ some ts)
        × (args ≡ t ∷ ts)
  unfolding collect
  collect_cons name names {args} e = elim (Option-cases (env name)) [
    | inl missing ↦ absurd (none-ne-some _ (rw (missing, collect) at e))
    | inr (t, found) ↦ elim (Option-cases (collect env names)) [
      | inl missing ↦ absurd (none-ne-some _ (rw (found, missing, collect) at e))
      | inr (ts, rest) ↦
          (t, ts, found, rest, sym (some-injective _ _ (rw (found, rest, collect) at e)))
    ]
  ]

module _ {F T : Type 0} (runtime : Runtime F T) where
  pub eval_node-parts :
      (env e : Env T) (node : Node F)
      → eval_node runtime env node ≡ some e
      → (args : List T) × (outs : List T) × (collect env node.inputs ≡ some args)
        × (runtime.run node.domain node.op_type node.attributes args ≡ some outs)
        × (bind_all env node.outputs outs ≡ some e)
  unfolding eval_node
  eval_node-parts env e node h = elim (Option-cases (collect env node.inputs)) [
    | inl c ↦ absurd (none-ne-some _ (rw (c, eval_node) at h))
    | inr (args, c) ↦
        elim (Option-cases (runtime.run node.domain node.op_type node.attributes args)) [
          | inl r ↦ absurd (none-ne-some _ (rw (c, r, eval_node) at h))
          | inr (outs, r) ↦ (args, outs, c, r, rw (c, r, eval_node) at h)
        ]
  ]

module _ {F T : Type 0} (runtime : Runtime F T) where
  abbrev pub axes_of : T
  axes_of = runtime.constant (Constant.int64s (negsuc 0 ∷ []))

  abbrev pub epsilon_of : F → List (Attribute F) → T
  epsilon_of d attrs = runtime.constant (Constant.float32 (get_epsilon d attrs))

  -- After the chain: every plain name means what it means after the layer, and all names but those
  -- that the chain binds mean what they meant.
  pub record AfterLayer (env' e : Env T) (new : List (Node F)) (r : String) : Type 0 where
    pub env1 : Env T
    pub runs : (rest : List (Node F)) → eval runtime env' (new ++ rest) ≡ eval runtime env1 rest
    pub agrees : Agree e env1
    pub frames :
        (j : String)
        → ((name : String) → IsStep name → j ≢ (prefix_of r <> name))
        → j ≢ r
        → env1 j ≡ env' j

  -- What the names of a layer's operands are, and which constants its chain finds.
  pub record IsReady (env' : Env T) (d : F) (attrs : List (Attribute F)) (o : Operands)
      : Type 0 where
    pub plain_x : IsPlain o.x
    pub plain_scale : IsPlain o.scale
    pub plain_bias : (b : String) → o.bias ≡ some b → IsPlain b
    pub has_axes : env' (prefix_of o.result <> "axes") ≡ some axes_of
    pub has_epsilon : env' (prefix_of o.result <> "epsilon") ≡ some (epsilon_of d attrs)

module _ {F T : Type 0} (runtime : Runtime F T) (d : F)
    (spec : FollowsSpecification runtime d) where
  eval-identity :
      (env : Env T) (p : String) (o : Operands) (t : T)
      → o.bias ≡ none
      → env (p <> "scaled") ≡ some t
      → eval_node runtime env (make_output p o) ≡ some (bind env o.result t)
  unfolding make_output eval_node
  eval-identity env p o t no_bias h = rw (no_bias, h, spec.identity t)

  eval-add :
      (env : Env T) (p : String) (o : Operands) (b : String) (t u y : T)
      → o.bias ≡ some b
      → env (p <> "scaled") ≡ some t
      → env b ≡ some u
      → Yields runtime "Add" (t ∷ u ∷ []) y
      → eval_node runtime env (make_output p o) ≡ some (bind env o.result y)
  unfolding make_output eval_node
  eval-add env p o b t u y biased h k added = rw (biased, h, k, added)

  -- The end of the chain, from the tensor that the layer's scaled value is.
  finish :
      (env env' mid : Env T) (r : String) (y : T) (last : Node F) (new : List (Node F))
      → Agree env env'
      → ((j : String)
          → ((name : String) → IsStep name → j ≢ (prefix_of r <> name))
          → mid j ≡ env' j)
      → ((rest : List (Node F)) → eval runtime env' (new ++ rest) ≡ eval runtime mid (last ∷ rest))
      → eval_node runtime mid last ≡ some (bind mid r y)
      → AfterLayer runtime env' (bind env r y) new r
  finish env env' mid r y last new a fr runs ends = record {
    env1 = bind mid r y;
    runs = λ rest. runs rest ∙ eval-step runtime mid (bind mid r y) last rest ends;
    agrees = bind-Agree env mid r y (λ j q. a j q ∙ sym (fr j (λ name _. plain_ne j r name q)));
    frames = λ j other not_r. bind_ne mid r j y not_r ∙ fr j other;
  }

  module _ (env env' e : Env T) (r : String) (attrs : List (Attribute F))
      (ax : get_axis (negsuc 0) attrs ≡ negsuc 0) (st : get_stash_type (pos 1) attrs ≡ pos 1)
      (ha : env' (prefix_of r <> "axes") ≡ some (axes_of runtime))
      (he : env' (prefix_of r <> "epsilon") ≡ some (epsilon_of runtime d attrs))
      (a : Agree env env') where
    layer_without_bias :
        (x s : String) (tx ts : T) (outs : List T)
        → IsPlain x
        → IsPlain s
        → env x ≡ some tx
        → env s ≡ some ts
        → runtime.run "" "LayerNormalization" attrs (tx ∷ ts ∷ []) ≡ some outs
        → bind_all env (r ∷ []) outs ≡ some e
        → let o : Operands = record { x = x; scale = s; bias = none; result = r } in
          AfterLayer runtime env' e (chain (prefix_of r) o) r
    unfolding bind_all
    layer_without_bias x s tx ts outs px ps hx hs ran bound =
        let (y, eo, body) = spec.without_bias attrs tx ts outs ax st ran in
        let hx' = sym (a x px) ∙ hx in
        let hs' = sym (a s ps) ∙ hs in
        let mid = e9 runtime env' r x s body hx' hs' ha he px ps in
        let o : Operands = record { x = x; scale = s; bias = none; result = r } in
        subst (λ t. AfterLayer runtime env' t (chain (prefix_of r) o) r)
          (some-injective _ _ (rw (eo, bind_all) at bound))
          (finish env env' mid r y (make_output (prefix_of r) o) (chain (prefix_of r) o) a
            (frame runtime env' r x s body hx' hs' ha he px ps)
            (eval-chain runtime env' r x s body hx' hs' ha he px ps none)
            (eval-identity mid (prefix_of r) o y refl
              (scaled9 runtime env' r x s body hx' hs' ha he px ps)))

    layer_with_bias :
        (x s b : String) (tx ts tb : T) (outs : List T)
        → IsPlain x
        → IsPlain s
        → IsPlain b
        → env x ≡ some tx
        → env s ≡ some ts
        → env b ≡ some tb
        → runtime.run "" "LayerNormalization" attrs (tx ∷ ts ∷ tb ∷ []) ≡ some outs
        → bind_all env (r ∷ []) outs ≡ some e
        → let o : Operands = record { x = x; scale = s; bias = some b; result = r } in
          AfterLayer runtime env' e (chain (prefix_of r) o) r
    unfolding bind_all
    layer_with_bias x s b tx ts tb outs px ps pb hx hs hb ran bound =
        let (y, scaled, eo, body, added) = spec.with_bias attrs tx ts tb outs ax st ran in
        let hx' = sym (a x px) ∙ hx in
        let hs' = sym (a s ps) ∙ hs in
        let hb' = sym (a b pb) ∙ hb in
        let mid = e9 runtime env' r x s body hx' hs' ha he px ps in
        let o : Operands = record { x = x; scale = s; bias = some b; result = r } in
        let same = frame runtime env' r x s body hx' hs' ha he px ps in
        subst (λ t. AfterLayer runtime env' t (chain (prefix_of r) o) r)
          (some-injective _ _ (rw (eo, bind_all) at bound))
          (finish env env' mid r y (make_output (prefix_of r) o) (chain (prefix_of r) o) a same
            (eval-chain runtime env' r x s body hx' hs' ha he px ps (some b))
            (eval-add mid (prefix_of r) o b scaled tb y refl
              (scaled9 runtime env' r x s body hx' hs' ha he px ps)
              (same b (λ name _. plain_ne b r name pb) ∙ hb') added))

-- The two shapes of a layer that the assertion lets through.
abbrev pub TwoInputs : List String → List String → Operands → Type 0
TwoInputs ins outs o = (ins ≡ o.x ∷ o.scale ∷ []) × (outs ≡ o.result ∷ []) × (o.bias ≡ none)

abbrev pub ThreeInputs : List String → List String → Operands → Type 0
ThreeInputs ins outs o =
    (b : String) × (ins ≡ o.x ∷ o.scale ∷ b ∷ []) × (outs ≡ o.result ∷ []) × (o.bias ≡ some b)

pub operands-cases :
    (ins outs : List String) (o : Operands)
    → operands ins outs ≡ ok o
    → TwoInputs ins outs o ⊎ ThreeInputs ins outs o
unfolding operands
operands-cases (x ∷ s ∷ []) (y ∷ []) o h = inl (ground arith)
operands-cases (x ∷ s ∷ b ∷ []) (y ∷ []) o h = inr (b, ground arith, ground arith, ground arith)
operands-cases _ _ o h = cc

module _ {T : Type 0} (env : Env T) where
  collect_two :
      (x s : String) (args : List T)
      → collect env (x ∷ s ∷ []) ≡ some args
      → (t : T) × (u : T) × (env x ≡ some t) × (env s ≡ some u) × (args ≡ t ∷ u ∷ [])
  unfolding collect
  collect_two x s args c =
      let (t, l, hx, c1, a1) = collect_cons env x (s ∷ []) c in
      let (u, l', hs, c2, a2) = collect_cons env s [] c1 in (t, u, hx, hs, cc)

  collect_three :
      (x s b : String) (args : List T)
      → collect env (x ∷ s ∷ b ∷ []) ≡ some args
      → (t : T) × (u : T) × (v : T) × (env x ≡ some t)
        × (env s ≡ some u)
        × (env b ≡ some v)
        × (args ≡ t ∷ u ∷ v ∷ [])
  collect_three x s b args c =
      let (t, l, hx, c1, a1) = collect_cons env x (s ∷ b ∷ []) c in
      let (u, v, hs, hb, a2) = collect_two s b l c1 in (t, u, v, hx, hs, hb, cc)

module _ {F T : Type 0} (runtime : Runtime F T) (d : F)
    (spec : FollowsSpecification runtime d) where
  layer_of_parts :
      (env env' e : Env T) (attrs : List (Attribute F)) (ins names : List String) (o : Operands)
      (args outs : List T)
      → get_axis (negsuc 0) attrs ≡ negsuc 0
      → get_stash_type (pos 1) attrs ≡ pos 1
      → TwoInputs ins names o ⊎ ThreeInputs ins names o
      → IsReady runtime env' d attrs o
      → Agree env env'
      → collect env ins ≡ some args
      → runtime.run "" "LayerNormalization" attrs args ≡ some outs
      → bind_all env names outs ≡ some e
      → AfterLayer runtime env' e (chain (prefix_of o.result) o) o.result
  layer_of_parts env env' e attrs ins names o args outs ax st (inl (ei, eo, no_bias)) ready a c ran
        bound =
      let (tx, ts, hx, hs, all) = collect_two env o.x o.scale args (rw ei at c) in
      subst
        (λ b.
          AfterLayer runtime env' e (chain (prefix_of o.result) (record o { bias = b })) o.result)
        (sym no_bias)
        (layer_without_bias runtime d spec env env' e o.result attrs ax st ready.has_axes
          ready.has_epsilon a o.x o.scale tx ts outs ready.plain_x ready.plain_scale hx hs
          (rw all at ran) (rw eo at bound))
  layer_of_parts env env' e attrs ins names o args outs ax st (inr (b, ei, eo, biased)) ready a c
        ran bound =
      let (tx, ts, tb, hx, hs, hb, all) = collect_three env o.x o.scale b args (rw ei at c) in
      subst
        (λ b.
          AfterLayer runtime env' e (chain (prefix_of o.result) (record o { bias = b })) o.result)
        (sym biased)
        (layer_with_bias runtime d spec env env' e o.result attrs ax st ready.has_axes
          ready.has_epsilon a o.x o.scale b tx ts tb outs ready.plain_x ready.plain_scale
          (ready.plain_bias b biased) hx hs hb (rw all at ran) (rw eo at bound))

  pub layer_lem :
      (env env' e : Env T) (node : Node F) (o : Operands)
      → node.domain ≡ ""
      → node.op_type ≡ "LayerNormalization"
      → get_axis (negsuc 0) node.attributes ≡ negsuc 0
      → get_stash_type (pos 1) node.attributes ≡ pos 1
      → operands node.inputs node.outputs ≡ ok o
      → IsReady runtime env' d node.attributes o
      → Agree env env'
      → eval_node runtime env node ≡ some e
      → AfterLayer runtime env' e (chain (prefix_of o.result) o) o.result
  layer_lem env env' e node o no_domain is_layer ax st shape ready a h =
      let (args, outs, c, ran, bound) = eval_node-parts runtime env e node h in
      layer_of_parts env env' e node.attributes node.inputs node.outputs o args outs ax st
        (operands-cases node.inputs node.outputs o shape) ready a c
        (subst₂ (λ dom op. runtime.run dom op node.attributes args ≡ some outs) no_domain is_layer
          ran)
        bound
