-- ===== src/Normalize/Relation.antt =====
-- What the loop over the nodes makes of a list of nodes, as a relation without the accumulators.
use laya_rs.Base.{
  ℕ, ◌+◌, ◌≡◌, sym, subst, ◌∙◌, Bool, true, false, ◌&&◌, inl, inr, Bool-cases, List, [], ◌∷◌, ◌++◌,
  String, ◌<>◌, arith, ◌==◌, string_eq, nat_eq, count,
}
use mathlib.Core.List.{append-nil, append_assoc}
use laya_rs.Base.Int.{ℤ, pos, negsuc, int_eq}
use laya_rs.Base.Raises.{Raises, ok, ◌>>=◌, >>=-eq-ok, require-eq-ok}
use laya_rs.Normalize.{
  Node, Constant, Initializers, Operands, operands, chain, prefix_of, get_axis, get_stash_type,
  get_epsilon, is_layer_norm, layer_norm_nodes, expand_nodes, expand_layer_norm, Model, Attribute,
}

int_eq_sound : (a b : ℤ) → (a == b) ≡ true → a ≡ b
int_eq_sound a b h = ground arith

nat_eq_sound : (a b : ℕ) → (a == b) ≡ true → a ≡ b
nat_eq_sound a b h = ground arith

module _ {F : Type 0} where
  -- A layer over the last axis, with its operands.
  pub record IsLayer (node : Node F) (o : Operands) : Type 0 where
    pub layer : is_layer_norm node ≡ true
    pub last_axis : get_axis (negsuc 0) node.attributes ≡ negsuc 0
    pub stash : get_stash_type (pos 1) node.attributes ≡ pos 1
    pub shape : operands node.inputs node.outputs ≡ ok o

test_eq : (a b : Bool) → (a && b) ≡ true → (a ≡ true) × (b ≡ true)
test_eq a b h = ground arith

module _ {F T : Type 0} where
  -- The initializers of one layer.
  abbrev pub constants : F → List (Attribute F) → String → Initializers F T
  constants d attrs r =
      (prefix_of r <> "axes", Constant.int64s (negsuc 0 ∷ []))
      ∷ (prefix_of r <> "epsilon", Constant.float32 (get_epsilon d attrs))
      ∷ []

  pub data Expands (d : F) : List (Node F) → List (Node F) → Initializers F T → Type 0 where
    finished : Expands d [] [] []
    copied :
        {node : Node F} {rest new : List (Node F)} {more : Initializers F T}
        → is_layer_norm node ≡ false
        → Expands d rest new more
        → Expands d (node ∷ rest) (node ∷ new) more
    expanded :
        {node : Node F} {rest new : List (Node F)} {more : Initializers F T} (o : Operands)
        → IsLayer node o
        → Expands d rest new more
        → Expands d
            (node ∷ rest)
            (chain (prefix_of o.result) o ++ new)
            (constants d node.attributes o.result ++ more)

  -- The result of the loop: what was there before, then the expansion of the rest.
  pub record Grown (d : F) (nodes acc : List (Node F)) (inits : Initializers F T) (n : ℕ)
      (out : List (Node F) × Initializers F T × ℕ) : Type 0 where
    pub new : List (Node F)
    pub more : Initializers F T
    pub nodes_eq : out.0 ≡ acc ++ new
    pub inits_eq : out.1 ≡ inits ++ more
    pub count_eq : out.2 ≡ n + count is_layer_norm nodes
    pub expands : Expands d nodes new more

  layer_norm_nodes-ok :
      (d : F) (node : Node F) (inits : Initializers F T) (out : List (Node F) × Initializers F T)
      → is_layer_norm node ≡ true
      → layer_norm_nodes d node inits ≡ ok out
      → (o : Operands) × IsLayer node o
        × (out ≡ (chain (prefix_of o.result) o, inits ++ constants d node.attributes o.result))
  unfolding layer_norm_nodes
  layer_norm_nodes-ok d node inits out layer h =
      let (tests, h1) = require-eq-ok _ _ h in
      let (o, shape, h2) = >>=-eq-ok (operands node.inputs node.outputs) _ h1 in
      (
        o,
        record {
          layer = layer;
          last_axis = int_eq_sound _ _ (test_eq _ _ tests).0;
          stash = int_eq_sound _ _ (test_eq _ _ tests).1;
          shape = shape;
        },
        ground arith,
      )

  grow_copy :
      (d : F) (node : Node F) (rest acc : List (Node F)) (inits : Initializers F T) (n : ℕ)
      (out : List (Node F) × Initializers F T × ℕ)
      → is_layer_norm node ≡ false
      → Grown d rest (acc ++ node ∷ []) inits n out
      → Grown d (node ∷ rest) acc inits n out
  grow_copy d node rest acc inits n out plain g = record {
    new = node ∷ g.new;
    more = g.more;
    nodes_eq = g.nodes_eq ∙ append_assoc acc (node ∷ []) g.new;
    inits_eq = g.inits_eq;
    count_eq = rw plain g.count_eq;
    expands = Expands.copied plain g.expands;
  }

  grow_layer :
      (d : F) (node : Node F) (rest acc : List (Node F)) (inits : Initializers F T) (n : ℕ)
      (out : List (Node F) × Initializers F T × ℕ)
      → is_layer_norm node ≡ true
      → (layer_norm_nodes d node inits >>= λ p. expand_nodes d rest (acc ++ p.0) p.1 (n + 1))
        ≡ ok out
      → ((acc' : List (Node F)) (inits' : Initializers F T) (n' : ℕ)
          → expand_nodes d rest acc' inits' n' ≡ ok out
          → Grown d rest acc' inits' n' out)
      → Grown d (node ∷ rest) acc inits n out
  grow_layer d node rest acc inits n out layer h ih =
      let (p, e, h2) = >>=-eq-ok (layer_norm_nodes d node inits) _ h in
      let (o, is_layer, p_eq) = layer_norm_nodes-ok d node inits p layer e in
      let new = chain (prefix_of o.result) o in
      let consts = constants d node.attributes o.result in
      let g =
        ih (acc ++ new) (inits ++ consts) (n + 1)
          (subst (λ q. expand_nodes d rest (acc ++ q.0) q.1 (n + 1) ≡ ok out) p_eq h2) in
      record {
        new = new ++ g.new;
        more = consts ++ g.more;
        nodes_eq = g.nodes_eq ∙ append_assoc acc new g.new;
        inits_eq = g.inits_eq ∙ append_assoc inits consts g.more;
        count_eq = rw layer (omega (arith, g.count_eq));
        expands = Expands.expanded o is_layer g.expands;
      }

  pub expand_nodes-Grown :
      (d : F) (nodes acc : List (Node F)) (inits : Initializers F T) (n : ℕ)
      (out : List (Node F) × Initializers F T × ℕ)
      → expand_nodes d nodes acc inits n ≡ ok out
      → Grown d nodes acc inits n out
  unfolding expand_nodes
  expand_nodes-Grown d [] acc inits n out h = record {
    new = [];
    more = [];
    nodes_eq = rw append-nil (ground arith);
    inits_eq = rw append-nil (ground arith);
    count_eq = ground arith;
    expands = Expands.finished;
  }
  expand_nodes-Grown d (node ∷ rest) acc inits n out h = elim (Bool-cases (is_layer_norm node)) [
    | inl layer ↦
        grow_layer d node rest acc inits n out layer (rw (layer, expand_nodes) at h)
          (λ acc' inits' n' h'. expand_nodes-Grown d rest acc' inits' n' out h')
    | inr plain ↦
        grow_copy d node rest acc inits n out plain
          (expand_nodes-Grown d rest (acc ++ node ∷ []) inits n out (rw (plain, expand_nodes) at h))
  ]

module _ {F T : Type 0} where
  -- What an accepted model has become.
  pub record Accepted (d : F) (model model' : Model F T) (n : ℕ) : Type 0 where
    pub more : Initializers F T
    pub inits_eq : model'.initializers ≡ model.initializers ++ more
    pub fifty : (n ≡ 50) × (count is_layer_norm model.nodes ≡ 50)
    pub expands : Expands d model.nodes model'.nodes more

  accept :
      (d : F) (model model' : Model F T) (n : ℕ) (out : List (Node F) × Initializers F T × ℕ)
      → Grown d model.nodes [] model.initializers 0 out
      → out.2 ≡ 50
      → out.0 ≡ model'.nodes
      → out.1 ≡ model'.initializers
      → out.2 ≡ n
      → Accepted d model model' n
  accept d model model' n out g fifty en ei ec = record {
    more = g.more;
    inits_eq = sym ei ∙ g.inits_eq;
    fifty = omega (arith, g.count_eq);
    expands = subst (λ l. Expands d model.nodes l g.more) (sym g.nodes_eq ∙ en) g.expands;
  }

  pub expand_layer_norm-Accepted :
      (d : F) (model model' : Model F T) (n : ℕ)
      → expand_layer_norm d model ≡ ok (model', n)
      → Accepted d model model' n
  unfolding expand_layer_norm
  expand_layer_norm-Accepted d model model' n h =
      let (out, grew, h1) = >>=-eq-ok (expand_nodes d model.nodes [] model.initializers 0) _ h in
      let (fifty, h2) = require-eq-ok (out.2 == 50) _ h1 in
      accept d model model' n out
        (expand_nodes-Grown d model.nodes [] model.initializers 0 out grew) (nat_eq_sound _ _ fifty)
        (same_nodes _ _ _ _ h2) (same_inits _ _ _ _ h2) (same_count _ _ _ _ h2)
    where
      same_nodes :
          (m m' : Model F T) (a b : ℕ)
          → ◌≡◌ {A = Raises (Model F T × ℕ)} (ok (m, a)) (ok (m', b))
          → m.nodes ≡ m'.nodes
      same_nodes m m' a b e = ground arith

      same_inits :
          (m m' : Model F T) (a b : ℕ)
          → ◌≡◌ {A = Raises (Model F T × ℕ)} (ok (m, a)) (ok (m', b))
          → m.initializers ≡ m'.initializers
      same_inits m m' a b e = ground arith

      same_count :
          (m m' : Model F T) (a b : ℕ)
          → ◌≡◌ {A = Raises (Model F T × ℕ)} (ok (m, a)) (ok (m', b))
          → a ≡ b
      same_count m m' a b e = ground arith
