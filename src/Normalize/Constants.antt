-- ===== src/Normalize/Constants.antt =====
-- The constants that the expansion adds to the initializers: their names are distinct if the layers'
-- results are, so each name keeps its own constant when the model is loaded.
use laya_rs.Base.{
  ◌≡◌, ◌≢◌, refl, sym, ap, ◌∙◌, some, List, [], ◌∷◌, ◌++◌, String, ◌<>◌, arith, All, if◌then◌else◌,
  string_eq, subst,
}
use laya_rs.Base.Raises.{ok}
use laya_rs.Normalize.{Node, Initializers, Operands, operands, prefix_of, is_layer_norm}
use laya_rs.Normalize.Meaning.{Runtime, Env, bind, bind_self, bind_ne, load}
use laya_rs.Normalize.Names.{plain_ne, axes_ne_epsilon, prefix_of_inj}
use laya_rs.Normalize.Relation.{Expands, finished, copied, expanded}
use laya_rs.Normalize.Layer.{Agree}

-- No text stands twice in the list.
abbrev pub Distinct : List String → Type 0
Distinct [] = Unit
Distinct (x ∷ xs) = All (λ y. x ≢ y) xs × Distinct xs

module _ {F : Type 0} where
  -- The outputs of the layers of a graph.
  unfoldable pub layer_results : List (Node F) → List String
  layer_results [] = []
  layer_results (node ∷ rest) =
      (if is_layer_norm node then node.outputs else []) ++ layer_results rest

-- The names of the constants for layers with these results.
const_names : List String → List String
const_names [] = []
const_names (r ∷ rs) = (prefix_of r <> "axes") ∷ (prefix_of r <> "epsilon") ∷ const_names rs

operands-result :
    (ins outs : List String) (o : Operands) → operands ins outs ≡ ok o → outs ≡ o.result ∷ []
unfolding operands
operands-result (x ∷ s ∷ []) (y ∷ []) o h = ground arith
operands-result (x ∷ s ∷ b ∷ []) (y ∷ []) o h = ground arith
operands-result _ _ o h = cc

module _ {F T : Type 0} where
  abbrev pub names : Initializers F T → List String
  names [] = []
  names ((j, _) ∷ more) = j ∷ names more

  names-Expands :
      {d : F} {nodes new : List (Node F)} {more : Initializers F T}
      → Expands d nodes new more
      → names more ≡ const_names (layer_results nodes)
  unfolding const_names layer_results
  names-Expands finished = refl
  names-Expands (copied plain e) = rw plain (names-Expands e)
  names-Expands (expanded {node} o is_layer e) =
      rw (is_layer.layer, operands-result node.inputs node.outputs o is_layer.shape)
        (ap (λ l. (prefix_of o.result <> "axes") ∷ (prefix_of o.result <> "epsilon") ∷ l)
          (names-Expands e))

const_names-All :
    (P : String → Type 0) (rs : List String)
    → ((r : String) → P (prefix_of r <> "axes"))
    → ((r : String) → P (prefix_of r <> "epsilon"))
    → All P (const_names rs)
unfolding const_names
const_names-All P [] a e = tt
const_names-All P (r ∷ rs) a e = (a r, (e r, const_names-All P rs a e))

axes-All :
    (r : String) (rs : List String)
    → All (λ y. r ≢ y) rs
    → All (λ y. (prefix_of r <> "axes") ≢ y) (const_names rs)
unfolding const_names
axes-All r [] h = tt
axes-All r (s ∷ rs) h =
    (λ e. h.0 (prefix_of_inj r s "axes" e), (axes_ne_epsilon r s, axes-All r rs h.1))

epsilon-All :
    (r : String) (rs : List String)
    → All (λ y. r ≢ y) rs
    → All (λ y. (prefix_of r <> "epsilon") ≢ y) (const_names rs)
unfolding const_names
epsilon-All r [] h = tt
epsilon-All r (s ∷ rs) h = (
  λ e. axes_ne_epsilon s r (sym e),
  (λ e. h.0 (prefix_of_inj r s "epsilon" e), epsilon-All r rs h.1),
)

const_names-Distinct : (rs : List String) → Distinct rs → Distinct (const_names rs)
unfolding const_names
const_names-Distinct [] h = tt
const_names-Distinct (r ∷ rs) h =
    ((axes_ne_epsilon r r, axes-All r rs h.0), (epsilon-All r rs h.0, const_names-Distinct rs h.1))

module _ {F T : Type 0} (runtime : Runtime F T) where
  open runtime use {constant}

  -- Every constant of the list is found under its name.
  abbrev pub Bound : Env T → Initializers F T → Type 0
  Bound env [] = Unit
  Bound env ((j, c) ∷ more) = (env j ≡ some (constant c)) × Bound env more

  pub Bound-frame :
      (env env1 : Env T) (more : Initializers F T)
      → All (λ y. env1 y ≡ env y) (names more)
      → Bound env more
      → Bound env1 more
  Bound-frame env env1 [] same b = tt
  Bound-frame env env1 ((j, c) ∷ more) same b = (same.0 ∙ b.0, Bound-frame env env1 more same.1 b.1)

  load-frame :
      (env : Env T) (more : Initializers F T) (j : String)
      → All (λ y. j ≢ y) (names more)
      → load runtime env more j ≡ env j
  unfolding load
  load-frame env [] j h = refl
  load-frame env ((i, c) ∷ more) j h =
      load-frame (bind env i (constant c)) more j h.1 ∙ bind_ne env i j (constant c) h.0

  load-Bound :
      (env : Env T) (more : Initializers F T)
      → Distinct (names more)
      → Bound (load runtime env more) more
  unfolding load
  load-Bound env [] h = tt
  load-Bound env ((j, c) ∷ more) h =
      let env1 = bind env j (constant c) in
      (load-frame env1 more j h.0 ∙ bind_self env j (constant c), load-Bound env1 more h.1)

  pub load-append :
      (env : Env T) (xs ys : Initializers F T)
      → load runtime env (xs ++ ys) ≡ load runtime (load runtime env xs) ys
  unfolding load
  load-append env [] ys = refl
  load-append env ((j, c) ∷ xs) ys = load-append (bind env j (constant c)) xs ys

  module _ {d : F} {nodes new : List (Node F)} {more : Initializers F T}
      (e : Expands d nodes new more) where
    pub load-Bound_of_Expands :
        (env : Env T) → Distinct (layer_results nodes) → Bound (load runtime env more) more
    load-Bound_of_Expands env h =
        load-Bound env more
          (subst Distinct (sym (names-Expands e)) (const_names-Distinct (layer_results nodes) h))

    -- A property of all names that the expansion gives to constants.
    pub names-All :
        (P : String → Type 0)
        → ((r : String) → P (prefix_of r <> "axes"))
        → ((r : String) → P (prefix_of r <> "epsilon"))
        → All P (names more)
    names-All P a p =
        subst (All P) (sym (names-Expands e)) (const_names-All P (layer_results nodes) a p)

    pub load-Agree : (env : Env T) → Agree env (load runtime env more)
    load-Agree env j q = sym (
        load-frame env more j
          (names-All (λ y. j ≢ y) (λ r. plain_ne j r "axes" q) (λ r. plain_ne j r "epsilon" q)))
