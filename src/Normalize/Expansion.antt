-- ===== src/Normalize/Expansion.antt =====
-- The chain of one layer computes what the layer does, and binds only names with the mark.
use text.Mathlib.Text.{◌==◌ as str_eq}
use laya_rs.Base.{
  ◌≡◌, ◌≢◌, refl, ◌∙◌, false, Option, some, List, [], ◌∷◌, ◌++◌, String, ◌<>◌, string_eq,
}
use laya_rs.Normalize.{Node, Operands, make, make_output, chain, prefix_of}
use laya_rs.Normalize.Meaning.{
  Runtime, Env, bind, bind_self, bind_ne, eval_node, eval, Body, Yields,
}
use laya_rs.Normalize.Names.{
  IsPlain, plain_ne, same_prefix_ne, IsStep, mean-IsStep, centered-IsStep, squared-IsStep,
  variance-IsStep, adjusted-IsStep, sqrt-IsStep, reciprocal-IsStep, normalized-IsStep,
  scaled-IsStep,
}

module _ {F T : Type 0} (runtime : Runtime F T) where
  pub eval-step :
      (env env' : Env T) (node : Node F) (nodes : List (Node F))
      → eval_node runtime env node ≡ some env'
      → eval runtime env (node ∷ nodes) ≡ eval runtime env' nodes
  unfolding eval
  eval-step env env' node nodes e = rw (e, eval)

  pub eval-make_one :
      (env : Env T) (op a out : String) (t y : T)
      → env a ≡ some t
      → Yields runtime op (t ∷ []) y
      → eval_node runtime env (make op (a ∷ []) out) ≡ some (bind env out y)
  unfolding eval_node make
  eval-make_one env op a out t y ha h = rw (ha, h)

  pub eval-make_two :
      (env : Env T) (op a b out : String) (t u y : T)
      → env a ≡ some t
      → env b ≡ some u
      → Yields runtime op (t ∷ u ∷ []) y
      → eval_node runtime env (make op (a ∷ b ∷ []) out) ≡ some (bind env out y)
  unfolding eval_node make
  eval-make_two env op a b out t u y ha hb h = rw (ha, hb, h)

skip :
    {T : Type 0} (env : Env T) (name j : String) (v t : T)
    → env j ≡ some t
    → j ≢ name
    → bind env name v j ≡ some t
skip env name j v t h n = bind_ne env name j v n ∙ h

keep :
    {T : Type 0} (env : Env T) (p a b : String) (v t : T)
    → str_eq a b ≡ false
    → env (p <> a) ≡ some t
    → bind env (p <> b) v (p <> a) ≡ some t
keep env p a b v t differ h = skip env (p <> b) (p <> a) v t h (same_prefix_ne p a b differ)

-- One layer with operands `x` and `s`, in an environment that has its two constants.
module _ {F T : Type 0} (runtime : Runtime F T) (env : Env T) (r x s : String) {ax ep tx ts y : T}
    (body : Body runtime ax ep tx ts y) (hx : env x ≡ some tx) (hs : env s ≡ some ts)
    (ha : env (prefix_of r <> "axes") ≡ some ax) (he : env (prefix_of r <> "epsilon") ≡ some ep)
    (px : IsPlain x) (ps : IsPlain s) where
  open body use {
    mean, d, dd, var, var_eps, std_dev, inv, normalized, mean_eq, d_eq, dd_eq, var_eq, var_eps_eq,
    std_dev_eq, inv_eq, normalized_eq, scaled_eq,
  }

  abbrev pub at : String → String
  at name = prefix_of r <> name

  abbrev pub e1 : Env T
  e1 = bind env (at "mean") mean

  abbrev pub e2 : Env T
  e2 = bind e1 (at "centered") d

  abbrev pub e3 : Env T
  e3 = bind e2 (at "squared") dd

  abbrev pub e4 : Env T
  e4 = bind e3 (at "variance") var

  abbrev pub e5 : Env T
  e5 = bind e4 (at "adjusted") var_eps

  abbrev pub e6 : Env T
  e6 = bind e5 (at "sqrt") std_dev

  abbrev pub e7 : Env T
  e7 = bind e6 (at "reciprocal") inv

  abbrev pub e8 : Env T
  e8 = bind e7 (at "normalized") normalized

  abbrev pub e9 : Env T
  e9 = bind e8 (at "scaled") y

  s1 : eval_node runtime env (make "ReduceMean" (x ∷ at "axes" ∷ []) (at "mean")) ≡ some e1
  s1 = eval-make_two runtime env "ReduceMean" x (at "axes") (at "mean") tx ax mean hx ha mean_eq

  s2 : eval_node runtime e1 (make "Sub" (x ∷ at "mean" ∷ []) (at "centered")) ≡ some e2
  s2 =
      eval-make_two runtime e1 "Sub" x (at "mean") (at "centered") tx mean d
        (skip env (at "mean") x mean tx hx (plain_ne x r "mean" px))
        (bind_self env (at "mean") mean) d_eq

  s3 :
      eval_node runtime e2 (make "Mul" (at "centered" ∷ at "centered" ∷ []) (at "squared"))
      ≡ some e3
  s3 =
      let c = bind_self e1 (at "centered") d in
      eval-make_two runtime e2 "Mul" (at "centered") (at "centered") (at "squared") d d dd c c dd_eq

  abbrev p : String
  p = prefix_of r

  axes3 : e3 (at "axes") ≡ some ax
  axes3 =
      keep e2 p "axes" "squared" dd ax refl
        (keep e1 p "axes" "centered" d ax refl (keep env p "axes" "mean" mean ax refl ha))

  epsilon4 : e4 (at "epsilon") ≡ some ep
  epsilon4 = keep e3 p "epsilon" "variance" var ep refl (
      keep e2 p "epsilon" "squared" dd ep refl
        (keep e1 p "epsilon" "centered" d ep refl (keep env p "epsilon" "mean" mean ep refl he)))

  centered7 : e7 (at "centered") ≡ some d
  centered7 = keep e6 p "centered" "reciprocal" inv d refl (
      keep e5 p "centered" "sqrt" std_dev d refl (
        keep e4 p "centered" "adjusted" var_eps d refl (
          keep e3 p "centered" "variance" var d refl
            (keep e2 p "centered" "squared" dd d refl (bind_self e1 (at "centered") d)))))

  -- What is bound to a plain name before the chain is bound to it after.
  pub plain8 : (j : String) (t : T) → IsPlain j → env j ≡ some t → e8 j ≡ some t
  plain8 j t q h =
      skip e7 (at "normalized") j normalized t
        (skip e6 (at "reciprocal") j inv t
          (skip e5 (at "sqrt") j std_dev t
            (skip e4 (at "adjusted") j var_eps t
              (skip e3 (at "variance") j var t
                (skip e2 (at "squared") j dd t
                  (skip e1 (at "centered") j d t
                    (skip env (at "mean") j mean t h (plain_ne j r "mean" q))
                    (plain_ne j r "centered" q))
                  (plain_ne j r "squared" q))
                (plain_ne j r "variance" q))
              (plain_ne j r "adjusted" q))
            (plain_ne j r "sqrt" q))
          (plain_ne j r "reciprocal" q))
        (plain_ne j r "normalized" q)

  s4 :
      eval_node runtime e3 (make "ReduceMean" (at "squared" ∷ at "axes" ∷ []) (at "variance"))
      ≡ some e4
  s4 =
      eval-make_two runtime e3 "ReduceMean" (at "squared") (at "axes") (at "variance") dd ax var
        (bind_self e2 (at "squared") dd) axes3 var_eq

  s5 :
      eval_node runtime e4 (make "Add" (at "variance" ∷ at "epsilon" ∷ []) (at "adjusted"))
      ≡ some e5
  s5 =
      eval-make_two runtime e4 "Add" (at "variance") (at "epsilon") (at "adjusted") var ep var_eps
        (bind_self e3 (at "variance") var) epsilon4 var_eps_eq

  s6 : eval_node runtime e5 (make "Sqrt" (at "adjusted" ∷ []) (at "sqrt")) ≡ some e6
  s6 =
      eval-make_one runtime e5 "Sqrt" (at "adjusted") (at "sqrt") var_eps std_dev
        (bind_self e4 (at "adjusted") var_eps) std_dev_eq

  s7 : eval_node runtime e6 (make "Reciprocal" (at "sqrt" ∷ []) (at "reciprocal")) ≡ some e7
  s7 =
      eval-make_one runtime e6 "Reciprocal" (at "sqrt") (at "reciprocal") std_dev inv
        (bind_self e5 (at "sqrt") std_dev) inv_eq

  s8 :
      eval_node runtime e7 (make "Mul" (at "centered" ∷ at "reciprocal" ∷ []) (at "normalized"))
      ≡ some e8
  s8 =
      eval-make_two runtime e7 "Mul" (at "centered") (at "reciprocal") (at "normalized") d inv
        normalized centered7 (bind_self e6 (at "reciprocal") inv) normalized_eq

  s9 : eval_node runtime e8 (make "Mul" (at "normalized" ∷ s ∷ []) (at "scaled")) ≡ some e9
  s9 =
      eval-make_two runtime e8 "Mul" (at "normalized") s (at "scaled") normalized ts y
        (bind_self e7 (at "normalized") normalized) (plain8 s ts ps hs) scaled_eq

  -- The chain up to its last node.
  pub eval-chain :
      (bias : Option String) (rest : List (Node F))
      → let o : Operands = record { x = x; scale = s; bias = bias; result = r } in
        eval runtime env (chain (prefix_of r) o ++ rest)
        ≡ eval runtime e9 (make_output (prefix_of r) o ∷ rest)
  unfolding chain
  eval-chain bias rest =
      eval-step runtime env e1 _ _ s1
      ∙ eval-step runtime e1 e2 _ _ s2
      ∙ eval-step runtime e2 e3 _ _ s3
      ∙ eval-step runtime e3 e4 _ _ s4
      ∙ eval-step runtime e4 e5 _ _ s5
      ∙ eval-step runtime e5 e6 _ _ s6
      ∙ eval-step runtime e6 e7 _ _ s7
      ∙ eval-step runtime e7 e8 _ _ s8
      ∙ eval-step runtime e8 e9 _ _ s9

  -- Every name that the chain does not bind keeps its tensor.
  pub frame : (j : String) → ((name : String) → IsStep name → j ≢ at name) → e9 j ≡ env j
  frame j other =
      bind_ne e8 (at "scaled") j y (other "scaled" scaled-IsStep)
      ∙ bind_ne e7 (at "normalized") j normalized (other "normalized" normalized-IsStep)
      ∙ bind_ne e6 (at "reciprocal") j inv (other "reciprocal" reciprocal-IsStep)
      ∙ bind_ne e5 (at "sqrt") j std_dev (other "sqrt" sqrt-IsStep)
      ∙ bind_ne e4 (at "adjusted") j var_eps (other "adjusted" adjusted-IsStep)
      ∙ bind_ne e3 (at "variance") j var (other "variance" variance-IsStep)
      ∙ bind_ne e2 (at "squared") j dd (other "squared" squared-IsStep)
      ∙ bind_ne e1 (at "centered") j d (other "centered" centered-IsStep)
      ∙ bind_ne env (at "mean") j mean (other "mean" mean-IsStep)

  pub scaled9 : e9 (at "scaled") ≡ some y
  scaled9 = bind_self e8 (at "scaled") y
