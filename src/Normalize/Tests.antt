-- ===== src/Normalize/Tests.antt =====
-- The expansion of a graph of fifty layers, run on terms: a tensor is the expression that made it.
use laya_rs.Base.{
  ℕ, zero, suc, ◌≡◌, ◌≢◌, refl, sym, ap, ◌∙◌, not, Bool, true, ◌&&◌, Option, none, some, ℕ_discrete,
  List, [], ◌∷◌, String, ◌<>◌, arith, ◌==◌, string_eq, if◌then◌else◌, All,
}
use Prim.Native.Char.{code}
use text.Mathlib.TextLemmas.{cons-append}
use mathlib.Core.Option.{some-injective}
use laya_rs.Base.Int.{ℤ, negsuc}
use laya_rs.Base.Raises.{Raises, ok}
use laya_rs.Normalize.{Attribute, Node, Constant, Model, Files, get_epsilon, expand_layer_norm}
use laya_rs.Normalize.Meaning.{Runtime, Env, eval, eval_node, load, Body, FollowsSpecification}
use laya_rs.Normalize.Layer.{Agree}
use laya_rs.Normalize.Names.{IsPlain}
use laya_rs.Normalize.Constants.{Distinct, layer_results}
use text.Mathlib.Text.{◌==◌ as str_eq}
use text.Mathlib.TextEquality.{eq_iff}
use laya_rs.Base.Dict
use laya_rs.Normalize.Safety.{run, Outcome, rewrite-keeps, rewrite-Outcome}
use laya_rs.Normalize.Whole.{IsPlainNode, IsSuitable, expand_layer_norm-Simulates}

data Term : Type 0 where
  input : String → Term
  int64s : List ℤ → Term
  float32 : ℕ → Term
  apply1 : String → Term → Term
  apply2 : String → Term → Term → Term

abbrev normalize_term : Term → Term → Term → Term
normalize_term epsilon x scale =
    let axes = Term.int64s (negsuc 0 ∷ []) in
    let centered = apply2 "Sub" x (apply2 "ReduceMean" x axes) in
    let variance = apply2 "ReduceMean" (apply2 "Mul" centered centered) axes in
    let root = apply1 "Reciprocal" (apply1 "Sqrt" (apply2 "Add" variance epsilon)) in
    apply2 "Mul" (apply2 "Mul" centered root) scale

abbrev run_term : String → String → List (Attribute ℕ) → List Term → Option (List Term)
run_term domain op attrs (x ∷ s ∷ []) =
    if op == "LayerNormalization"
    then some (normalize_term (Term.float32 (get_epsilon 5 attrs)) x s ∷ [])
    else some (apply2 op x s ∷ [])
run_term domain op attrs (x ∷ s ∷ b ∷ []) =
    some (apply2 "Add" (normalize_term (Term.float32 (get_epsilon 5 attrs)) x s) b ∷ [])
run_term domain op attrs (x ∷ []) =
    if op == "Identity" then some (x ∷ []) else some (apply1 op x ∷ [])
run_term domain op attrs _ = none

abbrev constant_term : Constant ℕ Term → Term
constant_term (Constant.given t) = t
constant_term (Constant.int64s l) = Term.int64s l
constant_term (Constant.float32 f) = Term.float32 f

abbrev terms : Runtime ℕ Term
terms = record { run = run_term; constant = constant_term }

body :
    (epsilon : ℕ) (x s : Term)
    → Body terms
        (Term.int64s (negsuc 0 ∷ []))
        (Term.float32 epsilon)
        x
        s
        (normalize_term (Term.float32 epsilon) x s)
unfolding string_eq
body epsilon x s =
    let axes = Term.int64s (negsuc 0 ∷ []) in
    let centered = apply2 "Sub" x (apply2 "ReduceMean" x axes) in
    let variance = apply2 "ReduceMean" (apply2 "Mul" centered centered) axes in
    let root = apply1 "Reciprocal" (apply1 "Sqrt" (apply2 "Add" variance (Term.float32 epsilon))) in
    record {
      mean = apply2 "ReduceMean" x axes;
      d = centered;
      dd = apply2 "Mul" centered centered;
      var = variance;
      var_eps = apply2 "Add" variance (Term.float32 epsilon);
      std_dev = apply1 "Sqrt" (apply2 "Add" variance (Term.float32 epsilon));
      inv = root;
      normalized = apply2 "Mul" centered root;
      mean_eq = refl;
      d_eq = refl;
      dd_eq = refl;
      var_eq = refl;
      var_eps_eq = refl;
      std_dev_eq = refl;
      inv_eq = refl;
      normalized_eq = refl;
      scaled_eq = refl;
    }

terms-FollowsSpecification : FollowsSpecification terms 5
unfolding string_eq
terms-FollowsSpecification = record {
  without_bias =
      λ attrs x s outs a b h. (_, sym (some-injective _ _ h), body (get_epsilon 5 attrs) x s);
  with_bias = λ attrs x s c outs a b h.
      (_, _, sym (some-injective _ _ h), body (get_epsilon 5 attrs) x s, refl);
  identity = λ t. refl;
}

-- y, yy, yyy, ...
abbrev label : ℕ → String
label zero = "y"
label (suc n) = "y" <> label n

abbrev layer : ℕ → Node ℕ
layer k = record {
  domain = "";
  op_type = "LayerNormalization";
  inputs = "x" ∷ "gamma" ∷ [];
  outputs = label k ∷ [];
  name = "";
  attributes = Attribute.epsilon 1 ∷ [];
}

abbrev layers : ℕ → List (Node ℕ)
layers zero = []
layers (suc n) = layer n ∷ layers n

abbrev fifty_layers : Model ℕ Term
fifty_layers = record { nodes = layers 50; initializers = [] }

expanded_layers : Model ℕ Term
expanded_layers = elim (expand_layer_norm 5 fifty_layers) [
  | ok (m, n) ↦ m
  | Raises.raise e ↦ fifty_layers
]

is_expanded : expand_layer_norm 5 fifty_layers ≡ ok (expanded_layers, 50)
unfolding expand_layer_norm ℕ_discrete string_eq expanded_layers
is_expanded = refl

lead : String → ℕ
lead String.[] = 0
lead (String.◌∷◌ c s) = code c

plain : (s : String) → lead s ≢ 108 → IsPlain s
unfolding lead
plain s differs rest e = differs (ap lead e ∙ ap lead (cons-append "l" "aya_norm_" rest))

lead-label : (n : ℕ) → lead (label n) ≡ 121
unfolding lead
lead-label zero = refl
lead-label (suc n) = ap lead (cons-append "y" "" (label n))

layers-plain : (n : ℕ) → All IsPlainNode (layers n)
unfolding lead
layers-plain zero = tt
layers-plain (suc n) = (
  record {
    inputs = (plain "x" (omega arith), (plain "gamma" (omega arith), tt));
    outputs = (plain (label n) (omega (arith, lead-label n)), tt);
  },
  layers-plain n,
)

-- Whether no text stands twice in a list.
all_ne : String → List String → Bool
all_ne s [] = true
all_ne s (t ∷ l) = not (str_eq s t) && all_ne s l

no_duplicate : List String → Bool
unfolding all_ne
no_duplicate [] = true
no_duplicate (s ∷ l) = all_ne s l && no_duplicate l

all_ne-All : (s : String) (l : List String) → all_ne s l ≡ true → All (λ t. s ≢ t) l
unfolding all_ne
all_ne-All s [] h = tt
all_ne-All s (t ∷ l) h = (λ e. ground (arith, eq_iff s t), all_ne-All s l (ground arith))

no_duplicate-Distinct : (l : List String) → no_duplicate l ≡ true → Distinct l
unfolding no_duplicate
no_duplicate-Distinct [] h = tt
no_duplicate-Distinct (s ∷ l) h =
    (all_ne-All s l (ground arith), no_duplicate-Distinct l (ground arith))

fifty_layers-IsSuitable : IsSuitable terms 5 terms-FollowsSpecification fifty_layers
unfolding no_duplicate layer_results string_eq
fifty_layers-IsSuitable = record {
  plain = layers-plain 50;
  distinct = no_duplicate-Distinct (layer_results (layers 50)) refl;
}

inputs : Env Term
inputs name = some (input name)

final : Env Term
unfolding eval string_eq
final = elim (eval terms (load terms inputs []) (layers 50)) [ none ↦ inputs | some e ↦ e ]

runs : eval terms (load terms inputs fifty_layers.initializers) fifty_layers.nodes ≡ some final
unfolding eval load string_eq final eval_node inputs
runs = refl

simulates_example :
    (e' : Env Term) × (eval terms
        (load terms inputs expanded_layers.initializers)
        expanded_layers.nodes
      ≡ some e')
    × Agree final e'
simulates_example =
    expand_layer_norm-Simulates terms 5 terms-FollowsSpecification fifty_layers expanded_layers 50
      is_expanded fifty_layers-IsSuitable inputs final runs

-- Every path is in one directory, and the checker accepts every graph.
abbrev home : String → String
home path = "models"

abbrev accept_all : Model ℕ Term → Raises (Unit {0})
accept_all m = ok tt

abbrev files : Files ℕ Term
files = ("raw.onnx", fifty_layers) ∷ []

rewrite_keeps_example :
    Dict.lookup "raw.onnx" (run 5 home accept_all "raw.onnx" "laya.onnx" files).1
    ≡ Dict.lookup "raw.onnx" files
unfolding Dict.lookup string_eq
rewrite_keeps_example = rewrite-keeps 5 home accept_all "raw.onnx" "laya.onnx" files "raw.onnx" refl

rewrite-Outcome_example : Outcome 5 home accept_all "raw.onnx" "laya.onnx" files
rewrite-Outcome_example = rewrite-Outcome 5 home accept_all "raw.onnx" "laya.onnx" files
