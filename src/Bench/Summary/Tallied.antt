-- ===== src/Bench/Summary/Tallied.antt =====
-- What the counter of `summarize` counts of a text.
use laya_rs.Base.{
  ap, sym, ◌∙◌, subst, false, inl, inr, Bool-cases, ==_sound, ==_refl, ℕ, ◌+◌, ◌≡◌, ◌≢◌, refl,
  String, Bool, true, List, [], ◌∷◌, arith, nat_eq, string_eq, if◌then◌else◌, count,
}
use laya_rs.Base.Raises.{Raises, ok, raise, type_error}
use laya_rs.Base.Json.{Json, null, boolean, number, text, array, object, json_eq}
use laya_rs.Bench.Summary.{Counter, is_text, is_hashable, tally, add_one, count_up}

is_text-eq : (name : String) (k : Json) → is_text name k ≡ true → k ≡ text name
is_text-eq name null h = cc
is_text-eq name (boolean b) h = cc
is_text-eq name (number n) h = cc
is_text-eq name (text s) h = ap text (sym (==_sound name s h))
is_text-eq name (array xs) h = cc
is_text-eq name (object fs) h = cc

-- Only the same text is equal to a text.
eq-text : (unit : ℕ) (k : Json) (name : String) → json_eq unit k (text name) ≡ true → k ≡ text name
unfolding json_eq
eq-text unit null name h = cc
eq-text unit (boolean true) name h = cc
eq-text unit (boolean false) name h = cc
eq-text unit (number n) name h = cc
eq-text unit (text s) name h = ap text (==_sound s name h)
eq-text unit (array xs) name h = cc
eq-text unit (object fs) name h = cc

json_eq-text : (unit : ℕ) (name : String) (k : Json) → json_eq unit (text name) k ≡ is_text name k
unfolding json_eq
json_eq-text unit name null = refl
json_eq-text unit name (boolean b) = refl
json_eq-text unit name (number n) = refl
json_eq-text unit name (text s) = refl
json_eq-text unit name (array xs) = refl
json_eq-text unit name (object fs) = refl

abbrev pub one_if : Bool → ℕ
one_if b = if b then 1 else 0

differ : ◌≢◌ {A = Bool} true false
differ h = cc

is_text-own : (name : String) → is_text name (text name) ≡ true
is_text-own name = ==_refl name

-- Equal keys are the same texts.
is_text-cong :
    (unit : ℕ) (name : String) (k j : Json)
    → json_eq unit k j ≡ true
    → is_text name k ≡ is_text name j
is_text-cong unit name k j h = elim (Bool-cases (is_text name k)) [
  | inl same ↦
      same
      ∙ sym (
          sym (json_eq-text unit name j)
          ∙ subst (λ i. json_eq unit i j ≡ true) (is_text-eq name k same) h)
  | inr other ↦ elim (Bool-cases (is_text name j)) [
    | inl same ↦
        let k_eq : k ≡ text name =
          eq-text unit k name (subst (λ i. json_eq unit k i ≡ true) (is_text-eq name j same) h) in
        absurd (differ (sym (is_text-own name) ∙ sym (ap (is_text name) k_eq) ∙ other))
    | inr neither ↦ other ∙ sym neither
  ]
]

-- A key that differs from a key of the counter is not the same text.
is_text-other :
    (unit : ℕ) (name : String) (k j : Json)
    → json_eq unit k j ≡ false
    → is_text name j ≡ true
    → is_text name k ≡ false
is_text-other unit name k j h same = elim (Bool-cases (is_text name k)) [
  | inl equal ↦ absurd (
      differ (
        sym same
        ∙ sym (json_eq-text unit name j)
        ∙ ap (λ i. json_eq unit i j) (sym (is_text-eq name k equal))
        ∙ h))
  | inr distinct ↦ distinct
]

tally-add_one :
    (unit : ℕ) (k : Json) (d : Counter) (name : String)
    → tally unit (add_one unit k d) (text name) ≡ tally unit d (text name) + one_if (is_text name k)
unfolding tally add_one
tally-add_one unit k [] name = ground (arith, json_eq-text unit name k)
tally-add_one unit k ((j, n) ∷ d) name =
    let equal = json_eq-text unit name j in
    let rest = tally-add_one unit k d name in
    elim (Bool-cases (json_eq unit k j)) [
      | inl same ↦ let alike = is_text-cong unit name k j same in ground arith
      | inr other ↦ elim (Bool-cases (is_text name j)) [
        | inl found ↦ let none_of = is_text-other unit name k j other found in ground arith
        | inr missing ↦ ground arith
      ]
    ]

-- The counter holds for every text how often it was counted.
pub tally-count_up :
    (unit : ℕ) (keys : List Json) (d : Counter) (name : String) {e : Counter}
    → count_up unit keys d ≡ ok e
    → tally unit e (text name) ≡ tally unit d (text name) + count (is_text name) keys
unfolding count_up
tally-count_up unit [] d name {e} h =
    let same : d ≡ e = cc in
    subst (λ c. tally unit c (text name) ≡ tally unit d (text name) + 0) same (omega arith)
tally-count_up unit (k ∷ keys) d name {e} h = elim (Bool-cases (is_hashable k)) [
  | inl fine ↦
      let counted : count_up unit keys (add_one unit k d) ≡ ok e = rw fine at h in
      ground (
        arith,
        tally-add_one unit k d name,
        tally-count_up unit keys (add_one unit k d) name counted,
      )
  | inr bad ↦ absurd (raises e (rw bad at h))
]
  where
    raises : (e : Counter) → ◌≢◌ {A = Raises Counter} (raise type_error) (ok e)
    raises e h = cc
