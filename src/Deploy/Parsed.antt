-- ===== src/Deploy/Parsed.antt =====
-- What `fields` reads can be written, and the metadata of a candidate is read as it was written.
use Prim.Native.Char.{Char, code}
use laya_rs.Base.{
  ◌≡◌, ◌⊎◌, refl, sym, ap, ◌∙◌, subst, nat_eq, Bool, true, false, ◌&&◌, Option, none, some, List,
  [], ◌∷◌, ◌<>◌, String, ◌==◌, ==_sound, string_eq, Bool-cases, inl, inr, arith, All,
}
use laya_rs.Base.Raises.{Raises, ok, raise, value_error}
use laya_rs.Base.Dict.{Dict, insert, lookup, lookup-insert}
use laya_rs.Base.Text.{is_break, lines_after, split_lines}
use laya_rs.Deploy.Fields.{cut, collect, parse_fields}
use laya_rs.Deploy.Printing.{is_line, is_key, is_line-append, IsField, Distinct}

abbrev IsLine : String → Type 0
IsLine s = is_line s ≡ true

one_char : (c : Char) → is_break (code c) ≡ false → is_line (String.◌∷◌ c String.[]) ≡ true
unfolding is_line
one_char c h = rw h refl

lines-AreLines :
    (s seen : String) (returned : Bool)
    → is_line seen ≡ true
    → All IsLine (lines_after seen returned s)
unfolding lines_after is_line
lines-AreLines String.[] seen returned h = elim (Bool-cases (seen == "")) [
  | inl empty ↦ rw empty tt
  | inr more ↦ rw more (h, tt)
]
lines-AreLines (String.◌∷◌ c s) seen returned h = elim (Bool-cases (returned && code c == 10)) [
  | inl second ↦ rw second (lines-AreLines s seen false h)
  | inr first ↦ elim (Bool-cases (is_break (code c))) [
    | inl ends ↦ rw (first, ends) (h, lines-AreLines s "" (code c == 13) refl)
    | inr goes_on ↦
        rw (first, goes_on)
          (lines-AreLines s (seen <> String.◌∷◌ c String.[]) false
            (is_line-append seen _ h (one_char c goes_on)))
  ]
]

pair_eq :
    {a b c d : String}
    → ◌≡◌ {A = Option (String × String)} (some (a, b)) (some (c, d))
    → (a ≡ c) × (b ≡ d)
pair_eq {a} {b} {c} {d} h =
    let e : ◌≡◌ {A = String × String} (a, b) (c, d) = cc in (ap (λ p. p.0) e, ap (λ p. p.1) e)

-- The first character of the line is the `=`, or belongs to the key.
cut_cases :
    (c : Char) (s k v : String)
    → cut (String.◌∷◌ c s) ≡ some (k, v)
    → (("" ≡ k) × (s ≡ v))
      ⊎ (((code c == 61) ≡ false) × ((j : String) × (cut s ≡ some (j, v)) × (String.◌∷◌ c j ≡ k)))
unfolding cut
cut_cases c s k v h = elim (Bool-cases (code c == 61)) [
  | inl first ↦ inl (pair_eq (sym (rw first refl) ∙ h))
  | inr other ↦ inr (other, rest_of (cut s) (sym (rw other refl) ∙ h))
]
  where
    rest_of :
        (found : Option (String × String))
        → elim found as (λ x. Option (String × String)) [
          | none ↦ none
          | some p ↦ some (String.◌∷◌ c p.0, p.1)
        ]
          ≡ some (k, v)
        → (j : String) × (found ≡ some (j, v)) × (String.◌∷◌ c j ≡ k)
    rest_of none e = cc
    rest_of (some (j, w)) e =
        let (same_key, same_value) = pair_eq e in (j, ap (λ x. some (j, x)) same_value, same_key)

pub empty_line : is_line "" ≡ true
unfolding is_line
empty_line = refl

empty_key : is_key "" ≡ true
unfolding is_key
empty_key = refl

cons_line :
    (c : Char) (s : String)
    → is_line (String.◌∷◌ c s) ≡ true
    → (is_break (code c) ≡ false) × (is_line s ≡ true)
unfolding is_line
cons_line c s h = (ground arith, ground arith)

line-cons :
    (c : Char) (s : String)
    → is_break (code c) ≡ false
    → is_line s ≡ true
    → is_line (String.◌∷◌ c s) ≡ true
unfolding is_line
line-cons c s h e = rw (h, e) refl

key-cons :
    (c : Char) (s : String)
    → (code c == 61) ≡ false
    → is_key s ≡ true
    → is_key (String.◌∷◌ c s) ≡ true
unfolding is_key
key-cons c s h e = rw (h, e) refl

cut-IsField : (line k v : String) → is_line line ≡ true → cut line ≡ some (k, v) → IsField (k, v)
unfolding cut
cut-IsField String.[] k v h e = cc
cut-IsField (String.◌∷◌ c s) k v h e = elim (cut_cases c s k v e) [
  | inl (key, value) ↦ record {
    key_line = subst IsLine key empty_line;
    key_eq = subst (λ x. is_key x ≡ true) key empty_key;
    value_line = subst IsLine value (cons_line c s h).1;
  }
  | inr (other, (j, found, key)) ↦
      let (here, rest) = cons_line c s h in
      let field = cut-IsField s j v rest found in
      record {
        key_line = subst IsLine key (line-cons c j here field.key_line);
        key_eq = subst (λ x. is_key x ≡ true) key (key-cons c j other field.key_eq);
        value_line = field.value_line;
      }
]

insert-fields :
    (k v : String) (d : Dict String String)
    → IsField (k, v)
    → All IsField d
    → All IsField (insert k v d)
unfolding insert
insert-fields k v [] h hs = (h, tt)
insert-fields k v ((j, w) ∷ d) h (first, hs) = elim (Bool-cases (k == j)) [
  | inl same ↦ rw same (h, hs)
  | inr other ↦ rw other (first, insert-fields k v d h hs)
]

insert-Distinct : (k v : String) (d : Dict String String) → Distinct d → Distinct (insert k v d)
unfolding insert Distinct lookup
insert-Distinct k v [] h = (refl, tt)
insert-Distinct k v ((j, w) ∷ d) (new, h) = elim (Bool-cases (k == j)) [
  | inl same ↦ rw same (subst (λ x. lookup x d ≡ none) (sym (==_sound k j same)) new, h)
  | inr other ↦
      rw other (lookup-insert j k v d ∙ rw (swapped j k other) new, insert-Distinct k v d h)
]
  where
    swapped : (j k : String) → (k == j) ≡ false → (j == k) ≡ false
    swapped j k h = ground arith

-- Whether every field can be written, and no key occurs twice.
pub record IsWritable (d : Dict String String) : Type 0 where
  pub fields : All IsField d
  pub distinct : Distinct d

pub insert-IsWritable :
    (k v : String) (d : Dict String String)
    → IsField (k, v)
    → IsWritable d
    → IsWritable (insert k v d)
insert-IsWritable k v d h writable = record {
  fields = insert-fields k v d h writable.fields;
  distinct = insert-Distinct k v d writable.distinct;
}

collect_next :
    (found : Option (String × String)) (lines : List String) (acc d : Dict String String)
    → ((k v : String) → found ≡ some (k, v) → collect lines (insert k v acc) ≡ ok d → IsWritable d)
    → elim found as (λ x. Raises (Dict String String)) [
      | none ↦ raise (value_error "dictionary update sequence element has length 1; 2 is required")
      | some p ↦ collect lines (insert p.0 p.1 acc)
    ]
      ≡ ok d
    → IsWritable d
collect_next none lines acc d again e = cc
collect_next (some (k, v)) lines acc d again e = again k v refl e

collect-IsWritable :
    (lines : List String) (acc d : Dict String String)
    → All IsLine lines
    → IsWritable acc
    → collect lines acc ≡ ok d
    → IsWritable d
unfolding collect
collect-IsWritable [] acc d h writable e = let same : acc ≡ d = cc in subst IsWritable same writable
collect-IsWritable (line ∷ lines) acc d (h, hs) writable e =
    collect_next (cut line) lines acc d
      (λ k v found.
        collect-IsWritable lines (insert k v acc) d hs
          (insert-IsWritable k v acc (cut-IsField line k v h found) writable))
      e

no_fields : Distinct []
unfolding Distinct
no_fields = tt

-- What `fields` reads can be written, and is read back as it is.
pub parse_fields-IsWritable :
    (s : String) (d : Dict String String) → parse_fields s ≡ ok d → IsWritable d
unfolding parse_fields split_lines
parse_fields-IsWritable s d e =
    collect-IsWritable (lines_after "" false s) [] d (lines-AreLines s "" false empty_line)
      (record { fields = tt; distinct = no_fields }) e
