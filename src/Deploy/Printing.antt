-- ===== src/Deploy/Printing.antt =====
-- Fields that are written and read again.
use Prim.Native.Char.{Char, code}
use text.Mathlib.TextLemmas.{cons-append, nil-append, append-nil, append_assoc}
use mathlib.Core.List.{append-nil as list_nil, append_assoc as list_assoc}
use laya_rs.Base.{
  ℕ, ◌≡◌, ◌≢◌, refl, sym, ap, ◌∙◌, subst, subst₂, nat_eq, Bool, true, false, not, ◌&&◌, Option,
  none, some, List, [], ◌∷◌, ◌++◌, ◌<>◌, String, ◌==◌, ==_sound, string_eq, Bool-cases, inl, inr,
  arith, All, if◌then◌else◌,
}
use laya_rs.Base.Raises.{ok}
use laya_rs.Base.Dict.{Dict, insert, lookup, lookup-insert}
use laya_rs.Base.Text.{is_break, lines_after, split_lines}
use laya_rs.Deploy.Fields.{cut, collect, parse_fields, print_fields}

-- No character of the text ends a line.
unfoldable pub is_line : String → Bool
unfolding is_break
is_line String.[] = true
is_line (String.◌∷◌ c s) = not (is_break (code c)) && is_line s

-- No `=` is in the text.
unfoldable pub is_key : String → Bool
is_key String.[] = true
is_key (String.◌∷◌ c s) = not (code c == 61) && is_key s

newline-cons : (t : String) → "\n" <> t ≡ String.◌∷◌ "\n" t
newline-cons t = cons-append "\n" "" t ∙ ap (String.◌∷◌ "\n") (nil-append t)

equals-cons : (t : String) → "=" <> t ≡ String.◌∷◌ "=" t
equals-cons t = cons-append "=" "" t ∙ ap (String.◌∷◌ "=") (nil-append t)

lines_after-break :
    (seen t : String) → lines_after seen false (String.◌∷◌ "\n" t) ≡ seen ∷ lines_after "" false t
unfolding lines_after is_break laya_rs.Base.ℕ_discrete
lines_after-break seen t = refl

lines_after-other :
    (seen : String) (c : Char) (s : String)
    → is_break (code c) ≡ false
    → lines_after seen false (String.◌∷◌ c s) ≡ lines_after (seen <> String.◌∷◌ c String.[]) false s
unfolding lines_after
lines_after-other seen c s h = rw h refl

appended :
    (seen : String) (c : Char) (s : String)
    → (seen <> String.◌∷◌ c String.[]) <> s ≡ seen <> String.◌∷◌ c s
appended seen c s =
    append_assoc seen (String.◌∷◌ c String.[]) s
    ∙ ap (λ r. seen <> r) (cons-append c "" s ∙ ap (String.◌∷◌ c) (nil-append s))

-- A line that is closed is the first one of the text.
pub line_of :
    (seen s t : String)
    → is_line s ≡ true
    → lines_after seen false (s <> ("\n" <> t)) ≡ (seen <> s) ∷ lines_after "" false t
unfolding is_line
line_of seen String.[] t h =
    ap (lines_after seen false) (nil-append ("\n" <> t) ∙ newline-cons t)
    ∙ lines_after-break seen t
    ∙ ap (λ l. l ∷ lines_after "" false t) (sym (append-nil seen))
line_of seen (String.◌∷◌ c s) t h =
    let first : is_break (code c) ≡ false = ground arith in
    let rest : is_line s ≡ true = ground arith in
    ap (lines_after seen false) (cons-append c s ("\n" <> t))
    ∙ lines_after-other seen c (s <> ("\n" <> t)) first
    ∙ line_of (seen <> String.◌∷◌ c String.[]) s t rest
    ∙ ap (λ l. l ∷ lines_after "" false t) (appended seen c s)

cut-equals : (v : String) → cut (String.◌∷◌ "=" v) ≡ some ("", v)
unfolding cut laya_rs.Base.ℕ_discrete
cut-equals v = refl

cut-other :
    (c : Char) (k s v : String)
    → (code c == 61) ≡ false
    → cut s ≡ some (k, v)
    → cut (String.◌∷◌ c s) ≡ some (String.◌∷◌ c k, v)
unfolding cut
cut-other c k s v h e = rw (h, e) refl

cut-key : (k v : String) → is_key k ≡ true → cut (k <> ("=" <> v)) ≡ some (k, v)
unfolding is_key
cut-key String.[] v h = ap cut (nil-append ("=" <> v) ∙ equals-cons v) ∙ cut-equals v
cut-key (String.◌∷◌ c k) v h =
    let first : (code c == 61) ≡ false = ground arith in
    let rest : is_key k ≡ true = ground arith in
    ap cut (cons-append c k ("=" <> v)) ∙ cut-other c k (k <> ("=" <> v)) v first (cut-key k v rest)

-- A key and a value that stand in one line, with the key before the first `=`.
pub record IsField (p : String × String) : Type 0 where
  pub key_line : is_line p.0 ≡ true
  pub key_eq : is_key p.0 ≡ true
  pub value_line : is_line p.1 ≡ true

-- No key occurs twice.
unfoldable pub Distinct : Dict String String → Type 0
Distinct [] = Unit {0}
Distinct ((k, v) ∷ d) = (lookup k d ≡ none) × Distinct d

pub is_line-append : (s t : String) → is_line s ≡ true → is_line t ≡ true → is_line (s <> t) ≡ true
unfolding is_line
is_line-append String.[] t h e = ap is_line (nil-append t) ∙ e
is_line-append (String.◌∷◌ c s) t h e =
    let first : not (is_break (code c)) ≡ true = ground arith in
    let rest : is_line s ≡ true = ground arith in
    ap is_line (cons-append c s t) ∙ rw (first, is_line-append s t rest e) refl

line_fields : Dict String String → List String
line_fields [] = []
line_fields ((k, v) ∷ d) = (k <> ("=" <> v)) ∷ line_fields d

equals_line : is_line "=" ≡ true
unfolding is_line is_break laya_rs.Base.ℕ_discrete
equals_line = refl

field_line : (k v : String) → IsField (k, v) → is_line (k <> ("=" <> v)) ≡ true
field_line k v h =
    is_line-append k ("=" <> v) h.key_line (is_line-append "=" v equals_line h.value_line)

one_line : (k v r : String) → k <> ("=" <> (v <> ("\n" <> r))) ≡ (k <> ("=" <> v)) <> ("\n" <> r)
one_line k v r =
    ap (λ x. k <> x) (sym (append_assoc "=" v ("\n" <> r)))
    ∙ sym (append_assoc k ("=" <> v) ("\n" <> r))

pub no_lines : lines_after "" false "" ≡ []
unfolding lines_after string_eq
no_lines = refl

-- The lines of the fields.
lines_after-print :
    (d : Dict String String) → All IsField d → lines_after "" false (print_fields d) ≡ line_fields d
unfolding print_fields line_fields
lines_after-print [] h = no_lines
lines_after-print ((k, v) ∷ d) (h, hs) =
    ap (lines_after "" false) (one_line k v (print_fields d))
    ∙ line_of "" (k <> ("=" <> v)) (print_fields d) (field_line k v h)
    ∙ ap (λ l. l ∷ lines_after "" false (print_fields d)) (nil-append (k <> ("=" <> v)))
    ∙ ap (λ ls. (k <> ("=" <> v)) ∷ ls) (lines_after-print d hs)

-- No key of `d` is one of `acc`.
Apart : Dict String String → Dict String String → Type 0
Apart acc d = (j w : String) → lookup j d ≡ some w → lookup j acc ≡ none

insert-new :
    (k v : String) (acc : Dict String String)
    → lookup k acc ≡ none
    → insert k v acc ≡ acc ++ ((k, v) ∷ [])
unfolding insert lookup
insert-new k v [] h = refl
insert-new k v ((j, w) ∷ acc) h = elim (Bool-cases (k == j)) [
  | inl same ↦ absurd (ground arith)
  | inr other ↦
      let rest : lookup k acc ≡ none = ground arith in rw (other, insert-new k v acc rest) refl
]

collect-line :
    (k v : String) (lines : List String) (acc : Dict String String)
    → is_key k ≡ true
    → collect ((k <> ("=" <> v)) ∷ lines) acc ≡ collect lines (insert k v acc)
unfolding collect
collect-line k v lines acc h = rw (cut-key k v h, collect) refl

collect_none : (acc : Dict String String) → collect [] acc ≡ ok acc
unfolding collect
collect_none acc = refl

lookup-head : (k v : String) (d : Dict String String) → lookup k ((k, v) ∷ d) ≡ some v
unfolding lookup
lookup-head k v d = ground arith

lookup-tail :
    (j k v : String) (d : Dict String String)
    → (j == k) ≡ false
    → lookup j ((k, v) ∷ d) ≡ lookup j d
unfolding lookup
lookup-tail j k v d h = rw h refl

Apart-insert :
    (k v : String) (d acc : Dict String String)
    → lookup k d ≡ none
    → Apart acc ((k, v) ∷ d)
    → Apart (insert k v acc) d
unfolding Apart
Apart-insert k v d acc new apart j w found = elim (Bool-cases (j == k)) [
  | inl same ↦
      absurd (none_ne_some (sym new ∙ ap (λ x. lookup x d) (sym (==_sound j k same)) ∙ found))
  | inr other ↦ lookup-insert j k v acc ∙ rw other (apart j w (lookup-tail j k v d other ∙ found))
]
  where
    none_ne_some : {u : String} → ◌≢◌ {A = Option String} none (some u)
    none_ne_some h = cc

nothing-Apart : (d : Dict String String) → Apart [] d
unfolding Apart lookup
nothing-Apart d j w h = refl

collect-print :
    (d acc : Dict String String)
    → All IsField d
    → Distinct d
    → Apart acc d
    → collect (line_fields d) acc ≡ ok (acc ++ d)
unfolding line_fields Distinct Apart
collect-print [] acc h distinct apart = collect_none acc ∙ ap ok (sym (list_nil acc))
collect-print ((k, v) ∷ d) acc (h, hs) (new, distinct) apart =
    let fresh : lookup k acc ≡ none = apart k v (lookup-head k v d) in
    collect-line k v (line_fields d) acc h.key_eq
    ∙ collect-print d (insert k v acc) hs distinct (Apart-insert k v d acc new apart)
    ∙ ap ok (ap (λ a. a ++ d) (insert-new k v acc fresh) ∙ list_assoc acc ((k, v) ∷ []) d)

-- Fields that are written are read back, if each stands in a line of its own, no key holds a `=`, and
-- no key occurs twice.
pub parse_fields-print :
    (d : Dict String String) → All IsField d → Distinct d → parse_fields (print_fields d) ≡ ok d
unfolding parse_fields split_lines
parse_fields-print d h distinct =
    ap (λ ls. collect ls []) (lines_after-print d h)
    ∙ collect-print d [] h distinct (nothing-Apart d)
