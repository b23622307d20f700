-- ===== src/Deploy/Fields.antt =====
-- `fields` in tools/release/smoke-macos.py, and the lines that `make_candidate` writes for it.
use laya_rs.Base.{
  Bool, false, Option, none, some, List, [], ◌∷◌, String, ◌<>◌, ◌==◌, nat_eq, string_eq,
  if◌then◌else◌, length, all,
}
use laya_rs.Base.Raises.{Raises, ok, raise, value_error, key_error}
use laya_rs.Base.Dict.{Dict, insert, lookup}
use laya_rs.Base.Text.{split_lines}
use Prim.Native.Char.{code}

-- `line.split("=", 1)`, when it gives two texts
unfoldable pub cut : String → Option (String × String)
cut String.[] = none
cut (String.◌∷◌ c s) =
    let rest = cut s in
    if code c == 61
    then some ("", s)
    else elim rest [ none ↦ none | some p ↦ some (String.◌∷◌ c p.0, p.1) ]

-- The dict of the lines, on top of the one that was read.
unfoldable pub collect : List String → Dict String String → Raises (Dict String String)
unfolding cut insert
collect [] d = ok d
collect (line ∷ lines) d = elim (cut line) [
  | none ↦ raise (value_error "dictionary update sequence element has length 1; 2 is required")
  | some p ↦ collect lines (insert p.0 p.1 d)
]

unfoldable pub parse_fields : String → Raises (Dict String String)
unfolding split_lines collect
parse_fields s = collect (split_lines s) []

-- `"".join(f"{k}={v}\n" for k, v in meta.items())`
unfoldable pub print_fields : Dict String String → String
print_fields [] = ""
print_fields ((k, v) ∷ d) = k <> ("=" <> (v <> ("\n" <> print_fields d)))

-- `d[key]`
unfoldable pub entry : String → Dict String String → Raises String
unfolding lookup
entry key d = elim (lookup key d) [ none ↦ raise key_error | some v ↦ ok v ]

-- The test of `a == b` for one key of `a`.
abbrev pub same_entry : Dict String String → String × String → Bool
unfolding lookup
same_entry b (k, v) = elim (lookup k b) [ none ↦ false | some w ↦ v == w ]

-- `a == b` of two dicts, without regard to order
unfoldable pub dict_eq : Dict String String → Dict String String → Bool
unfolding same_entry
dict_eq a b = if length a == length b then all (same_entry b) a else false
