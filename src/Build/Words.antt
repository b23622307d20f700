-- ===== src/Build/Words.antt =====
-- The texts that tools/release/build-macos.py takes apart.
use Prim.Native.Char.{code}
use laya_rs.Base.{
  ℕ, zero, suc, Bool, true, false, not, ◌&&◌, ◌||◌, Option, none, some, List, [], ◌∷◌, String, ◌<>◌,
  ◌==◌, nat_eq, string_eq, if◌then◌else◌, leb, contains,
}
use laya_rs.Base.Int.{ℤ, pos, negsuc}
use laya_rs.Base.Json.{int_of}
use laya_rs.Base.Raises.{Raises, ok, raise}
use laya_rs.Base.Text.{is_space, behind, behind_last, starts_with, ends_with}

-- The longest part at the front without white space.
unfoldable pub first_word : String → String
unfolding is_space
first_word String.[] = ""
first_word (String.◌∷◌ c s) =
    let rest = first_word s in if is_space (code c) then "" else String.◌∷◌ c rest

-- What `\s+(\S+)` matches at the front of a text: the word, after a space or more.
unfoldable pub spaced_word : Bool → String → Option String
unfolding first_word
spaced_word spaced String.[] = none
spaced_word spaced (String.◌∷◌ c s) =
    let rest = spaced_word true s in
    if is_space (code c) then rest else if spaced then some (first_word (String.◌∷◌ c s)) else none

-- `re.search(r"minos\s+(\S+)", s)`, as the group
unfoldable pub find_minos : String → Option String
unfolding spaced_word behind
find_minos String.[] = none
find_minos (String.◌∷◌ c s) =
    let later = find_minos s in
    elim (behind "minos" (String.◌∷◌ c s)) [
      | none ↦ later
      | some rest ↦ elim (spaced_word false rest) [ none ↦ later | some word ↦ some word ]
    ]

-- `s.split(".")`, after the part that was read
unfoldable pub split_dots : String → String → List String
split_dots seen String.[] = seen ∷ []
split_dots seen (String.◌∷◌ c s) =
    let next = split_dots "" s in
    let more = split_dots (seen <> String.◌∷◌ c String.[]) s in
    if code c == 46 then seen ∷ next else more

-- `map(int, parts)`
unfoldable pub ints_of : List String → Raises (List ℤ)
unfolding int_of
ints_of [] = ok []
ints_of (s ∷ parts) = elim (int_of s) [
  | raise e ↦ raise e
  | ok n ↦ elim (ints_of parts) [ raise e ↦ raise e | ok ns ↦ ok (n ∷ ns) ]
]

-- `a < b`
unfoldable pub is_less : ℤ → ℤ → Bool
is_less (pos a) (pos b) = not (leb b a)
is_less (pos a) (negsuc b) = false
is_less (negsuc a) (pos b) = true
is_less (negsuc a) (negsuc b) = not (leb a b)

-- `xs > ys` of two tuples
unfoldable pub is_tuple_gt : List ℤ → List ℤ → Bool
unfolding is_less
is_tuple_gt [] ys = false
is_tuple_gt (x ∷ xs) [] = true
is_tuple_gt (x ∷ xs) (y ∷ ys) = is_less y x || (not (is_less x y) && is_tuple_gt xs ys)

-- `s.split(" (", 1)[0]`
unfoldable pub before_parenthesis : String → String
unfolding starts_with
before_parenthesis String.[] = ""
before_parenthesis (String.◌∷◌ c s) =
    let rest = before_parenthesis s in
    if starts_with " (" (String.◌∷◌ c s) then "" else String.◌∷◌ c rest

-- `s.split("/", 1)[1]`, where there is a stroke
unfoldable pub behind_stroke : String → Option String
behind_stroke String.[] = none
behind_stroke (String.◌∷◌ c s) = let rest = behind_stroke s in if code c == 47 then some s else rest

-- `path.name`
unfoldable pub name_of : String → String
unfolding behind_last
name_of path = elim (behind_last 47 path) [ none ↦ path | some name ↦ name ]

-- `path.suffix == ".dylib"`
unfoldable pub is_dylib : String → Bool
unfolding name_of ends_with
is_dylib path = ends_with ".dylib" (name_of path) && not (name_of path == ".dylib")

-- `directory / path`: an absolute path stays as it is
unfoldable pub joined : String → String → String
unfolding starts_with
joined directory path = if starts_with "/" path then path else directory <> ("/" <> path)

abbrev pub drop : {A : Type 0} → ℕ → List A → List A
drop zero xs = xs
drop (suc n) [] = []
drop (suc n) (x ∷ xs) = drop n xs

abbrev pub is_letter : ℕ → Bool
is_letter c = (leb 65 c && leb c 90) || (leb 97 c && leb c 122)

-- A character of `[A-Za-z0-9_./+-]`
abbrev pub is_safe_char : ℕ → Bool
is_safe_char c = is_letter c || (leb 48 c && leb c 57) || contains (95 ∷ 46 ∷ 47 ∷ 43 ∷ 45 ∷ []) c

unfoldable pub all_safe : String → Bool
all_safe String.[] = true
all_safe (String.◌∷◌ c s) = is_safe_char (code c) && all_safe s

-- `re.fullmatch(r"[A-Za-z0-9_./+-]+", name)`
unfoldable pub is_safe_name : String → Bool
unfolding all_safe
is_safe_name name = not (name == "") && all_safe name
