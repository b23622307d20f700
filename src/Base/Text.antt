-- ===== src/Base/Text.antt =====
-- What Python's str does, on texts: strip, the decimal digits of an int, join, and slices from the
-- front.
use Prim.Native.Nat.{ℕ, zero, suc, ◌+◌, ◌-◌, ◌*◌, ◌/◌, ◌%◌, ◌<◌}
use Prim.Native.Char.{code}
use Prim.Native.String.{String, ◌++◌ as ◌<>◌}
use text.Mathlib.TextLemmas.{cons-append, nil-append}
use mathlib.Core.Path.{◌≡◌, ap, ◌∙◌}
use mathlib.Core.Bool.{true, Bool, false, ◌&&◌, ◌||◌}
use mathlib.Core.List.{List, [], ◌∷◌}
use mathlib.Core.Option.{Option, none, some}
use native.Mathlib.Omega.{arith}
use laya_rs.Base.Equality.{◌==◌, if◌then◌else◌, string_eq, nat_eq, contains}
use laya_rs.Base.Tests.{ltb, leb, ltb→lt, Bool-cases}
use mathlib.Core.Logic.{inl, inr}

-- `str.isspace` of one character
unfoldable pub is_space : ℕ → Bool
is_space c =
    (leb 9 c && leb c 13)
    || (leb 28 c && leb c 32)
    || (leb 8192 c && leb c 8202)
    || contains (133 ∷ 160 ∷ 5760 ∷ 8232 ∷ 8233 ∷ 8239 ∷ 8287 ∷ 12288 ∷ []) c

unfoldable pub lstrip : String → String
unfolding is_space
lstrip String.[] = ""
lstrip (String.◌∷◌ c s) = let rest = lstrip s in if is_space (code c) then rest else String.◌∷◌ c s

unfoldable pub rstrip : String → String
unfolding is_space
rstrip String.[] = ""
rstrip (String.◌∷◌ c s) =
    let rest = rstrip s in if is_space (code c) && rest == "" then "" else String.◌∷◌ c rest

unfoldable pub strip : String → String
unfolding lstrip rstrip
strip s = lstrip (rstrip s)

-- `s[:n]`
unfoldable pub take_text : ℕ → String → String
take_text zero s = ""
take_text (suc n) String.[] = ""
take_text (suc n) (String.◌∷◌ c s) = String.◌∷◌ c (take_text n s)

-- The character of a number below ten.
abbrev pub digit : ℕ → String
digit zero = "0"
digit (suc zero) = "1"
digit (suc (suc zero)) = "2"
digit (suc (suc (suc zero))) = "3"
digit (suc (suc (suc (suc zero)))) = "4"
digit (suc (suc (suc (suc (suc zero))))) = "5"
digit (suc (suc (suc (suc (suc (suc zero)))))) = "6"
digit (suc (suc (suc (suc (suc (suc (suc zero))))))) = "7"
digit (suc (suc (suc (suc (suc (suc (suc (suc zero)))))))) = "8"
digit _ = "9"

-- `str(n)`: on fuel, one for each digit
unfoldable pub decimal_with : ℕ → ℕ → String
decimal_with zero n = ""
decimal_with (suc fuel) n =
    let front = decimal_with fuel (n / 10) in if ltb n 10 then digit n else front <> digit (n % 10)

unfoldable pub decimal : ℕ → String
unfolding decimal_with
decimal n = decimal_with (n + 1) n

-- `separator.join(texts)`
unfoldable pub join : String → List String → String
join separator [] = ""
join separator (s ∷ []) = s
join separator (s ∷ t ∷ rest) = s <> (separator <> join separator (t ∷ rest))

-- What is left of a text behind a prefix.
unfoldable pub behind : String → String → Option String
behind String.[] s = some s
behind (String.◌∷◌ c p) String.[] = none
behind (String.◌∷◌ c p) (String.◌∷◌ d s) = if code c == code d then behind p s else none

unfoldable pub ends_with : String → String → Bool
ends_with end String.[] = end == ""
ends_with end (String.◌∷◌ c s) = end == String.◌∷◌ c s || ends_with end s

-- `s.startswith(prefix)`
unfoldable pub starts_with : String → String → Bool
unfolding behind
starts_with prefix s = elim (behind prefix s) [ none ↦ false | some _ ↦ true ]

-- What stands behind the last `c` of a text.
unfoldable pub behind_last : ℕ → String → Option String
behind_last c String.[] = none
behind_last c (String.◌∷◌ d s) = elim (behind_last c s) [
  | some rest ↦ some rest
  | none ↦ if code d == c then some s else none
]

-- `part in s`
unfoldable pub has_part : String → String → Bool
unfolding starts_with
has_part part String.[] = part == ""
has_part part (String.◌∷◌ c s) = starts_with part (String.◌∷◌ c s) || has_part part s

-- Whether a character ends a line of `splitlines`.
unfoldable pub is_break : ℕ → Bool
is_break c = (leb 10 c && leb c 13) || contains (28 ∷ 29 ∷ 30 ∷ 133 ∷ 8232 ∷ 8233 ∷ []) c

-- The lines of a text, after the part of a line that was read and whether a `\r` stood before it.
unfoldable pub lines_after : String → Bool → String → List String
unfolding is_break
lines_after seen returned String.[] = if seen == "" then [] else seen ∷ []
lines_after seen returned (String.◌∷◌ c s) =
    let same_break = lines_after seen false s in
    let rest = lines_after "" (code c == 13) s in
    let more = lines_after (seen <> String.◌∷◌ c String.[]) false s in
    if returned && code c == 10 then same_break else if is_break (code c) then seen ∷ rest else more

-- `s.splitlines()`
unfoldable pub split_lines : String → List String
unfolding lines_after
split_lines s = lines_after "" false s

-- `s.split()`: the words between white space, after the part of a word that was read
unfoldable pub words_after : String → String → List String
unfolding is_space
words_after seen String.[] = if seen == "" then [] else seen ∷ []
words_after seen (String.◌∷◌ c s) =
    let rest = words_after "" s in
    let more = words_after (seen <> String.◌∷◌ c String.[]) s in
    if is_space (code c) then if seen == "" then rest else seen ∷ rest else more

unfoldable pub words : String → List String
unfolding words_after
words s = words_after "" s

-- The number that decimal digits stand for.
unfoldable pub value : ℕ → String → ℕ
value seen String.[] = seen
value seen (String.◌∷◌ c s) = value (10 * seen + (code c - 48)) s

unfoldable pub is_digits : String → Bool
is_digits String.[] = true
is_digits (String.◌∷◌ c s) = leb 48 (code c) && leb (code c) 57 && is_digits s

value-append : (seen : ℕ) (s t : String) → value seen (s <> t) ≡ value (value seen s) t
unfolding value
value-append seen String.[] t = ap (value seen) (nil-append t)
value-append seen (String.◌∷◌ c s) t =
    ap (value seen) (cons-append c s t) ∙ value-append (10 * seen + (code c - 48)) s t

value-digit : (seen n : ℕ) → n < 10 → value seen (digit n) ≡ 10 * seen + n
unfolding value
value-digit seen zero h = omega arith
value-digit seen (suc zero) h = omega arith
value-digit seen (suc (suc zero)) h = omega arith
value-digit seen (suc (suc (suc zero))) h = omega arith
value-digit seen (suc (suc (suc (suc zero)))) h = omega arith
value-digit seen (suc (suc (suc (suc (suc zero))))) h = omega arith
value-digit seen (suc (suc (suc (suc (suc (suc zero)))))) h = omega arith
value-digit seen (suc (suc (suc (suc (suc (suc (suc zero))))))) h = omega arith
value-digit seen (suc (suc (suc (suc (suc (suc (suc (suc zero)))))))) h = omega arith
value-digit seen (suc (suc (suc (suc (suc (suc (suc (suc (suc zero))))))))) h = omega arith
value-digit seen (suc (suc (suc (suc (suc (suc (suc (suc (suc (suc n)))))))))) h =
    absurd (omega arith)

value-decimal_with : (fuel n : ℕ) → n < fuel → value 0 (decimal_with fuel n) ≡ n
unfolding decimal_with
value-decimal_with zero n h = absurd (omega arith)
value-decimal_with (suc fuel) n h = elim (Bool-cases (ltb n 10)) [
  | inl small ↦ rw (small, decimal_with) (omega (arith, value-digit 0 n (ltb→lt n 10 small)))
  | inr big ↦
      rw (big, decimal_with)
        (value-append 0 (decimal_with fuel (n / 10)) (digit (n % 10))
          ∙ omega (
            arith,
            value-digit (value 0 (decimal_with fuel (n / 10))) (n % 10) (omega arith),
            value-decimal_with fuel (n / 10) (ltb_big n h big),
          ))
]
  where
    ltb_big : (m : ℕ) → m < suc fuel → ltb m 10 ≡ false → m / 10 < fuel
    ltb_big m small h = ground arith

-- The digits of a number stand for it, so the fuel is always enough.
pub value-decimal : (n : ℕ) → value 0 (decimal n) ≡ n
unfolding decimal
value-decimal n = value-decimal_with (n + 1) n (omega arith)
