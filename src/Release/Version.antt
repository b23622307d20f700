-- ===== src/Release/Version.antt =====
-- The pattern of a release version.
use laya_rs.Base.{[], ◌∷◌, ◌==◌, ℕ, Bool, true, false, ◌&&◌, ◌||◌, leb, String, contains, nat_eq}
use Prim.Native.Char.{code}

-- A character of the class at the pattern's end.
unfoldable pub is_tail : ℕ → Bool
is_tail c =
    (leb 65 c && leb c 90)
    || (leb 97 c && leb c 122)
    || (leb 48 c && leb c 57)
    || contains (46 ∷ 43 ∷ 45 ∷ []) c

-- `is_digit` is what `\d` matches: the decimal digits of Unicode.
module _ (is_digit : ℕ → Bool) where
  unfoldable pub match_tail : String → Bool
  unfolding is_tail
  match_tail String.[] = true
  match_tail (String.◌∷◌ c s) = is_tail (code c) && match_tail s

  -- The rest of `\d+`, then the class.
  unfoldable pub match_digits : String → Bool
  unfolding match_tail
  match_digits String.[] = true
  match_digits (String.◌∷◌ c s) =
      (is_digit (code c) && match_digits s) || (is_tail (code c) && match_tail s)

  unfoldable pub match_number : String → Bool
  unfolding match_digits
  match_number String.[] = false
  match_number (String.◌∷◌ c s) = is_digit (code c) && match_digits s

  -- `re.fullmatch(r"v\d+[A-Za-z0-9.+-]*", version)`
  unfoldable pub is_version : String → Bool
  unfolding match_number
  is_version String.[] = false
  is_version (String.◌∷◌ c s) = code c == 118 && match_number s
