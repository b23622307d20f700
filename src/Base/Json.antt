-- ===== src/Base/Json.antt =====
-- What `json.loads` returns, and the operations of Python on it. A number is exact, in units of which
-- `unit` make one.
use laya_rs.Base.Equality.{◌==◌, if◌then◌else◌, string_eq, nat_eq, contains}
use laya_rs.Base.Lists.{all}
use laya_rs.Base.Int.{ℤ, pos, negsuc, int_eq}
use laya_rs.Base.Raises.{
  Raises, ok, raise, key_error, type_error, attribute_error, index_error, value_error, ◌>>=◌,
}
use Prim.Native.Nat.{ℕ, suc, ◌-◌}
use Prim.Native.String.{String}
use mathlib.Core.Path.{◌≡◌, refl}
use laya_rs.Base.Text.{strip, is_digits, value}
use Prim.Native.Char.{code}
use mathlib.Core.Bool.{Bool, true, false, not, ◌&&◌}
use mathlib.Core.Option.{Option, none, some}
use mathlib.Core.List.{List, [], ◌∷◌}
use native.Mathlib.Omega.{arith}

pub data Number : Type 0 where
  finite : ℤ → Number
  infinity minus_infinity nan : Number

mutual
  pub data Json : Type 0 where
    null : Json
    boolean : Bool → Json
    number : Number → Json
    text : String → Json
    array : Items → Json
    object : Fields → Json

  pub data Items : Type 0 where
    nil : Items
    item : Json → Items → Items

  pub data Fields : Type 0 where
    end : Fields
    field : String → Json → Fields → Fields

-- `a == b` of two numbers
unfoldable pub number_eq : Number → Number → Bool
unfolding int_eq
number_eq (finite a) (finite b) = a == b
number_eq infinity infinity = true
number_eq minus_infinity minus_infinity = true
number_eq _ _ = false

unfoldable pub find : String → Fields → Option Json
find k end = none
find k (field j v fs) = if k == j then some v else find k fs

unfoldable pub size : Fields → ℕ
size end = 0
size (field k v fs) = suc (size fs)

module _ (unit : ℕ) where
  -- A number or a boolean, as a number.
  unfoldable pub as_number : Json → Option Number
  as_number (number n) = some n
  as_number (boolean true) = some (finite (pos unit))
  as_number (boolean false) = some (finite (pos 0))
  as_number _ = none

  unfoldable pub same_number : Number → Json → Bool
  unfolding as_number number_eq
  same_number a b = elim (as_number b) [ none ↦ false | some n ↦ number_eq a n ]

  -- `a == b` of two values: dicts without regard to order, and booleans as the numbers 0 and 1
  unfoldable mutual
    unfolding same_number find size

    pub json_eq : Json → Json → Bool
    json_eq null null = true
    json_eq (boolean true) b = same_number (finite (pos unit)) b
    json_eq (boolean false) b = same_number (finite (pos 0)) b
    json_eq (number a) b = same_number a b
    json_eq (text s) (text t) = s == t
    json_eq (array xs) (array ys) = items_eq xs ys
    json_eq (object fs) (object gs) = size fs == size gs && fields_in fs gs
    json_eq _ _ = false

    pub items_eq : Items → Items → Bool
    items_eq nil nil = true
    items_eq (item x xs) (item y ys) = json_eq x y && items_eq xs ys
    items_eq _ _ = false

    pub fields_in : Fields → Fields → Bool
    fields_in end gs = true
    fields_in (field k v fs) gs = elim (find k gs) [
      | none ↦ false
      | some w ↦ json_eq v w && fields_in fs gs
    ]

-- `j[key]`
unfoldable pub get : String → Json → Raises Json
unfolding find
get k (object fs) = elim (find k fs) [ none ↦ raise key_error | some v ↦ ok v ]
get k _ = raise type_error

unfoldable pub names : Fields → List String
names end = []
names (field k v fs) = k ∷ names fs

-- `j.keys()`
unfoldable pub keys : Json → Raises (List String)
unfolding names
keys (object fs) = ok (names fs)
keys _ = raise attribute_error

-- Two views of keys are equal as sets.
unfoldable pub same_keys : List String → List String → Bool
same_keys ks ls = all (contains ls) ks && all (contains ks) ls

-- `d[key] = v`, in place of the old value or at the end
unfoldable pub put_field : String → Json → Fields → Fields
put_field k v end = field k v end
put_field k v (field j w fs) = if k == j then field k v fs else field j w (put_field k v fs)

unfoldable pub remove_field : String → Fields → Fields
remove_field k end = end
remove_field k (field j w fs) =
    let rest = remove_field k fs in if k == j then rest else field j w rest

-- A value with `j[key]` replaced. Only dicts are written to.
unfoldable pub put : String → Json → Json → Raises Json
unfolding put_field
put k v (object fs) = ok (object (put_field k v fs))
put k v _ = raise type_error

-- `j.pop(key)`: the value, and what is left
unfoldable pub pop : String → Json → Raises (Json × Json)
unfolding find remove_field
pop k (object fs) = elim (find k fs) [
  | none ↦ raise key_error
  | some v ↦ ok (v, object (remove_field k fs))
]
pop k (array xs) = raise type_error
pop k _ = raise attribute_error

pub find-put_field :
    (j k : String) (v : Json) (fs : Fields)
    → find j (put_field k v fs) ≡ (if j == k then some v else find j fs)
unfolding find put_field
find-put_field j k v end = refl
find-put_field j k v (field i w fs) = ground (arith, find-put_field j k v fs)

pub find-remove_field :
    (j k : String) (fs : Fields) → find j (remove_field k fs) ≡ (if j == k then none else find j fs)
unfolding find remove_field
find-remove_field j k end = ground arith
find-remove_field j k (field i w fs) = ground (arith, find-remove_field j k fs)

-- `not j`: what counts as false
unfoldable pub is_falsy : Json → Bool
unfolding number_eq
is_falsy null = true
is_falsy (boolean b) = not b
is_falsy (number n) = number_eq n (finite (pos 0))
is_falsy (text s) = s == ""
is_falsy (array nil) = true
is_falsy (object end) = true
is_falsy _ = false

-- `j[0]`
unfoldable pub first_item : Json → Raises Json
first_item (array (item x xs)) = ok x
first_item (array nil) = raise index_error
first_item (object fs) = raise key_error
first_item _ = raise type_error

abbrev pub negative : ℕ → ℤ
negative n = if n == 0 then pos 0 else negsuc (n - 1)

unfoldable pub digits_of : String → Raises ℕ
unfolding is_digits value
digits_of s =
    if not (s == "") && is_digits s
    then ok (value 0 s)
    else raise (value_error "invalid literal for int()")

unfoldable pub signed_of : String → Raises ℤ
unfolding digits_of
signed_of String.[] = raise (value_error "invalid literal for int()")
signed_of (String.◌∷◌ c s) =
    if code c == 45
    then (digits_of s >>= λ n. ok (negative n))
    else if code c == 43
    then (digits_of s >>= λ n. ok (pos n))
    else (digits_of (String.◌∷◌ c s) >>= λ n. ok (pos n))

-- `int(s)` on ASCII digits with an optional sign
unfoldable pub int_of : String → Raises ℤ
unfolding strip signed_of
int_of s = signed_of (strip s)

abbrev pub texts : List String → Items
texts [] = nil
texts (s ∷ rest) = item (text s) (texts rest)

unfoldable pub characters : String → List String
characters String.[] = []
characters (String.◌∷◌ c s) = (String.◌∷◌ c String.[]) ∷ characters s

-- What `for value in j` goes through: a dict by its keys, a text by its characters.
unfoldable pub iterate : Json → Raises Items
unfolding names characters
iterate (array values) = ok values
iterate (object fs) = ok (texts (names fs))
iterate (text s) = ok (texts (characters s))
iterate _ = raise type_error

-- A value where only a text will do: a part of a path.
unfoldable pub text_of : Json → Raises String
text_of (text s) = ok s
text_of _ = raise type_error
