-- ===== src/Json.antt =====
-- Go's `any` values that come from JSON, and the readers of daemon.go. A number keeps the integer
-- that `int(n)` gives, which is all that the daemon reads of it.
use wireguard_natter_helper.Prelude.{
  if◌then◌else◌, non_empty, ℤ, pos, Result, ok, err, String, ◌≡◌, Bool, List, [], ◌∷◌, arith, ◌==◌,
  eq_iff, eq_refl,
}

mutual
  pub data Json : Type 0 where
    null : Json
    bool : Bool → Json
    num : ℤ → Json
    str : String → Json
    arr : Items → Json
    obj : Fields → Json

  pub data Items : Type 0 where
    nil : Items
    cons : Json → Items → Items

  pub data Fields : Type 0 where
    end : Fields
    field : String → Json → Fields → Fields

-- `m[key]`: nil for a missing key
unfoldable pub lookup : String → Fields → Json
lookup key end = null
lookup key (field k v fs) = if k == key then v else lookup key fs

-- `stringValue`: "" for what is no string
abbrev pub string_value : Json → String
string_value (str s) = s
string_value _ = ""

-- `number`: an error for what is no number
abbrev pub number : Json → Result ℤ
number (num n) = ok n
number _ = err "not a number"

abbrev pub number_or_zero : Json → ℤ
number_or_zero (num n) = n
number_or_zero _ = pos 0

unfoldable pub strings : Items → List String
strings nil = []
strings (cons v vs) =
    let rest = strings vs in
    let value = string_value v in if non_empty value then value ∷ rest else rest

-- `stringSlice`
unfoldable pub string_slice : Json → List String
unfolding strings
string_slice (arr vs) = strings vs
string_slice _ = []

-- A map literal.
unfoldable pub object : List (String × Json) → Fields
object [] = end
object ((k, v) ∷ fs) = field k v (object fs)

-- `m[key] = value`
unfoldable pub set_field : String → Json → Fields → Fields
set_field key value end = field key value end
set_field key value (field k v fs) =
    let rest = set_field key value fs in if k == key then field key value fs else field k v rest

pub lookup-set_field :
    (key : String) (value : Json) (fs : Fields) → lookup key (set_field key value fs) ≡ value
unfolding lookup set_field
lookup-set_field key value end = ground (arith, eq_refl key)
lookup-set_field key value (field k v fs) =
    ground (arith, eq_refl key, eq_iff k key, lookup-set_field key value fs)
