-- ===== src/Store/Ids.antt =====
-- Keys and identifiers of internal/store/store.go.
pub mod Clean
use Prim.Native.Char.{Char, code}
use Prim.Native.String as Text
use wireguard_natter_helper.Prelude.{
  leb, nat_eq, if◌then◌else◌, ◌<>◌, non_empty, ◌-◌, String, ◌≡◌, refl, Bool, true, false, ◌&&◌,
  ◌||◌, not, List, [], ◌∷◌, ◌==◌,
}

-- `domainMemberKey`
unfoldable pub domain_member_key : String → String → String
domain_member_key domain_id node_id = domain_id <> "/" <> node_id

-- `wgInterfaceKey`
unfoldable pub wg_interface_key : String → String → String
wg_interface_key node_id name = node_id <> "/" <> name

-- `firstNonEmpty`
unfoldable pub first_non_empty : List String → String
first_non_empty [] = ""
first_non_empty (value ∷ values) = if non_empty value then value else first_non_empty values

-- `containsString`
unfoldable pub contains_string : List String → String → Bool
contains_string [] needle = false
contains_string (value ∷ values) needle =
    if value == needle then true else contains_string values needle

-- `label`
unfoldable pub label : String → String → String
label name id = if non_empty name && not (name == id) then name <> " (" <> id <> ")" else id

-- `shortKey`; lengths and positions count bytes.
unfoldable pub short_key : String → String
short_key value =
    let n = Text.len value in
    if leb n 14 then value else Text.slice value 0 7 <> "..." <> Text.slice value (n - 6) n

abbrev pub dash : Char
dash = "-"

abbrev pub is_dash : Char → Bool
is_dash c = nat_eq (code c) b'-'

-- `[a-zA-Z0-9._-]`
unfoldable pub is_id_char : Char → Bool
is_id_char c =
    (leb b'a' (code c) && leb (code c) b'z')
    || (leb b'A' (code c) && leb (code c) b'Z')
    || (leb b'0' (code c) && leb (code c) b'9')
    || nat_eq (code c) b'.'
    || nat_eq (code c) b'_'
    || is_dash c

-- `ReplaceAllString` of every run of characters that pass a test by one dash; the flag says that
-- the character before was in a run.
unfoldable pub replace_runs : (Char → Bool) → Bool → String → String
replace_runs p inside String.[] = ""
replace_runs p inside (String.◌∷◌ c s) =
    let rest = replace_runs p (p c) s in
    if p c then (if inside then rest else String.◌∷◌ dash rest) else String.◌∷◌ c rest

-- The match of `^-`
unfoldable pub trim_first : String → String
trim_first String.[] = ""
trim_first (String.◌∷◌ c s) = if is_dash c then s else String.◌∷◌ c s

-- The match of `-$`
unfoldable pub trim_last : String → String
trim_last String.[] = ""
trim_last (String.◌∷◌ c String.[]) = if is_dash c then "" else String.◌∷◌ c ""
trim_last (String.◌∷◌ c (String.◌∷◌ d s)) = String.◌∷◌ c (trim_last (String.◌∷◌ d s))

-- `cleanID`
unfoldable pub clean_id : String → String
unfolding replace_runs trim_first trim_last is_id_char
clean_id value =
    let dashed = replace_runs (λ c. not (is_id_char c)) false value in
    let single = replace_runs is_dash false dashed in
    let trimmed = trim_last (trim_first single) in if trimmed == "" then "binding" else trimmed

-- `autoBindingID`
unfoldable pub auto_binding_id : String → String → String → String → String → String
unfolding clean_id
auto_binding_id domain_id server_node_id server_interface client_node_id client_interface =
    clean_id (
      domain_id <> "-" <> server_node_id <> "-" <> server_interface <> "-to-" <> client_node_id
      <> "-" <> client_interface)

auto_binding_id_test :
    auto_binding_id "home net" "-srv" "wg0" "cli" "wg1--" ≡ "home-net-srv-wg0-to-cli-wg1"
unfolding auto_binding_id
auto_binding_id_test = refl

short_key_test : short_key "abcdefghijklmnopqrstuvwxyz" ≡ "abcdefg...uvwxyz"
unfolding short_key
short_key_test = refl
