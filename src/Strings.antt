-- ===== src/Strings.antt =====
-- The functions of Go's packages strings, bytes and strconv that the program calls, on texts.
pub mod Split
pub mod Numbers
use Prim.Native.Char.{Char, code}
use Prim.Native.String as Text
use text.Mathlib.Text.{starts_with}
use wireguard_natter_helper.Prelude.{
  leb, nat_eq, if◌then◌else◌, ℕ, ◌+◌, String, Bool, true, false, ◌&&◌, ◌||◌, [], ◌==◌,
}

-- `unicode.IsSpace`
abbrev pub is_space : Char → Bool
is_space c =
    let n = code c in
    (leb 9 n && leb n 13)
    || nat_eq n 32
    || nat_eq n 133
    || nat_eq n 160
    || nat_eq n 5760
    || (leb 8192 n && leb n 8202)
    || nat_eq n 8232
    || nat_eq n 8233
    || nat_eq n 8239
    || nat_eq n 8287
    || nat_eq n 12288

module _ (p : Char → Bool) where
  unfoldable pub trim_left : String → String
  trim_left String.[] = ""
  trim_left (String.◌∷◌ c s) = let rest = trim_left s in if p c then rest else String.◌∷◌ c s

  abbrev pub cons_trimmed : Char → String → String
  cons_trimmed c String.[] = if p c then "" else String.◌∷◌ c ""
  cons_trimmed c (String.◌∷◌ d s) = String.◌∷◌ c (String.◌∷◌ d s)

  unfoldable pub trim_right : String → String
  trim_right String.[] = ""
  trim_right (String.◌∷◌ c s) = cons_trimmed c (trim_right s)

  -- `strings.TrimFunc`
  unfoldable pub trim : String → String
  unfolding trim_left trim_right
  trim s = trim_right (trim_left s)

-- `strings.TrimSpace`
unfoldable pub trim_space : String → String
unfolding trim
trim_space s = trim is_space s

-- `strings.TrimPrefix`
abbrev pub trim_prefix : String → String → String
trim_prefix s prefix =
    if starts_with s prefix then Text.slice s (Text.len prefix) (Text.len s) else s

-- `strings.HasSuffix`
unfoldable pub has_suffix : String → String → Bool
has_suffix String.[] suffix = suffix == ""
has_suffix (String.◌∷◌ c s) suffix =
    let later = has_suffix s suffix in (String.◌∷◌ c s == suffix) || later

-- `strings.TrimSuffix`
unfoldable pub trim_suffix : String → String → String
trim_suffix String.[] suffix = ""
trim_suffix (String.◌∷◌ c s) suffix =
    let rest = trim_suffix s suffix in if String.◌∷◌ c s == suffix then "" else String.◌∷◌ c rest

-- `strings.Contains`
unfoldable pub contains : String → String → Bool
contains String.[] part = part == ""
contains (String.◌∷◌ c s) part =
    let later = contains s part in starts_with (String.◌∷◌ c s) part || later

abbrev upper_to_lower : ℕ → ℕ
upper_to_lower n = if leb 65 n && leb n 90 then n + 32 else n

-- Simple folding onto ASCII: the letters, the Kelvin sign and the long s.
abbrev pub folded : Char → ℕ
folded c =
    let n = code c in if nat_eq n 8490 then 107 else if nat_eq n 383 then 115 else upper_to_lower n

-- `strings.EqualFold`, where one of the texts is ASCII
unfoldable pub equal_fold : String → String → Bool
equal_fold String.[] String.[] = true
equal_fold String.[] (String.◌∷◌ d t) = false
equal_fold (String.◌∷◌ c s) String.[] = false
equal_fold (String.◌∷◌ c s) (String.◌∷◌ d t) =
    let rest = equal_fold s t in nat_eq (folded c) (folded d) && rest
