-- ===== src/Strings/Numbers.antt =====
-- `strconv.ParseInt` in base 10 on 64 bits, `strconv.Itoa`, and the arithmetic of `time.Duration`.
use Prim.Native.Char.{Char, code}
use Prim.Native.String as Text
use Prim.Native.Nat.{◌/◌, ◌%◌}
use wireguard_natter_helper.Prelude.{
  ◌<>◌, ltb, leb, nat_eq, if◌then◌else◌, ℤ, pos, negsuc, ℕ, zero, suc, ◌+◌, ◌-◌, ◌*◌, String, ◌≡◌,
  refl, Bool, true, false, ◌&&◌, Option, none, some,
}

abbrev is_digit : Char → Bool
is_digit c = leb 48 (code c) && leb (code c) 57

-- The value of a text of digits that follow those with the value given
unfoldable pub digits : ℕ → String → Option ℕ
digits n String.[] = some n
digits n (String.◌∷◌ c s) =
    let rest = digits (10 * n + (code c - 48)) s in if is_digit c then rest else none

abbrev pub unsigned : String → Option ℕ
unfolding digits
unsigned String.[] = none
unsigned (String.◌∷◌ c s) = digits 0 (String.◌∷◌ c s)

abbrev positive_int : Option ℕ → Option ℤ
positive_int none = none
positive_int (some n) = if leb n 9_223_372_036_854_775_807 then some (pos n) else none

abbrev pub negated : ℕ → ℤ
negated zero = pos 0
negated (suc n) = negsuc n

abbrev negative_int : Option ℕ → Option ℤ
negative_int none = none
negative_int (some n) = if leb n 9_223_372_036_854_775_808 then some (negated n) else none

-- `strconv.ParseInt(s, 10, 64)`, `strconv.Atoi(s)`; an error is `none`.
unfoldable pub parse_int : String → Option ℤ
parse_int String.[] = none
parse_int (String.◌∷◌ c s) =
    if nat_eq (code c) 45
    then negative_int (unsigned s)
    else if nat_eq (code c) 43
    then positive_int (unsigned s)
    else positive_int (unsigned (String.◌∷◌ c s))

abbrev digit : ℕ → String
digit n = Text.slice "0123456789" n (suc n)

-- A number in decimal; as much fuel as the number is enough.
unfoldable pub decimal : ℕ → ℕ → String
decimal zero n = digit n
decimal (suc fuel) n =
    let front = decimal fuel (n / 10) in if ltb n 10 then digit n else front <> digit (n % 10)

-- `strconv.Itoa`, `%d`
unfoldable pub itoa : ℤ → String
unfolding decimal
itoa (pos n) = decimal n n
itoa (negsuc n) = "-" <> decimal n (suc n)

-- A number of 64 bits, read as a signed one
abbrev pub signed : ℕ → ℤ
signed n =
    if ltb n 9_223_372_036_854_775_808 then pos n else negsuc (18_446_744_073_709_551_615 - n)

-- `time.Duration(n) * time.Second`, which wraps around at 64 bits
unfoldable pub seconds : ℤ → ℤ
seconds (pos n) = signed (n * 1_000_000_000 % 18_446_744_073_709_551_616)
seconds (negsuc n) =
    let rest = suc n * 1_000_000_000 % 18_446_744_073_709_551_616 in
    if nat_eq rest 0 then pos 0 else signed (18_446_744_073_709_551_616 - rest)

-- `a - b`
abbrev pub difference : ℕ → ℕ → ℤ
difference a b = if leb b a then pos (a - b) else negsuc (b - a - 1)

-- `a > b`
unfoldable pub exceeds : ℤ → ℤ → Bool
exceeds (pos a) (pos b) = ltb b a
exceeds (pos a) (negsuc b) = true
exceeds (negsuc a) (pos b) = false
exceeds (negsuc a) (negsuc b) = ltb a b

-- `int(d.Seconds())`
unfoldable pub whole_seconds : ℤ → ℤ
whole_seconds (pos n) = pos (n / 1_000_000_000)
whole_seconds (negsuc n) = negated (suc n / 1_000_000_000)

number_test :
    (parse_int "1700000000" ≡ some (pos 1_700_000_000))
    × (parse_int "-5" ≡ some (negsuc 4))
    × (parse_int "9223372036854775808" ≡ none)
    × (parse_int "1_0" ≡ none)
    × (itoa (pos 51820) ≡ "51820")
    × (itoa (negsuc 41) ≡ "-42")
    × (seconds (pos 180) ≡ pos 180_000_000_000)
    × (seconds (negsuc 0) ≡ negsuc 999_999_999)
    × (whole_seconds (negsuc 1_500_000_000) ≡ negsuc 0)
unfolding parse_int itoa seconds whole_seconds digits
number_test = (refl, refl, refl, refl, refl, refl, refl, refl, refl)
