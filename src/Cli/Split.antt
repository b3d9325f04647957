-- ===== src/Cli/Split.antt =====
-- `splitCommand` of cmd/wgnh/main.go: a command line cut into words, with quotes and backslashes.
pub mod Quoted
use Prim.Native.Char.{Char, code}
use wireguard_natter_helper.Prelude.{
  nat_eq, if◌then◌else◌, ◌<>◌, ℕ, String, ◌≡◌, refl, Bool, true, false, ◌||◌, Option, none, some,
  List, [], ◌∷◌, ◌++◌, ◌==◌,
}
use wireguard_natter_helper.Strings.{trim_left, trim_right, trim, trim_space}

-- The loop's variables; no quote is `none`.
pub record Splitter : Type 0 where
  pub parts : List String
  pub current : String
  pub quote : Option Char
  pub escaped : Bool

abbrev pub start_of_line : Splitter
start_of_line = record { parts = []; current = ""; quote = none; escaped = false }

abbrev pub is_char : ℕ → Char → Bool
is_char n c = nat_eq (code c) n

abbrev pub is_quote_mark : Char → Bool
is_quote_mark c = is_char 39 c || is_char 34 c

abbrev pub is_blank : Char → Bool
is_blank c = is_char 32 c || is_char 9 c || is_char 10 c || is_char 13 c

-- `current.WriteRune(ch)`
abbrev pub write : Char → Splitter → Splitter
write c st = record st { current = st.current <> String.◌∷◌ c "" }

-- `if current.Len() > 0 { parts = append(parts, current.String()) }`, and the reset
abbrev pub flush : Splitter → Splitter
flush st =
    if st.current == "" then st else record st { parts = st.parts ++ st.current ∷ []; current = "" }

-- The loop's body
unfoldable pub split_char : Char → Splitter → Splitter
split_char c st =
    if st.escaped
    then record (write c st) { escaped = false }
    else if is_char 92 c
    then record st { escaped = true }
    else elim st.quote [
      | some mark ↦ if nat_eq (code c) (code mark) then record st { quote = none } else write c st
      | none ↦
          if is_quote_mark c
          then record st { quote = some c }
          else if is_blank c
          then flush st
          else write c st
    ]

unfoldable pub split_chars : String → Splitter → Splitter
split_chars String.[] st = st
split_chars (String.◌∷◌ c s) st = split_chars s (split_char c st)

-- What stands behind the loop
abbrev pub finished : Splitter → List String
finished st =
    let last = if st.escaped then st.current <> "\\" else st.current in
    if last == "" then st.parts else st.parts ++ last ∷ []

-- `splitCommand`
unfoldable pub split_command : String → List String
unfolding split_chars
split_command value =
    let line = trim_space value in
    if line == "" then [] else finished (split_chars line start_of_line)

split_test :
    (split_command " python3 '/opt/my natter.py' a\\ b \"c d\"x '' "
      ≡ "python3" ∷ "/opt/my natter.py" ∷ "a b" ∷ "c dx" ∷ [])
unfolding split_command split_char trim_space trim trim_left trim_right
split_test = refl
