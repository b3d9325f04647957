-- ===== src/Cli/Split/Quoted.antt =====
-- Quoted words, as `splitCommand` of cmd/wgnh/main.go reads them.
use Prim.Native.Char.{Char, code}
use text.Mathlib.TextLemmas.{append_assoc, append-nil as append_empty}
use mathlib.Core.List.{append_assoc as list_append_assoc}
use wireguard_natter_helper.Prelude.{
  nat_eq, ◌<>◌, non_empty, String, ◌≡◌, Bool, true, false, ◌&&◌, not, Option, List, [], ◌∷◌,
}
use wireguard_natter_helper.Store.Ids.Clean.{AllChars}
use wireguard_natter_helper.Cli.Split.{Splitter, is_char, is_quote_mark}

-- A word between quotes
abbrev pub quoted : Char → String → String
quoted q w = String.◌∷◌ q (w <> String.◌∷◌ q "")

-- Quoted words with blanks between them
unfoldable pub command_line : Char → List String → String
command_line q [] = ""
command_line q (w ∷ []) = quoted q w
command_line q (w ∷ v ∷ ws) = quoted q w <> (" " <> command_line q (v ∷ ws))

-- Neither the quote nor a backslash
abbrev pub is_plain : Char → Char → Bool
is_plain q c = not (nat_eq (code c) (code q)) && not (is_char 92 c)

-- A word that is not empty and has only plain characters
abbrev pub IsPlain : Char → String → Type 0
IsPlain q w = (non_empty w ≡ true) × AllChars (is_plain q) w

abbrev reading : List String → String → Option Char → Splitter
reading parts current quote = record {
  parts = parts;
  current = current;
  quote = quote;
  escaped = false;
}

module _ (q : Char) (mark : is_quote_mark q ≡ true) where
  abbrev closing : String
  closing = String.◌∷◌ q ""
