-- ===== src/WgConfig/Search.antt =====
-- The search for a peer and its endpoint in the lines of a file, from `UpdateWGConf` of
-- internal/wgconfig/wgconfig.go.
use Prim.Native.Char.{Char, code}
use text.Mathlib.Text.{starts_with}
use wireguard_natter_helper.Prelude.{
  nat_eq, if◌then◌else◌, ℕ, suc, String, Bool, true, false, ◌&&◌, ◌||◌, not, Option, none, some,
  List, [], ◌∷◌, ◌==◌,
}
use wireguard_natter_helper.Strings.{trim_space, has_suffix, contains, equal_fold}
use wireguard_natter_helper.Strings.Split.{split_after_lines, cut}

unfoldable pub without_empty_last : List String → List String
without_empty_last [] = []
without_empty_last (s ∷ []) = if s == "" then [] else s ∷ []
without_empty_last (s ∷ t ∷ ss) = s ∷ without_empty_last (t ∷ ss)

-- `splitKeepNewline`
unfoldable pub split_keep_newline : String → List String
unfolding without_empty_last
split_keep_newline raw = if raw == "" then [] else without_empty_last (split_after_lines raw)

-- The loop's variables; -1 is `none`.
pub record Scan : Type 0 where
  pub is_in_peer : Bool
  pub is_matching : Bool
  pub endpoint_index : Option ℕ
  pub insert_index : Option ℕ

abbrev pub start_of_file : Scan
start_of_file = record {
  is_in_peer = false;
  is_matching = false;
  endpoint_index = none;
  insert_index = none;
}

abbrev is_equals_sign : Char → Bool
is_equals_sign c = nat_eq (code c) 61

-- The name and the value that a line sets
abbrev pub setting : String → String × String
setting line = let (key, value) = cut is_equals_sign line in (trim_space key, trim_space value)

abbrev pub is_section : String → Bool
is_section line = starts_with line "[" && has_suffix line "]"

abbrev pub is_skipped : String → Bool
is_skipped line = starts_with line "#" || not (contains line "=")

-- The loop's body, on a trimmed line that does not end the search
unfoldable pub scan_line : String → ℕ → String → Scan → Scan
scan_line public_key i line st =
    let (key, value) = setting line in
    if is_section line
    then record st {
      is_in_peer = equal_fold line "[Peer]";
      is_matching = false;
      endpoint_index = none;
    }
    else if not st.is_in_peer || is_skipped line
    then st
    else if equal_fold key "PublicKey" && value == public_key
    then record st { is_matching = true }
    else if equal_fold key "Endpoint" && st.is_matching
    then record st { endpoint_index = some i }
    else st

-- The loop: from the line with the number given
unfoldable pub scan : String → ℕ → List String → Scan → Scan
scan public_key i [] st = st
scan public_key i (line ∷ lines) st =
    let trimmed = trim_space line in
    let rest = scan public_key (suc i) lines (scan_line public_key i trimmed st) in
    if is_section trimmed && (st.is_in_peer && st.is_matching)
    then record st { insert_index = some i }
    else rest
