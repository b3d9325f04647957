-- ===== src/Store/Ids/Clean.antt =====
-- `cleanID` of internal/store/store.go.
use Prim.Native.Char.{Char}
use wireguard_natter_helper.Prelude.{
  split_if, String, ◌≡◌, refl, Bool, true, false, not, arith, ◌==◌,
}
use wireguard_natter_helper.Store.Ids.{
  is_dash, is_id_char, replace_runs, trim_first, trim_last, clean_id,
}

-- Every character of a text passes a test.
unfoldable pub AllChars : (Char → Bool) → String → Type 0
AllChars p String.[] = Unit
AllChars p (String.◌∷◌ c s) = (p c ≡ true) × AllChars p s

replace_runs-AllChars :
    (inside : Bool) (s : String)
    → AllChars is_id_char (replace_runs (λ c. not (is_id_char c)) inside s)
unfolding AllChars replace_runs is_id_char
replace_runs-AllChars inside String.[] = tt
replace_runs-AllChars inside (String.◌∷◌ c s) =
    let h = replace_runs-AllChars (not (is_id_char c)) s in
    split_if (AllChars is_id_char) (not (is_id_char c))
      (λ _. split_if (AllChars is_id_char) inside (λ _. h) (λ _. (refl, h)))
      (λ e. (ground arith, h))

-- Collapsing dashes adds none but dashes.
collapse-AllChars :
    (inside : Bool) (s : String)
    → AllChars is_id_char s
    → AllChars is_id_char (replace_runs is_dash inside s)
unfolding AllChars replace_runs is_id_char
collapse-AllChars inside String.[] h = tt
collapse-AllChars inside (String.◌∷◌ c s) (x, h) =
    let k = collapse-AllChars (is_dash c) s h in
    split_if (AllChars is_id_char) (is_dash c)
      (λ _. split_if (AllChars is_id_char) inside (λ _. k) (λ _. (refl, k))) (λ _. (x, k))

trim_first-AllChars : (s : String) → AllChars is_id_char s → AllChars is_id_char (trim_first s)
unfolding AllChars trim_first
trim_first-AllChars String.[] h = tt
trim_first-AllChars (String.◌∷◌ c s) (x, h) =
    split_if (AllChars is_id_char) (is_dash c) (λ _. h) (λ _. (x, h))

trim_last-AllChars : (s : String) → AllChars is_id_char s → AllChars is_id_char (trim_last s)
unfolding AllChars trim_last
trim_last-AllChars String.[] h = tt
trim_last-AllChars (String.◌∷◌ c String.[]) (x, h) =
    split_if (AllChars is_id_char) (is_dash c) (λ _. tt) (λ _. (x, tt))
trim_last-AllChars (String.◌∷◌ c (String.◌∷◌ d s)) (x, h) =
    (x, trim_last-AllChars (String.◌∷◌ d s) h)

-- A cleaned identifier is not empty and has only ASCII letters, digits, dots, underscores and
-- dashes.
pub clean_id-AllChars :
    (value : String) → AllChars is_id_char (clean_id value) × ((clean_id value == "") ≡ false)
unfolding clean_id
clean_id-AllChars value =
    let dashed = replace_runs (λ c. not (is_id_char c)) false value in
    let single = replace_runs is_dash false dashed in
    let chars = trim_last-AllChars (trim_first single) (
      trim_first-AllChars single
        (collapse-AllChars false dashed (replace_runs-AllChars false value))) in
    split_if (λ s. AllChars is_id_char s × ((s == "") ≡ false))
      (trim_last (trim_first single) == "")
      (λ _. (unfold AllChars in (refl, (refl, (refl, (refl, (refl, (refl, (refl, tt))))))), refl))
      (λ e. (chars, e))
