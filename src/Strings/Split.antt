-- ===== src/Strings/Split.antt =====
-- Cutting a text at a character, into lines and into words.
use Prim.Native.Char.{Char, code}
use text.Mathlib.TextLemmas.{cons-ne-nil, append_assoc, cons-append, nil-append}
use wireguard_natter_helper.Prelude.{
  All, drop, non_empty, eq_iff, Bool-cases, inl, inr, not, ◌==◌, nat_eq, if◌then◌else◌, ◌<>◌,
  split_if, String, ◌≡◌, refl, sym, ap, ◌∙◌, Bool, true, false, List, [], ◌∷◌, ◌++◌,
}
use wireguard_natter_helper.Strings.{is_space}

abbrev pub Filled : String → Type 0
Filled s = non_empty s ≡ true

-- Adds a character to the first text of a list.
abbrev pub cons_first : Char → List String → List String
cons_first c [] = String.◌∷◌ c "" ∷ []
cons_first c (s ∷ ss) = String.◌∷◌ c s ∷ ss

abbrev pub is_newline : Char → Bool
is_newline c = nat_eq (code c) 10

-- `strings.Split(s, "\n")`
unfoldable pub split_lines : String → List String
split_lines String.[] = "" ∷ []
split_lines (String.◌∷◌ c s) =
    let rest = split_lines s in if is_newline c then "" ∷ rest else cons_first c rest

-- Without the carriage return at the end that `bufio.ScanLines` drops
unfoldable pub without_return : String → String
without_return String.[] = ""
without_return (String.◌∷◌ c String.[]) = if nat_eq (code c) 13 then "" else String.◌∷◌ c ""
without_return (String.◌∷◌ c (String.◌∷◌ d s)) = String.◌∷◌ c (without_return (String.◌∷◌ d s))

-- `strings.SplitAfter(s, "\n")`
unfoldable pub split_after_lines : String → List String
split_after_lines String.[] = "" ∷ []
split_after_lines (String.◌∷◌ c s) =
    let rest = split_after_lines s in
    if is_newline c then String.◌∷◌ c "" ∷ rest else cons_first c rest

-- `strings.Join(ss, "")`
unfoldable pub join : List String → String
join [] = ""
join (s ∷ ss) = s <> join ss

-- `strings.Fields`; the flag says that the text before stands in a word.
unfoldable pub words : Bool → String → List String
words inside String.[] = if inside then "" ∷ [] else []
words inside (String.◌∷◌ c s) =
    let between = words false s in
    let within = words true s in
    if is_space c then (if inside then "" ∷ between else between) else cons_first c within

abbrev pub fields : String → List String
fields s = words false s

-- `strings.Cut` at one character: what stands before it and behind it
unfoldable pub cut : (Char → Bool) → String → String × String
cut p String.[] = ("", "")
cut p (String.◌∷◌ c s) =
    let (before, after) = cut p s in if p c then ("", s) else (String.◌∷◌ c before, after)

join-cons_first : (c : Char) (ss : List String) → join (cons_first c ss) ≡ String.◌∷◌ c (join ss)
unfolding join
join-cons_first c [] = cons-append c "" "" ∙ ap (λ t. String.◌∷◌ c t) (nil-append "")
join-cons_first c (s ∷ ss) = cons-append c s (join ss)

-- The pieces that a text is cut into are the text.
pub join-split_after_lines : (s : String) → join (split_after_lines s) ≡ s
unfolding join split_after_lines
join-split_after_lines String.[] = refl
join-split_after_lines (String.◌∷◌ c s) =
    let h = ap (λ t. String.◌∷◌ c t) (join-split_after_lines s) in
    split_if (λ ss. join ss ≡ String.◌∷◌ c s) (is_newline c)
      (λ _.
        join-cons_first c ("" ∷ split_after_lines s) ∙ ap (λ t. String.◌∷◌ c t) (nil-append _) ∙ h)
      (λ _. join-cons_first c (split_after_lines s) ∙ h)

pub join-append : (ss ts : List String) → join (ss ++ ts) ≡ join ss <> join ts
unfolding join
join-append [] ts = sym (nil-append (join ts))
join-append (s ∷ ss) ts =
    ap (λ t. s <> t) (join-append ss ts) ∙ sym (append_assoc s (join ss) (join ts))

pub cons-not_empty : (c : Char) (s : String) → (String.◌∷◌ c s == "") ≡ false
cons-not_empty c s = elim (Bool-cases (String.◌∷◌ c s == "")) [
  | inr e ↦ e
  | inl e ↦ elim (cons-ne-nil c s ((eq_iff _ "").0 e)) [ ]
]

cons_first-Filled :
    (c : Char) (ss : List String)
    → All Filled (drop 1 ss)
    → All Filled (cons_first c ss) × All Filled (drop 1 (cons_first c ss))
cons_first-Filled c [] h = ((ap not (cons-not_empty c ""), tt), tt)
cons_first-Filled c (s ∷ ss) h = ((ap not (cons-not_empty c s), h), h)

words-Filled : (s : String) → All Filled (words false s) × All Filled (drop 1 (words true s))
unfolding words
words-Filled String.[] = (tt, tt)
words-Filled (String.◌∷◌ c s) =
    let (between, within) = words-Filled s in
    let (filled, later) = cons_first-Filled c (words true s) within in
    (
      split_if (λ ss. All Filled ss) (is_space c) (λ _. between) (λ _. filled),
      split_if (λ ss. All Filled (drop 1 ss)) (is_space c) (λ _. between) (λ _. later),
    )

-- No word is empty.
pub fields-Filled : (s : String) → All Filled (fields s)
fields-Filled s = (words-Filled s).0

split_test :
    (split_lines "a\n\nb\n" ≡ "a" ∷ "" ∷ "b" ∷ "" ∷ [])
    × (split_after_lines "a\nb" ≡ "a\n" ∷ "b" ∷ [])
    × (fields " a\t b " ≡ "a" ∷ "b" ∷ [])
    × (cut (λ c. nat_eq (code c) 61) "a = b=c" ≡ ("a ", " b=c"))
unfolding split_lines split_after_lines words cut
split_test = (refl, refl, refl, refl)
