-- ===== src/WgConfig/Terminated.antt =====
-- Where the lines of `splitKeepNewline` of internal/wgconfig/wgconfig.go end.
use Prim.Native.Char.{Char}
use text.Mathlib.TextLemmas.{append-nil as append_empty}
use wireguard_natter_helper.Prelude.{
  All, split_if, clash, String, ◌≡◌, sym, ◌∙◌, subst, Bool, true, false, List, [], ◌∷◌, ◌++◌, ◌==◌,
}
use wireguard_natter_helper.Strings.Split.{
  cons_first, is_newline, split_after_lines, join, join-split_after_lines,
}
use wireguard_natter_helper.WgConfig.Search.{without_empty_last, split_keep_newline}

-- The last character is a newline.
unfoldable pub is_terminated : String → Bool
is_terminated String.[] = false
is_terminated (String.◌∷◌ c String.[]) = is_newline c
is_terminated (String.◌∷◌ c (String.◌∷◌ d s)) = is_terminated (String.◌∷◌ d s)

abbrev pub Terminated : String → Type 0
Terminated s = is_terminated s ≡ true

-- Every line but the last ends with a newline.
abbrev Separated : List String → Type 0
Separated [] = Unit
Separated (s ∷ []) = Unit
Separated (s ∷ t ∷ ss) = Terminated s × Separated (t ∷ ss)

Separated-cons : (s : String) (ss : List String) → Terminated s → Separated ss → Separated (s ∷ ss)
Separated-cons s [] p h = tt
Separated-cons s (t ∷ ss) p h = (p, h)

cons-Terminated : (c : Char) (s : String) → Terminated s → Terminated (String.◌∷◌ c s)
unfolding is_terminated
cons-Terminated c String.[] p = clash (sym p)
cons-Terminated c (String.◌∷◌ d s) p = p

cons_first-Separated : (c : Char) (ss : List String) → Separated ss → Separated (cons_first c ss)
cons_first-Separated c [] h = tt
cons_first-Separated c (s ∷ []) h = tt
cons_first-Separated c (s ∷ t ∷ ss) (p, h) = (cons-Terminated c s p, h)

newline-Terminated : (c : Char) → is_newline c ≡ true → Terminated (String.◌∷◌ c "")
unfolding is_terminated
newline-Terminated c e = e

split_after_lines-Separated : (s : String) → Separated (split_after_lines s)
unfolding split_after_lines
split_after_lines-Separated String.[] = tt
split_after_lines-Separated (String.◌∷◌ c s) =
    split_if Separated (is_newline c)
      (λ e.
        Separated-cons (String.◌∷◌ c "") (split_after_lines s) (newline-Terminated c e)
          (split_after_lines-Separated s))
      (λ _. cons_first-Separated c (split_after_lines s) (split_after_lines-Separated s))

without_empty_last-Separated : (ss : List String) → Separated ss → Separated (without_empty_last ss)
unfolding without_empty_last
without_empty_last-Separated [] h = tt
without_empty_last-Separated (s ∷ []) h = split_if Separated (s == "") (λ _. tt) (λ _. tt)
without_empty_last-Separated (s ∷ t ∷ ss) (p, h) =
    Separated-cons s (without_empty_last (t ∷ ss)) p (without_empty_last-Separated (t ∷ ss) h)

split_keep_newline-Separated : (raw : String) → Separated (split_keep_newline raw)
unfolding split_keep_newline
split_keep_newline-Separated raw =
    split_if Separated (raw == "") (λ _. tt)
      (λ _. without_empty_last-Separated (split_after_lines raw) (split_after_lines-Separated raw))

Separated-before :
    (before : List String) (line : String) (after : List String)
    → Separated (before ++ line ∷ after)
    → All Terminated before
Separated-before [] line after h = tt
Separated-before (s ∷ []) line after (p, h) = (p, tt)
Separated-before (s ∷ t ∷ ss) line after (p, h) = (p, Separated-before (t ∷ ss) line after h)

-- The lines before another line end with newlines.
pub before-Terminated :
    (raw : String) (before : List String) (line : String) (after : List String)
    → split_keep_newline raw ≡ before ++ line ∷ after
    → All Terminated before
before-Terminated raw before line after e =
    Separated-before before line after (subst Separated e (split_keep_newline-Separated raw))

-- The lines of a text that ends with a newline
abbrev AllEnded : String → Type 0
AllEnded s = All Terminated (without_empty_last (split_after_lines s))

newline-first :
    (c : Char) (ss : List String)
    → is_newline c ≡ true
    → All Terminated (without_empty_last ss)
    → All Terminated (without_empty_last (String.◌∷◌ c "" ∷ ss))
unfolding without_empty_last
newline-first c [] e h =
    split_if (λ ss. All Terminated ss) (String.◌∷◌ c "" == "") (λ _. tt)
      (λ _. (newline-Terminated c e, tt))
newline-first c (s ∷ ss) e h = (newline-Terminated c e, h)

-- The last line is the text where there is no other.
character-first :
    (c : Char) (ss : List String)
    → Terminated (String.◌∷◌ c (join ss))
    → All Terminated (without_empty_last ss)
    → All Terminated (without_empty_last (cons_first c ss))
unfolding without_empty_last join
character-first c [] p h =
    split_if (λ ss. All Terminated ss) (String.◌∷◌ c "" == "") (λ _. tt) (λ _. (p, tt))
character-first c (s ∷ []) p h =
    split_if (λ ss. All Terminated ss) (String.◌∷◌ c s == "") (λ _. tt)
      (λ _. (subst (λ t. Terminated (String.◌∷◌ c t)) (append_empty s) p, tt))
character-first c (s ∷ t ∷ ss) p (q, h) = (cons-Terminated c s q, h)

cons-AllEnded :
    (c : Char) (s : String)
    → (Terminated s → AllEnded s)
    → Terminated (String.◌∷◌ c s)
    → AllEnded (String.◌∷◌ c s)
unfolding split_after_lines is_terminated without_empty_last
cons-AllEnded c String.[] ended p =
    split_if (λ ss. All Terminated (without_empty_last ss)) (is_newline c)
      (λ e. newline-first c ("" ∷ []) e tt) (λ e. clash (sym p ∙ e))
cons-AllEnded c (String.◌∷◌ d s) ended p =
    let lines = split_after_lines (String.◌∷◌ d s) in
    let whole = sym (join-split_after_lines (String.◌∷◌ d s)) in
    split_if (λ ss. All Terminated (without_empty_last ss)) (is_newline c)
      (λ e. newline-first c lines e (ended p))
      (λ _. character-first c lines (subst (λ t. Terminated (String.◌∷◌ c t)) whole p) (ended p))

split_after_lines-AllEnded : (s : String) → Terminated s → AllEnded s
unfolding is_terminated
split_after_lines-AllEnded String.[] p = clash (sym p)
split_after_lines-AllEnded (String.◌∷◌ c s) p = cons-AllEnded c s (split_after_lines-AllEnded s) p

-- Every line of a text that ends with a newline does so.
pub lines-Terminated : (raw : String) → Terminated raw → All Terminated (split_keep_newline raw)
unfolding split_keep_newline
lines-Terminated raw p =
    split_if (λ ss. All Terminated ss) (raw == "") (λ _. tt) (λ _. split_after_lines-AllEnded raw p)
