-- ===== src/Store/Events/Rotation.antt =====
-- `rotateFileTail` of internal/store/store.go.
use mathlib.Core.List.{append_assoc}
use wireguard_natter_helper.Prelude.{
  ◌<◌, leb, nat_eq, Bool-cases, length, drop, length-append, split_if, ℕ, zero, suc, ◌-◌, ◌≤◌, ◌≡◌,
  refl, sym, ap, ◌∙◌, inl, inr, Option, none, some, List, [], ◌∷◌, ◌++◌, arith,
}
use wireguard_natter_helper.Store.Events.Bytes.{after_newline, whole_lines, rotate_file_tail}

length-drop : (n : ℕ) (xs : List ℕ) → n ≤ length xs → length (drop n xs) ≡ length xs - n
length-drop zero xs h = omega arith
length-drop (suc n) [] h = ground arith
length-drop (suc n) (x ∷ xs) h = ground (arith, length-drop n xs)

-- The second list is an end of the first.
abbrev pub IsSuffix : List ℕ → List ℕ → Type 0
IsSuffix whole tail = (cut : List ℕ) × (whole ≡ cut ++ tail)

drop-IsSuffix : (n : ℕ) (xs : List ℕ) → IsSuffix xs (drop n xs)
drop-IsSuffix zero xs = ([], refl)
drop-IsSuffix (suc n) [] = ([], refl)
drop-IsSuffix (suc n) (x ∷ xs) = let (cut, e) = drop-IsSuffix n xs in (x ∷ cut, ap (λ l. x ∷ l) e)

IsSuffix-trans : (a b c : List ℕ) → IsSuffix a b → IsSuffix b c → IsSuffix a c
IsSuffix-trans a b c (x, e) (y, f) = (x ++ y, e ∙ ap (λ l. x ++ l) f ∙ sym (append_assoc x y c))

IsSuffix-length : (a b : List ℕ) → IsSuffix a b → length b ≤ length a
IsSuffix-length a b (x, e) = rw e (omega (arith, length-append x b))

after_newline-IsSuffix : (raw rest : List ℕ) → after_newline raw ≡ some rest → IsSuffix raw rest
unfolding after_newline
after_newline-IsSuffix [] rest h = ground arith
after_newline-IsSuffix (c ∷ cs) rest h = elim (Bool-cases (nat_eq c 10)) [
  | inl e ↦ (c ∷ [], ground arith)
  | inr e ↦
      let (cut, f) = after_newline-IsSuffix cs rest (ground arith) in (c ∷ cut, ap (λ l. c ∷ l) f)
]

whole_lines-IsSuffix : (raw : List ℕ) → IsSuffix raw (whole_lines raw)
unfolding whole_lines
whole_lines-IsSuffix raw = go (after_newline raw) refl
  where
    go :
        (o : Option (List ℕ))
        → after_newline raw ≡ o
        → IsSuffix raw (elim o [ none ↦ raw | some [] ↦ raw | some (c ∷ cs) ↦ c ∷ cs ])
    go none e = ([], refl)
    go (some []) e = ([], refl)
    go (some (c ∷ cs)) e = after_newline-IsSuffix raw (c ∷ cs) e

-- Rotating a log leaves an end of it, of at most the given number of bytes.
pub rotate_file_tail-IsSuffix :
    (max_bytes : ℕ) (raw : List ℕ)
    → IsSuffix raw (rotate_file_tail max_bytes raw)
      × (length (rotate_file_tail max_bytes raw) ≤ max_bytes)
unfolding rotate_file_tail
rotate_file_tail-IsSuffix max_bytes raw =
    let tail = drop (length raw - max_bytes) raw in
    let cut =
      IsSuffix-trans raw tail (whole_lines tail) (drop-IsSuffix (length raw - max_bytes) raw)
        (whole_lines-IsSuffix tail) in
    let shorter = IsSuffix-length tail (whole_lines tail) (whole_lines-IsSuffix tail) in
    split_if (λ l. IsSuffix raw l × (length l ≤ max_bytes)) (leb (length raw) max_bytes)
      (λ e. (([], refl), ground arith))
      (λ e.
        let big : max_bytes < length raw = ground arith in
        let kept = length-drop (length raw - max_bytes) raw (omega arith) in
        (cut, omega (arith, big, kept, shorter)))
