-- ===== src/Prelude/Lists.antt =====
-- Lists measured by native numbers, and predicates on every element.
use Prim.Native.Nat.{ℕ, zero, suc, ◌+◌}
use mathlib.Core.Path.{◌≡◌, refl}
use mathlib.Core.Bool.{true, Bool}
use mathlib.Core.Option.{Option, none, some}
use mathlib.Core.List.{Memᴰ, List, [], ◌∷◌, ◌++◌}
use native.Mathlib.Omega.{arith}
use wireguard_natter_helper.Prelude.Tests.{if◌then◌else◌}

module _ {ℓ} {A : Type ℓ} where
  abbrev pub length : List A → ℕ
  length [] = 0
  length (x ∷ xs) = suc (length xs)

  abbrev pub take : ℕ → List A → List A
  take zero xs = []
  take (suc n) [] = []
  take (suc n) (x ∷ xs) = x ∷ take n xs

  abbrev pub drop : ℕ → List A → List A
  drop zero xs = xs
  drop (suc n) [] = []
  drop (suc n) (x ∷ xs) = drop n xs

  -- `xs[i]`
  abbrev pub get_elem? : List A → ℕ → Option A
  get_elem? [] i = none
  get_elem? (x ∷ xs) zero = some x
  get_elem? (x ∷ xs) (suc i) = get_elem? xs i

  -- The elements that pass a test, in order.
  unfoldable pub keep_if : (A → Bool) → List A → List A
  keep_if p [] = []
  keep_if p (x ∷ xs) = let rest = keep_if p xs in if p x then x ∷ rest else rest

  pub length-append : (xs ys : List A) → length (xs ++ ys) ≡ length xs + length ys
  length-append [] ys = omega arith
  length-append (x ∷ xs) ys = omega (arith, length-append xs ys)

module _ {ℓ κ} {A : Type ℓ} (P : A → Type κ) where
  abbrev pub All : List A → Type κ
  All [] = Unit
  All (x ∷ xs) = P x × All xs

  pub All-append : (xs ys : List A) → All xs → All ys → All (xs ++ ys)
  All-append [] ys h k = k
  All-append (x ∷ xs) ys (p, h) k = (p, All-append xs ys h k)

module _ {ℓ κ} {A : Type ℓ} (P : A → Type κ) where
  -- What a filter keeps has the property and passes the test.
  pub keep_if-All :
      (p : A → Bool) (xs : List A) → All P xs → All (λ x. P x × (p x ≡ true)) (keep_if p xs)
  unfolding keep_if
  keep_if-All p [] h = tt
  keep_if-All p (x ∷ xs) (q, h) = ground (arith, keep_if-All p xs h)

module _ {ℓ κ μ} {A : Type ℓ} (P : A → Type κ) (Q : A → Type μ) where
  pub All-map : (xs : List A) → All P xs → ((x : A) → P x → Q x) → All Q xs
  All-map [] h f = tt
  All-map (x ∷ xs) (p, h) f = (f x p, All-map xs h f)

-- Every element of a list is in it.
pub All-mem {ℓ} : {A : Type ℓ} (xs : List A) → All (λ x. Memᴰ x xs) xs
All-mem [] = tt
All-mem (x ∷ xs) = (Memᴰ.head refl, All-map _ _ xs (All-mem xs) (λ y m. Memᴰ.tail m))

-- `for _, x := range xs { s = f(x, s) }`
unfoldable pub for_each {ℓ κ} : {A : Type ℓ} {S : Type κ} → (A → S → S) → List A → S → S
for_each f [] s = s
for_each f (x ∷ xs) s = for_each f xs (f x s)

-- What the body keeps for the elements with a property, the loop keeps.
pub for_each_inv {ℓ κ μ ν} :
    {A : Type ℓ} {S : Type κ} (Q : A → Type μ) (P : S → Type ν) (f : A → S → S)
    → ((x : A) (s : S) → Q x → P s → P (f x s))
    → (xs : List A) (s : S) → All Q xs
    → P s
    → P (for_each f xs s)
unfolding for_each
for_each_inv Q P f keep [] s q h = h
for_each_inv Q P f keep (x ∷ xs) s (q, qs) h = for_each_inv Q P f keep xs (f x s) qs (keep x s q h)

-- The same where every element will do.
pub for_each_keeps {ℓ κ ν} :
    {A : Type ℓ} {S : Type κ} (P : S → Type ν) (f : A → S → S)
    → ((x : A) (s : S) → P s → P (f x s))
    → (xs : List A) (s : S) → P s
    → P (for_each f xs s)
unfolding for_each
for_each_keeps P f keep [] s h = h
for_each_keeps P f keep (x ∷ xs) s h = for_each_keeps P f keep xs (f x s) (keep x s h)
