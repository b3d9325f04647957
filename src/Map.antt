-- ===== src/Map.antt =====
-- Go's `map[string]V`: the entries, in the order in which a `range` loop meets them. A nil map
-- reads as an empty one.
pub mod Lookup
pub mod Entries
use wireguard_natter_helper.Prelude.{
  String, Bool, Option, none, some, List, [], ◌∷◌, ◌==◌, if◌then◌else◌, is_some,
}

abbrev pub Map {ℓ} : Type ℓ → Type ℓ
Map V = List (String × V)

module _ {ℓ} {V : Type ℓ} where
  -- `v, ok := m[k]`
  unfoldable pub get? : String → Map V → Option V
  get? k [] = none
  get? k ((j, v) ∷ m) = if j == k then some v else get? k m

  -- `_, exists := m[k]`
  abbrev pub has : String → Map V → Bool
  has k m = is_some (get? k m)

  -- `m[k]`, with the zero value for a missing key
  abbrev pub get_or : String → V → Map V → V
  get_or k d m = elim (get? k m) [ none ↦ d | some v ↦ v ]

  -- `m[k] = v`
  unfoldable pub set : String → V → Map V → Map V
  set k v [] = (k, v) ∷ []
  set k v ((j, w) ∷ m) = if j == k then (k, v) ∷ m else (j, w) ∷ set k v m

  -- `delete(m, k)`. Every entry of the key goes; a real map has at most one.
  unfoldable pub delete : String → Map V → Map V
  delete k [] = []
  delete k ((j, v) ∷ m) = let rest = delete k m in if j == k then rest else (j, v) ∷ rest

  -- `for k, v := range m { if p(k, v) { delete(m, k) } }`
  unfoldable pub delete_if : (String → V → Bool) → Map V → Map V
  delete_if p [] = []
  delete_if p ((k, v) ∷ m) = let rest = delete_if p m in if p k v then rest else (k, v) ∷ rest

  -- `for k, v := range m { m[k] = f(k, v) }`
  unfoldable pub update_all : (String → V → V) → Map V → Map V
  update_all f [] = []
  update_all f ((k, v) ∷ m) = (k, f k v) ∷ update_all f m

  -- The values that a `range` loop appends to a slice.
  unfoldable pub values : Map V → List V
  values [] = []
  values ((k, v) ∷ m) = v ∷ values m
