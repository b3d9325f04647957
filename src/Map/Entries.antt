-- ===== src/Map/Entries.antt =====
-- Predicates that hold of every entry of a map, and how the writes keep them.
use wireguard_natter_helper.Prelude.{
  inr, inl, Option-cases, All, String, ◌≡◌, Bool, false, some, [], ◌∷◌, arith, eq_iff,
}
use wireguard_natter_helper.Map.{get_or, Map, get?, set, delete, delete_if, update_all}

module _ {ℓ κ} {V : Type ℓ} (P : String → V → Type κ) where
  abbrev pub Every : Map V → Type κ
  Every [] = Unit
  Every ((k, v) ∷ m) = P k v × Every m

  pub Every-set : (k : String) (v : V) (m : Map V) → Every m → P k v → Every (set k v m)
  unfolding set
  Every-set k v [] h p = (p, tt)
  Every-set k v ((j, w) ∷ m) (q, h) p = ground (arith, Every-set k v m h p)

  pub Every-delete : (k : String) (m : Map V) → Every m → Every (delete k m)
  unfolding delete
  Every-delete k [] h = tt
  Every-delete k ((j, w) ∷ m) (q, h) = ground (arith, Every-delete k m h)

  pub Every-delete_if : (p : String → V → Bool) (m : Map V) → Every m → Every (delete_if p m)
  unfolding delete_if
  Every-delete_if p [] h = tt
  Every-delete_if p ((j, w) ∷ m) (q, h) = ground (arith, Every-delete_if p m h)

  pub Every-get? : (k : String) (v : V) (m : Map V) → Every m → get? k m ≡ some v → P k v
  unfolding get?
  Every-get? k v [] h e = cc
  Every-get? k v ((j, w) ∷ m) (q, h) e = ground (arith, eq_iff j k, Every-get? k v m h)

module _ {ℓ κ} {V : Type ℓ} (P : String → V → Type κ) where
  -- A lookup with a default
  pub get_or-Every : (k : String) (d : V) (m : Map V) → Every P m → P k d → P k (get_or k d m)
  get_or-Every k d m h p = elim (Option-cases (get? k m)) [
    | inl e ↦ rw (get_or, e) p
    | inr (v, e) ↦ rw (get_or, e) (Every-get? P k v m h e)
  ]

  -- The entries of the map, one by one
  pub Every-All : (m : Map V) → Every P m → All (λ (e : String × V). P e.0 e.1) m
  Every-All [] h = tt
  Every-All ((k, v) ∷ m) (p, h) = (p, Every-All m h)

module _ {ℓ} {V : Type ℓ} where
  -- What a deleting loop leaves fails its test.
  pub delete_if-Every :
      (p : String → V → Bool) (m : Map V) → Every (λ k v. p k v ≡ false) (delete_if p m)
  unfolding delete_if
  delete_if-Every p [] = tt
  delete_if-Every p ((j, w) ∷ m) = ground (arith, delete_if-Every p m)

module _ {ℓ κ μ} {V : Type ℓ} (P : String → V → Type κ) (Q : String → V → Type μ) where
  pub Every-map : (m : Map V) → Every P m → ((k : String) (v : V) → P k v → Q k v) → Every Q m
  Every-map [] h f = tt
  Every-map ((k, v) ∷ m) (p, h) f = (f k v p, Every-map m h f)

  pub Every-and : (m : Map V) → Every P m → Every Q m → Every (λ k v. P k v × Q k v) m
  Every-and [] h g = tt
  Every-and ((k, v) ∷ m) (p, h) (q, g) = ((p, q), Every-and m h g)

  pub Every-update_all :
      (f : String → V → V) (m : Map V)
      → Every P m
      → ((k : String) (v : V) → P k v → Q k (f k v))
      → Every Q (update_all f m)
  unfolding update_all
  Every-update_all f [] h g = tt
  Every-update_all f ((k, v) ∷ m) (p, h) g = (g k v p, Every-update_all f m h g)
