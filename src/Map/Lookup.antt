-- ===== src/Map/Lookup.antt =====
-- What a lookup finds after each write.
use wireguard_natter_helper.Prelude.{
  false, String, ◌≡◌, refl, none, some, [], ◌∷◌, arith, ◌==◌, eq_iff, if◌then◌else◌,
}
use wireguard_natter_helper.Map.{Bool, delete_if, Map, get?, set, delete, update_all}
use mathlib.Core.Option

module _ {ℓ} {V : Type ℓ} where
  pub get?-set :
      (k j : String) (v : V) (m : Map V)
      → get? j (set k v m) ≡ (if k == j then some v else get? j m)
  unfolding get? set
  get?-set k j v [] = refl
  get?-set k j v ((i, w) ∷ m) = ground (arith, eq_iff k j, eq_iff i k, eq_iff i j, get?-set k j v m)

  pub get?-delete :
      (k j : String) (m : Map V) → get? j (delete k m) ≡ (if k == j then none else get? j m)
  unfolding get? delete
  get?-delete k j [] = ground arith
  get?-delete k j ((i, w) ∷ m) =
      ground (arith, eq_iff k j, eq_iff i k, eq_iff i j, get?-delete k j m)

  pub get?-update_all :
      (f : String → V → V) (j : String) (m : Map V)
      → get? j (update_all f m) ≡ Option.map (f j) (get? j m)
  unfolding get? update_all
  get?-update_all f j [] = refl
  get?-update_all f j ((i, w) ∷ m) = ground (arith, eq_iff i j, get?-update_all f j m)

  -- A deleting loop keeps an entry that fails its test.
  pub get?-delete_if :
      (p : String → V → Bool) (k : String) (v : V) (m : Map V)
      → p k v ≡ false
      → get? k m ≡ some v
      → get? k (delete_if p m) ≡ some v
  unfolding get? delete_if
  get?-delete_if p k v [] e h = cc
  get?-delete_if p k v ((i, w) ∷ m) e h = ground (arith, eq_iff i k, get?-delete_if p k v m e)
