-- ===== src/Store/Remove/Inventory.antt =====
-- `UpdateWGInterfaces` of internal/store/store.go and a node's inventory.
use wireguard_natter_helper.Prelude.{
  All, All-map, split_if, String, ◌≡◌, refl, true, false, some, List, [], ◌∷◌, map, Memᴰ, arith,
  ◌==◌, eq_iff,
}
use wireguard_natter_helper.Map.{Map, get?, delete_if}
use wireguard_natter_helper.Map.Entries.{Every, Every-set, Every-get?, delete_if-Every, Every-map}
use wireguard_natter_helper.Store.Runtime.{WgInterface}
use wireguard_natter_helper.Store.State.{Store, Env}
use wireguard_natter_helper.Store.Ids.{wg_interface_key}
use wireguard_natter_helper.Store.Audit.{items}
use wireguard_natter_helper.Store.Remove.{set_interfaces, update_wg_interfaces}

-- The entry of a reported interface
abbrev pub reported : String → String → WgInterface → WgInterface
reported now node_id i = record i { node_id = node_id; updated_at = now }

-- An entry of the node's is one of these.
abbrev Owned : String → List WgInterface → String → WgInterface → Type 0
Owned node_id all k i = (i.node_id == node_id) ≡ true → Memᴰ i all

module _ (now node_id : String) (all : List WgInterface) where
  set_interfaces-Owned :
      (items : List WgInterface) (m : Map WgInterface)
      → All (λ i. Memᴰ (reported now node_id i) all) items
      → Every (Owned node_id all) m
      → Every (Owned node_id all) (set_interfaces now node_id items m)
  unfolding set_interfaces
  set_interfaces-Owned [] m h old = old
  set_interfaces-Owned (i ∷ items) m (x, h) old = set_interfaces-Owned items _ h (
      split_if (Every (Owned node_id all)) (i.name == "") (λ _. old)
        (λ _.
          Every-set (Owned node_id all) (wg_interface_key node_id i.name) (reported now node_id i) m
            old (λ _. x)))

mem-map :
    (f : WgInterface → WgInterface) (xs : List WgInterface) → All (λ i. Memᴰ (f i) (map f xs)) xs
mem-map f [] = tt
mem-map f (x ∷ xs) = (Memᴰ.head refl, All-map _ _ xs (mem-map f xs) (λ y m. Memᴰ.tail m))

-- After a node with an identifier reports at least one interface, every interface of the node in
-- the inventory is one of those just reported, with the time of the report.
pub update_wg_interfaces-reported :
    (env : Env) (node_id : String) (first : WgInterface) (more : List WgInterface) (s : Store)
    (key : String) (i : WgInterface)
    → (node_id == "") ≡ false
    → get? key (update_wg_interfaces env node_id (first ∷ more) s).0.runtime.wg_interfaces ≡ some i
    → i.node_id ≡ node_id
    → Memᴰ i (map (reported env.now node_id) (first ∷ more))
unfolding update_wg_interfaces
update_wg_interfaces-reported env node_id first more s key i named there owner =
    let items = first ∷ more in
    let all = map (reported env.now node_id) items in
    let old = delete_if (λ _ i. i.node_id == node_id) s.runtime.wg_interfaces in
    let new = set_interfaces-Owned env.now node_id all items old (mem-map _ items) (
      Every-map _ (Owned node_id all) old
        (delete_if-Every (λ _ i. i.node_id == node_id) s.runtime.wg_interfaces)
        (λ k j gone here. ground arith)) in
    let there' : get? key (set_interfaces env.now node_id items old) ≡ some i = ground arith in
    Every-get? (Owned node_id all) key i _ new there' (ground (arith, eq_iff i.node_id node_id))
