-- ===== src/Store/Sound.antt =====
-- The well-formedness of the configuration of internal/store/store.go, as a record.
pub mod Nodes
pub mod Members
use wireguard_natter_helper.Prelude.{
  if◌then◌else◌, String, ◌≡◌, Bool, true, false, none, some, arith, ◌==◌, eq_iff,
}
use wireguard_natter_helper.Map.{Map, get?, has, set, delete, delete_if}
use wireguard_natter_helper.Map.Entries.{
  Every, Every-delete_if, delete_if-Every, Every-map, Every-and,
}
use wireguard_natter_helper.Map.Lookup.{get?-set, get?-delete}
use wireguard_natter_helper.Store.Config.{Node, Domain, DomainMember}
use wireguard_natter_helper.Store.State.{Data}
use wireguard_natter_helper.Store.Ids.{domain_member_key}
use wireguard_natter_helper.Store.Clear.{clear_node_transient_fields, clear_binding_endpoint}

-- The node is there and approved.
unfoldable pub is_approved : Map Node → String → Bool
is_approved nodes id = elim (get? id nodes) [ none ↦ false | some n ↦ n.approved ]

pub record IsSound (d : Data) : Type 0 where
  pub nodes_keyed : Every (λ k n. n.id ≡ k) d.nodes
  pub nodes_clear : Every (λ k n. clear_node_transient_fields n ≡ n) d.nodes
  pub domains_keyed : Every (λ k (x : Domain). x.id ≡ k) d.domains
  pub members_keyed : Every (λ k m. domain_member_key m.domain_id m.node_id ≡ k) d.domain_members
  pub members_approved : Every (λ k m. is_approved d.nodes m.node_id ≡ true) d.domain_members
  pub members_domain : Every (λ k m. has m.domain_id d.domains ≡ true) d.domain_members
  pub bindings_keyed : Every (λ k b. b.id ≡ k) d.bindings
  pub bindings_clear : Every (λ k b. clear_binding_endpoint b ≡ b) d.bindings

pub is_approved-set :
    (nodes : Map Node) (id j : String) (n : Node)
    → is_approved (set id n nodes) j ≡ (if id == j then n.approved else is_approved nodes j)
unfolding is_approved
is_approved-set nodes id j n = ground (arith, get?-set id j n nodes)

pub is_approved-delete :
    (nodes : Map Node) (id j : String)
    → is_approved (delete id nodes) j ≡ (if id == j then false else is_approved nodes j)
unfolding is_approved
is_approved-delete nodes id j = ground (arith, get?-delete id j nodes)

-- Writing a node keeps the members approved, unless it takes an approval back.
pub members_approved-set :
    (nodes : Map Node) (members : Map DomainMember) (id : String) (n : Node)
    → Every (λ k m. is_approved nodes m.node_id ≡ true) members
    → (is_approved nodes id ≡ true → n.approved ≡ true)
    → Every (λ k m. is_approved (set id n nodes) m.node_id ≡ true) members
members_approved-set nodes members id n h keeps =
    Every-map _ _ members h
      λ k m p. ground (arith, is_approved-set nodes id m.node_id n, eq_iff id m.node_id)

-- Deleting a node with its members keeps the rest approved.
pub members_approved-delete :
    (nodes : Map Node) (members : Map DomainMember) (id : String)
    → Every (λ k m. is_approved nodes m.node_id ≡ true) members
    → Every
        (λ k m. is_approved (delete id nodes) m.node_id ≡ true)
        (delete_if (λ _ m. m.node_id == id) members)
members_approved-delete nodes members id h =
    Every-map _ _ _
      (Every-and _ _ _ (Every-delete_if _ (λ _ m. m.node_id == id) members h)
        (delete_if-Every (λ _ m. m.node_id == id) members))
      λ k m p.
        ground
          (arith, is_approved-delete nodes id m.node_id, eq_iff id m.node_id, eq_iff m.node_id id)

pub members_domain-set :
    (domains : Map Domain) (members : Map DomainMember) (id : String) (d : Domain)
    → Every (λ k m. has m.domain_id domains ≡ true) members
    → Every (λ k m. has m.domain_id (set id d domains) ≡ true) members
members_domain-set domains members id d h =
    Every-map _ _ members h λ k m p. ground (arith, get?-set id m.domain_id d domains)
