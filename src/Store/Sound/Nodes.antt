-- ===== src/Store/Sound/Nodes.antt =====
-- The node methods of internal/store/store.go and the well-formedness of the configuration.
use wireguard_natter_helper.Prelude.{
  inr, inl, subst, Option-cases, some, arith, String, ◌≡◌, refl, ap, true, false, Option, none,
}
use wireguard_natter_helper.Map.{get?, set}
use wireguard_natter_helper.Map.Entries.{Every-get?, Every-set}
use wireguard_natter_helper.Store.Config.{Node}
use wireguard_natter_helper.Store.State.{Data, Store, Env}
use wireguard_natter_helper.Store.Clear.{clear_node_transient_fields}
use wireguard_natter_helper.Store.Nodes.{
  named_node, mark_seen, upsert_pending_node, create_node, unapproved_node, upsert_joined_node,
}
use wireguard_natter_helper.Store.Sound.{is_approved, IsSound, members_approved-set}
use wireguard_natter_helper.Json.{Fields}

-- A node's entry may be written if it is clear, stands under its key and takes no approval back.
pub put_node-IsSound :
    (d : Data) (n : Node)
    → IsSound d
    → clear_node_transient_fields n ≡ n
    → (is_approved d.nodes n.id ≡ true → n.approved ≡ true)
    → IsSound (record d { nodes = set n.id n d.nodes })
put_node-IsSound d n h clear keeps = record {
  nodes_keyed = Every-set _ n.id n d.nodes h.nodes_keyed refl;
  nodes_clear = Every-set _ n.id n d.nodes h.nodes_clear clear;
  domains_keyed = h.domains_keyed;
  members_keyed = h.members_keyed;
  members_approved = members_approved-set d.nodes d.domain_members n.id n h.members_approved keeps;
  members_domain = h.members_domain;
  bindings_keyed = h.bindings_keyed;
  bindings_clear = h.bindings_clear;
}

pub create_node-IsSound :
    (env : Env) (id name token : String) (s : Store)
    → IsSound s.state
    → IsSound (create_node env id name token s).0.state
unfolding create_node clear_node_transient_fields
create_node-IsSound env id name token s h = put_node-IsSound s.state _ h refl (λ _. refl)

clear-named :
    (n : Node) (name : String)
    → clear_node_transient_fields n ≡ n
    → clear_node_transient_fields (record n { name = name }) ≡ record n { name = name }
unfolding clear_node_transient_fields
clear-named n name e = ap (λ (m : Node). record m { name = name }) e

-- A node that is not there is not approved.
fresh : (d : Data) (id : String) → get? id d.nodes ≡ none → is_approved d.nodes id ≡ false
unfolding is_approved
fresh d id e = rw (is_approved, e)

clear-unapproved :
    (env : Env) (id name token : String)
    → clear_node_transient_fields (unapproved_node env id name token)
      ≡ unapproved_node env id name token
unfolding clear_node_transient_fields unapproved_node
clear-unapproved env id name token = refl

put_unapproved-IsSound :
    (env : Env) (id name token : String) (d : Data)
    → IsSound d
    → get? id d.nodes ≡ none
    → IsSound (record d { nodes = set id (unapproved_node env id name token) d.nodes })
unfolding unapproved_node
put_unapproved-IsSound env id name token d h e =
    put_node-IsSound d (unapproved_node env id name token) h (clear-unapproved env id name token)
      (λ a. cc (fresh d id e))

pub upsert_joined_node-IsSound :
    (env : Env) (domain_id node_id name token : String) (meta : Option Fields) (s : Store)
    → IsSound s.state
    → IsSound (upsert_joined_node env domain_id node_id name token meta s).0.state
unfolding upsert_joined_node
upsert_joined_node-IsSound env domain_id node_id name token meta s h =
    ground (arith, put_unapproved-IsSound env node_id name token s.state h)

-- What the existing node becomes keeps its identity and its approval.
put_named-IsSound :
    (d : Data) (id name : String) (n : Node)
    → IsSound d
    → get? id d.nodes ≡ some n
    → IsSound (record d { nodes = set id (named_node name n) d.nodes })
unfolding is_approved named_node
put_named-IsSound d id name n h e =
    let key : n.id ≡ id = Every-get? _ id n d.nodes h.nodes_keyed e in
    subst (λ x. IsSound (record d { nodes = set x (named_node name n) d.nodes })) key
      (put_node-IsSound d (named_node name n) h
        (clear-named n _ (Every-get? _ id n d.nodes h.nodes_clear e)) (λ a. ground (arith, e, key)))

pub upsert_pending_node-IsSound :
    (env : Env) (node_id name token : String) (meta : Option Fields) (s : Store)
    → IsSound s.state
    → IsSound (upsert_pending_node env node_id name token meta s).0.state
unfolding upsert_pending_node
upsert_pending_node-IsSound env node_id name token meta s h =
    elim (Option-cases (get? node_id s.state.nodes)) [
      | inl e ↦ ground (arith, put_unapproved-IsSound env node_id name token s.state h)
      | inr (n, e) ↦ ground (arith, put_named-IsSound s.state node_id name n h e)
    ]

pub mark_seen-state :
    (env : Env) (id : String) (meta : Option Fields) (s : Store)
    → (mark_seen env id meta s).0.state ≡ s.state
unfolding mark_seen
mark_seen-state env id meta s = refl
