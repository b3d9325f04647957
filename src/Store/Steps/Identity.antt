-- ===== src/Store/Steps/Identity.antt =====
-- The hashes of the nodes' tokens along the steps of the store.
use wireguard_natter_helper.Prelude.{
  if◌then◌else◌, Option-cases, String, ◌≡◌, ◌⊎◌, inl, inr, false, Option, none, some, arith, ◌==◌,
  eq_iff,
}
use wireguard_natter_helper.Store.Steps.{
  Step, register, join, seen, inventory, reconciled, queued, delivered, completed, leased, logged,
  domain_created, approved, deleted, node_created, binding_added, Reach, Reach-keeps,
}
use wireguard_natter_helper.Store.Steps.Soundness.{update_wg_interfaces-state, next_command-state}
use wireguard_natter_helper.Store.Reconcile.Frame.{reconcile_auto_bindings-Untouched}
use wireguard_natter_helper.Map.{Map, get?, set}
use wireguard_natter_helper.Map.Lookup.{get?-set}
use wireguard_natter_helper.Json.{Fields}
use wireguard_natter_helper.Store.Config.{Node}
use wireguard_natter_helper.Store.State.{Store, Env}
use wireguard_natter_helper.Store.Events.{add_event}
use wireguard_natter_helper.Store.Nodes.{
  mark_seen, unapproved_node, upsert_joined_node, named_node, upsert_pending_node,
}
use wireguard_natter_helper.Store.Domains.{nodes}
use wireguard_natter_helper.Store.Commands.{queue_command, complete_command, save_endpoint_lease}

-- The hash of a node's token
unfoldable pub token_of : Map Node → String → Option String
token_of nodes id = elim (get? id nodes) [ none ↦ none | some n ↦ some n.token_hash ]

token_of-set :
    (nodes : Map Node) (id j : String) (n : Node)
    → token_of (set id n nodes) j ≡ (if id == j then some n.token_hash else token_of nodes j)
unfolding token_of
token_of-set nodes id j n = ground (arith, get?-set id j n nodes)

put-token :
    (nodes : Map Node) (key id hash : String) (n : Node)
    → (token_of nodes key ≡ none) ⊎ (token_of nodes key ≡ some n.token_hash)
    → token_of nodes id ≡ some hash
    → token_of (set key n nodes) id ≡ some hash
put-token nodes key id hash n same h = ground (arith, eq_iff key id, token_of-set nodes key id n)

module _ (env : Env) (id hash : String) (s : Store)
    (h : token_of s.state.nodes id ≡ some hash) where
  upsert_pending_node-token :
      (node_id name token : String) (meta : Option Fields)
      → token_of (upsert_pending_node env node_id name token meta s).0.state.nodes id ≡ some hash
  unfolding upsert_pending_node token_of
  upsert_pending_node-token node_id name token meta =
      elim (Option-cases (get? node_id s.state.nodes)) [
        | inl e ↦
            let new = unapproved_node env node_id name token in
            let fresh : token_of s.state.nodes node_id ≡ none = rw (token_of, e) in
            ground (arith, put-token s.state.nodes node_id id hash new (inl fresh) h)
        | inr (n, e) ↦
            let same : token_of s.state.nodes node_id ≡ some (named_node name n).token_hash =
              unfold named_node in rw (token_of, e) in
            ground (arith, put-token s.state.nodes node_id id hash (named_node name n) (inr same) h)
      ]

  upsert_joined_node-token :
      (domain_id node_id name token : String) (meta : Option Fields)
      → token_of (upsert_joined_node env domain_id node_id name token meta s).0.state.nodes id
        ≡ some hash
  unfolding upsert_joined_node token_of
  upsert_joined_node-token domain_id node_id name token meta =
      elim (Option-cases (get? node_id s.state.nodes)) [
        | inl e ↦
            let new = unapproved_node env node_id name token in
            let fresh : token_of s.state.nodes node_id ≡ none = rw (token_of, e) in
            ground (arith, put-token s.state.nodes node_id id hash new (inl fresh) h)
        | inr (n, e) ↦ ground arith
      ]

Step-token :
    (id hash : String) (s t : Store)
    → Step false s t
    → token_of s.state.nodes id ≡ some hash
    → token_of t.state.nodes id ≡ some hash
unfolding mark_seen queue_command complete_command save_endpoint_lease add_event
Step-token id hash s _ (register env node_id name token meta) h =
    upsert_pending_node-token env id hash s h node_id name token meta
Step-token id hash s _ (join env domain_id node_id name token meta) h =
    upsert_joined_node-token env id hash s h domain_id node_id name token meta
Step-token id hash s _ (seen env node_id meta) h = h
Step-token id hash s _ (inventory env node_id interfaces) h =
    rw (update_wg_interfaces-state env node_id interfaces s) h
Step-token id hash s _ (reconciled env) h = rw ((reconcile_auto_bindings-Untouched env s).nodes) h
Step-token id hash s _ (queued env node_id cmd) h = h
Step-token id hash s _ (delivered env node_id) h = rw (next_command-state env node_id s) h
Step-token id hash s _ (completed env node_id command_id result) h = h
Step-token id hash s _ (leased env node_id lease) h = h
Step-token id hash s _ (logged env type severity node_id binding_id message payload) h = h
Step-token id hash s _ (domain_created env a b c d never) h = cc
Step-token id hash s _ (approved env node_id approval never) h = cc
Step-token id hash s _ (deleted env node_id never) h = cc
Step-token id hash s _ (node_created env a b c never) h = cc
Step-token id hash s _ (binding_added env b never) h = cc

pub Reach-token :
    (s t : Store) (id hash : String)
    → Reach false s t
    → token_of s.state.nodes id ≡ some hash
    → token_of t.state.nodes id ≡ some hash
Reach-token s t id hash r h =
    Reach-keeps (λ u. token_of u.state.nodes id ≡ some hash) (Step-token id hash) r h
