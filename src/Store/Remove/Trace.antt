-- ===== src/Store/Remove/Trace.antt =====
-- `DeleteNode` of internal/store/store.go: what is left of the node, and of the others.
use wireguard_natter_helper.Prelude.{
  if◌then◌else◌, keep_if, All, String, ◌≡◌, refl, ap, ◌∙◌, Bool, true, false, not, Option, none,
  some, List, [], ◌∷◌, arith, ◌==◌, eq_refl,
}
use wireguard_natter_helper.Map.{Map, get?, get_or, delete}
use wireguard_natter_helper.Map.Lookup.{get?-delete}
use wireguard_natter_helper.Map.Entries.{Every, Every-get?, delete_if-Every}
use wireguard_natter_helper.Json.{Fields}
use wireguard_natter_helper.Store.Config.{Node, Binding}
use wireguard_natter_helper.Store.Runtime.{EndpointLease, BindingEndpoint}
use wireguard_natter_helper.Store.State.{Data, RuntimeData, Store, Env}
use wireguard_natter_helper.Store.Ids.{first_non_empty}
use wireguard_natter_helper.Store.Nodes.{upsert_pending_node}
use wireguard_natter_helper.Store.Approve.{NodeApproval, approval_domain}
use wireguard_natter_helper.Store.Remove.{delete_endpoints_of, touches, without_node, delete_node}

-- Nothing in the state, the inventory, the leases or the queues is of the node.
pub record NoTrace (node_id : String) (d : Data) (r : RuntimeData) : Type 0 where
  pub node : get? node_id d.nodes ≡ none
  pub members : Every (λ k m. (m.node_id == node_id) ≡ false) d.domain_members
  pub bindings : Every (λ k b. touches node_id b ≡ false) d.bindings
  pub runtime : get? node_id r.node_runtime ≡ none
  pub commands : get? node_id r.commands ≡ none
  pub interfaces : Every (λ k i. (i.node_id == node_id) ≡ false) r.wg_interfaces
  pub leases : All (λ l. (l.server_node_id == node_id) ≡ false) r.endpoint_leases

leases-kept :
    (node_id : String) (ls : List EndpointLease)
    → All
        (λ l. (l.server_node_id == node_id) ≡ false)
        (keep_if (λ l. not (l.server_node_id == node_id)) ls)
unfolding keep_if
leases-kept node_id [] = tt
leases-kept node_id (l ∷ ls) = ground (arith, leases-kept node_id ls)

-- An endpoint that is gone stays away.
gone-stays :
    (p : Binding → Bool) (m : Map Binding) (endpoints : Map BindingEndpoint) (k : String)
    → get? k endpoints ≡ none
    → get? k (delete_endpoints_of p m endpoints) ≡ none
unfolding delete_endpoints_of
gone-stays p [] endpoints k h = h
gone-stays p ((id, b) ∷ m) endpoints k h =
    gone-stays p m (if p b then delete id endpoints else endpoints) k
      (ground (arith, get?-delete id k endpoints))

endpoints-gone :
    (p : Binding → Bool) (m : Map Binding) (endpoints : Map BindingEndpoint)
    → Every (λ k b. p b ≡ true → get? k (delete_endpoints_of p m endpoints) ≡ none) m
unfolding delete_endpoints_of
endpoints-gone p [] endpoints = tt
endpoints-gone p ((id, b) ∷ m) endpoints = (
  λ e. gone-stays p m _ id (ground (arith, get?-delete id id endpoints, eq_refl id)),
  endpoints-gone p m _,
)

without_node-NoTrace :
    (node_id : String) (s : Store)
    → NoTrace node_id (without_node node_id s).state (without_node node_id s).runtime
unfolding without_node
without_node-NoTrace node_id s = record {
  node = ground (arith, get?-delete node_id node_id s.state.nodes, eq_refl node_id);
  members = delete_if-Every (λ _ m. m.node_id == node_id) s.state.domain_members;
  bindings = delete_if-Every (λ _ b. touches node_id b) s.state.bindings;
  runtime = ground (arith, get?-delete node_id node_id s.runtime.node_runtime, eq_refl node_id);
  commands = ground (arith, get?-delete node_id node_id s.runtime.commands, eq_refl node_id);
  interfaces = delete_if-Every (λ _ i. i.node_id == node_id) s.runtime.wg_interfaces;
  leases = leases-kept node_id s.runtime.endpoint_leases;
}

-- Deleting a node that exists removes its entry, runtime entry and command queue, and every
-- membership, binding, reported interface and endpoint lease of it.
pub delete_node-NoTrace :
    (env : Env) (node_id : String) (n : Node) (s : Store)
    → (node_id == "") ≡ false
    → get? node_id s.state.nodes ≡ some n
    → NoTrace node_id (delete_node env node_id s).0.state (delete_node env node_id s).0.runtime
unfolding delete_node without_node
delete_node-NoTrace env node_id n s named e =
    rw (delete_node, named, e) (without_node-NoTrace node_id s)

-- Deleting a node that exists removes the endpoint of every binding in which it was server or
-- client.
pub delete_node-endpoint :
    (env : Env) (node_id : String) (n : Node) (s : Store) (id : String) (b : Binding)
    → (node_id == "") ≡ false
    → get? node_id s.state.nodes ≡ some n
    → get? id s.state.bindings ≡ some b
    → touches node_id b ≡ true
    → get? id (delete_node env node_id s).0.runtime.binding_endpoint ≡ none
unfolding delete_node without_node
delete_node-endpoint env node_id n s id b named e there touched =
    rw (delete_node, named, e)
      (Every-get? _ id b s.state.bindings
        (endpoints-gone (touches node_id) s.state.bindings s.runtime.binding_endpoint) there
        touched)

-- Deleting a node leaves every other node's entry and command queue, and all domains.
pub delete_node-others :
    (env : Env) (node_id j : String) (s : Store)
    → (node_id == j) ≡ false
    → (get? j (delete_node env node_id s).0.state.nodes ≡ get? j s.state.nodes)
      × (get? j (delete_node env node_id s).0.runtime.commands ≡ get? j s.runtime.commands)
      × ((delete_node env node_id s).0.state.domains ≡ s.state.domains)
unfolding delete_node without_node
delete_node-others env node_id j s other =
    ground (arith, get?-delete node_id j s.state.nodes, get?-delete node_id j s.runtime.commands)

delete_node-pending :
    (env : Env) (node_id : String) (s : Store)
    → (delete_node env node_id s).0.runtime.pending_domain ≡ s.runtime.pending_domain
unfolding delete_node without_node
delete_node-pending env node_id s = ground arith

register-pending :
    (env : Env) (node_id name token : String) (meta : Option Fields) (s : Store)
    → (upsert_pending_node env node_id name token meta s).0.runtime.pending_domain
      ≡ s.runtime.pending_domain
unfolding upsert_pending_node
register-pending env node_id name token meta s = ground arith

approval_domain-pending :
    (node_id domain_id : String) (a : NodeApproval) (s : Store)
    → get? node_id s.runtime.pending_domain ≡ some domain_id
    → (domain_id == "") ≡ false
    → a.domain_id ≡ ""
    → approval_domain node_id a s ≡ domain_id
unfolding approval_domain first_non_empty
approval_domain-pending node_id domain_id a s joined named unasked =
    rw (approval_domain, get_or, unasked, joined, named) refl

-- When a node that waited for a domain is deleted and registers again with any token, an
-- approval that names no domain is for the domain that the deleted node had asked to join.
pub approval_domain-deleted :
    (env later : Env) (node_id name token domain_id : String) (meta : Option Fields)
    (a : NodeApproval) (s : Store)
    → get? node_id s.runtime.pending_domain ≡ some domain_id
    → (domain_id == "") ≡ false
    → a.domain_id ≡ ""
    → approval_domain node_id a
        (upsert_pending_node later node_id name token meta (delete_node env node_id s).0).0
      ≡ domain_id
approval_domain-deleted env later node_id name token domain_id meta a s joined named unasked =
    let s1 = (delete_node env node_id s).0 in
    let same =
      register-pending later node_id name token meta s1 ∙ delete_node-pending env node_id s in
    approval_domain-pending node_id domain_id a _ (ap (get? node_id) same ∙ joined) named unasked
