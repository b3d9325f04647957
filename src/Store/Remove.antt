-- ===== src/Store/Remove.antt =====
-- `DeleteNode`, `UpdateWGInterfaces` and `AddBinding` of internal/store/store.go.
pub mod Inventory
pub mod Trace
use wireguard_natter_helper.Prelude.{
  if◌then◌else◌, keep_if, ◌<>◌, non_empty, is_positive, Error, String, Bool, true, false, ◌&&◌,
  ◌||◌, not, none, some, List, [], ◌∷◌, ◌==◌,
}
use wireguard_natter_helper.Map.{Map, get?, set, delete, delete_if}
use wireguard_natter_helper.Json.{str, object}
use wireguard_natter_helper.Store.Config.{Node, Binding}
use wireguard_natter_helper.Store.Runtime.{WgInterface, BindingEndpoint, Event, zero_event}
use wireguard_natter_helper.Store.State.{Store, Env, put_bindings, put_interfaces, put_endpoints}
use wireguard_natter_helper.Store.Ids.{wg_interface_key, label}
use wireguard_natter_helper.Store.Clear.{clear_binding_endpoint, default_binding_fields}
use wireguard_natter_helper.Store.Audit.{binding_audit}
use wireguard_natter_helper.Store.Save.{save_runtime_locked, save_both}
use wireguard_natter_helper.Store.Events.{add_audit_event_locked}

-- The loop over the bindings in `DeleteNode`, on the endpoints' side: for each binding of the node
-- its endpoint goes.
unfoldable pub delete_endpoints_of :
    (Binding → Bool) → Map Binding → Map BindingEndpoint → Map BindingEndpoint
delete_endpoints_of p [] endpoints = endpoints
delete_endpoints_of p ((id, b) ∷ m) endpoints =
    delete_endpoints_of p m (if p b then delete id endpoints else endpoints)

abbrev pub touches : String → Binding → Bool
touches node_id b = b.server_node_id == node_id || b.client_node_id == node_id

-- The state after the deletions of `DeleteNode`
unfoldable pub without_node : String → Store → Store
without_node node_id s = record s {
  state = record s.state {
    nodes = delete node_id s.state.nodes;
    domain_members = delete_if (λ _ m. m.node_id == node_id) s.state.domain_members;
    bindings = delete_if (λ _ b. touches node_id b) s.state.bindings;
  };
  runtime = record s.runtime {
    node_runtime = delete node_id s.runtime.node_runtime;
    commands = delete node_id s.runtime.commands;
    wg_interfaces = delete_if (λ _ i. i.node_id == node_id) s.runtime.wg_interfaces;
    binding_endpoint =
        delete_endpoints_of (touches node_id) s.state.bindings s.runtime.binding_endpoint;
    endpoint_leases = keep_if (λ l. not (l.server_node_id == node_id)) s.runtime.endpoint_leases;
  };
}

abbrev deleted_event : String → Node → Event
deleted_event node_id node = record zero_event {
  type = "node.deleted";
  severity = "info";
  actor = "admin";
  target = "node:" <> node_id;
  action = "node.delete";
  before = some (object (("node_id", str node.id) ∷ ("name", str node.name) ∷ []));
  result = "success";
  node_id = node_id;
  message =
      "Node "
      <> label node.name node.id
      <> " deleted with related memberships, commands, inventory, and bindings";
  payload = some (object (("name", str node.name) ∷ []));
}

-- `DeleteNode`
unfoldable pub delete_node : Env → String → Store → Store × Error
unfolding save_both add_audit_event_locked
delete_node env node_id s =
    if node_id == "" then (s, some "node id is required") else elim (get? node_id s.state.nodes) [
      | none ↦ (s, some "node not found")
      | some node ↦
          save_both env
            (add_audit_event_locked env (deleted_event node_id node) (without_node node_id s))
    ]

-- The second loop of `UpdateWGInterfaces`: an unnamed interface is skipped.
unfoldable pub set_interfaces :
    String → String → List WgInterface → Map WgInterface → Map WgInterface
set_interfaces now node_id [] m = m
set_interfaces now node_id (item ∷ rest) m =
    let stored = record item { node_id = node_id; updated_at = now } in
    set_interfaces now node_id rest
      (if item.name == "" then m else set (wg_interface_key node_id item.name) stored m)

abbrev is_empty_list {ℓ} : {A : Type ℓ} → List A → Bool
is_empty_list [] = true
is_empty_list (_ ∷ _) = false

-- `UpdateWGInterfaces`: the node's inventory is replaced.
unfoldable pub update_wg_interfaces : Env → String → List WgInterface → Store → Store × Error
unfolding save_runtime_locked
update_wg_interfaces env node_id interfaces s =
    let others = delete_if (λ _ i. i.node_id == node_id) s.runtime.wg_interfaces in
    if node_id == "" || is_empty_list interfaces
    then (s, none)
    else save_runtime_locked env
        (put_interfaces (set_interfaces env.now node_id interfaces others) s)

-- `AddBinding`
unfoldable pub add_binding : Env → Binding → Store → Store × Error
unfolding save_both add_audit_event_locked
add_binding env given s =
    let b = clear_binding_endpoint (record (default_binding_fields given) { enabled = true }) in
    let s1 = put_bindings (set b.id b s.state.bindings) s in
    let endpoint : BindingEndpoint = record {
      host = given.endpoint_host;
      port = given.endpoint_port;
      updated_at = env.now;
    } in
    let known = non_empty given.endpoint_host && is_positive given.endpoint_port in
    let s2 =
      put_endpoints
        (if known
          then set b.id endpoint s1.runtime.binding_endpoint
          else s1.runtime.binding_endpoint)
        s1 in
    let event = record zero_event {
      type = "binding.upserted";
      severity = "info";
      actor = "admin";
      target = "binding:" <> b.id;
      action = "binding.save";
      after = binding_audit b;
      result = "success";
      binding_id = b.id;
      message =
          "Binding " <> b.id <> " saved: " <> b.server_node_id <> "/" <> b.server_interface
          <> " -> " <> b.client_node_id <> "/" <> b.client_interface;
      payload = some (object (("domain_id", str b.domain_id) ∷ []));
    } in
    save_both env (add_audit_event_locked env event s2)
