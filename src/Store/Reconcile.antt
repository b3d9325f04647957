-- ===== src/Store/Reconcile.antt =====
-- `ReconcileAutoBindings` of internal/store/store.go. Each loop is a function of its own over the
-- variables that the loops assign.
pub mod Found
pub mod Complete
pub mod Reach
pub mod Justified
pub mod Loops
pub mod Created
pub mod Frame
pub mod Manual
pub mod Settled
pub mod Sound
use wireguard_natter_helper.Prelude.{
  nat_eq, if◌then◌else◌, keep_if, for_each, ◌<>◌, non_empty, pos, Result, ok, err, with_error, ℕ,
  ◌+◌, String, Bool, true, false, ◌&&◌, ◌||◌, not, Option, none, some, List, [], ◌∷◌, ◌++◌, ◌==◌,
}
use wireguard_natter_helper.Map.{Map, get?, get_or, set, delete, delete_if, values}
use wireguard_natter_helper.Json.{str, Fields, object}
use wireguard_natter_helper.Store.Config.{Node, DomainMember, Binding}
use wireguard_natter_helper.Store.Runtime.{WgInterface, Event, zero_event}
use wireguard_natter_helper.Store.State.{Store, Env, put_bindings, put_endpoints}
use wireguard_natter_helper.Store.Ids.{first_non_empty, contains_string, short_key, auto_binding_id}
use wireguard_natter_helper.Store.Clear.{default_binding_fields}
use wireguard_natter_helper.Store.Audit.{binding_audit}
use wireguard_natter_helper.Store.AutoBinding.{
  bindings_equal, is_auto_binding_id, binding_matches_domain_members, interfaces_for_node,
  binding_exists,
}
use wireguard_natter_helper.Store.Save.{save_both, save_locked, save_runtime_locked}
use wireguard_natter_helper.Store.Events.{add_audit_event_locked}

-- The store, `created`, `updated` and the keys of `validAuto`
pub record Round : Type 0 where
  pub store : Store
  pub created : List Binding
  pub updated : ℕ
  pub valid_auto : List String

-- The test of the first loop: an approved node's membership in a named domain
unfoldable pub is_candidate : Map Node → DomainMember → Bool
is_candidate nodes m = elim (get? m.node_id nodes) [
  | none ↦ false
  | some node ↦ node.approved && non_empty m.domain_id
]

-- The body of the first loop
unfoldable pub add_candidate :
    Map Node → DomainMember → Map (List DomainMember) → Map (List DomainMember)
add_candidate nodes m groups =
    if is_candidate nodes m
    then set m.domain_id (get_or m.domain_id [] groups ++ m ∷ []) groups
    else groups

-- `membersByDomain`
unfoldable pub members_by_domain : Map Node → List DomainMember → Map (List DomainMember)
members_by_domain nodes members = for_each (add_candidate nodes) members []

-- The binding of a server's and a client's interface, before its defaults
unfoldable pub auto_binding :
    String → DomainMember → DomainMember → WgInterface → WgInterface → Binding
unfolding first_non_empty
auto_binding domain_id server client server_iface client_iface = record {
  id = auto_binding_id domain_id server.node_id server_iface.name client.node_id client_iface.name;
  domain_id = domain_id;
  auto = true;
  server_node_id = server.node_id;
  server_interface = server_iface.name;
  client_node_id = client.node_id;
  client_interface = client_iface.name;
  peer_public_key = server_iface.public_key;
  config_type = first_non_empty (client.config_type ∷ client_iface.config_type ∷ []);
  config_path = client_iface.config_path;
  reload_method = client.reload_method;
  endpoint_host = "";
  endpoint_port = pos 0;
  enabled = true;
}

abbrev auto_event : String → String → String → Option Fields → Binding → String → Fields → Event
auto_event type action id before b message payload = record zero_event {
  type = type;
  severity = "info";
  actor = "daemon";
  target = "binding:" <> id;
  action = action;
  before = before;
  after = binding_audit b;
  result = "success";
  binding_id = id;
  message = message;
  payload = some payload;
}

abbrev updated_event : String → Binding → Binding → Event
updated_event domain_id existing b =
    auto_event "binding.auto_updated" "binding.auto_update" b.id (binding_audit existing) b
      ("Auto-updated binding " <> b.id <> " in domain " <> domain_id
        <> " from current domain membership and WireGuard inventory")
      (object (("domain_id", str domain_id) ∷ []))

abbrev created_event : String → Binding → Event
created_event domain_id b =
    auto_event "binding.auto_created" "binding.auto_create" b.id none b
      ("Auto-created binding "
        <> b.id
        <> " in domain "
        <> domain_id
        <> ": "
        <> b.server_node_id
        <> "/"
        <> b.server_interface
        <> " -> "
        <> b.client_node_id
        <> "/"
        <> b.client_interface
        <> " because client peer contains server public key "
        <> short_key b.peer_public_key)
      (object (
        ("domain_id", str domain_id)
        ∷ ("server_node_id", str b.server_node_id)
        ∷ ("server_interface", str b.server_interface)
        ∷ ("client_node_id", str b.client_node_id)
        ∷ ("client_interface", str b.client_interface)
        ∷ ("peer_public_key", str b.peer_public_key)
        ∷ []))

-- The innermost body, once the client's peers hold the server's key: `b` has its defaults.
unfoldable pub record_binding : Env → String → Binding → Round → Round
unfolding add_audit_event_locked
record_binding env domain_id b round =
    let s = round.store in
    let r = record round { valid_auto = b.id ∷ round.valid_auto } in
    let written = put_bindings (set b.id b s.state.bindings) s in
    elim (get? b.id s.state.bindings) [
      | some existing ↦
          if existing.auto && not (bindings_equal existing b)
          then record r {
            store = add_audit_event_locked env (updated_event domain_id existing b) written;
            updated = r.updated + 1;
          }
          else r
      | none ↦
          if binding_exists domain_id b.server_node_id b.server_interface b.client_node_id
            b.client_interface b.peer_public_key (values s.state.bindings)
          then r
          else record r {
            store = add_audit_event_locked env (created_event domain_id b) written;
            created = r.created ++ b ∷ [];
          }
    ]

-- The loops over the servers and clients of a domain. They read the inventory and never write it.
module _ (env : Env) (inventory : Map WgInterface) (domain_id : String) where
  -- The body of the innermost loop
  unfoldable pub pair_interface :
      DomainMember → DomainMember → WgInterface → WgInterface → Round → Round
  pair_interface server client server_iface client_iface r =
      if contains_string client_iface.peers server_iface.public_key
      then record_binding env domain_id
          (default_binding_fields (auto_binding domain_id server client server_iface client_iface))
          r
      else r

  -- The body of the loop over the server's interfaces
  unfoldable pub pair_server_interface : DomainMember → DomainMember → WgInterface → Round → Round
  pair_server_interface server client server_iface r =
      let tried =
        for_each (pair_interface server client server_iface)
          (interfaces_for_node inventory client.node_id client.interface) r in
      if server_iface.public_key == "" then r else tried

  -- The body of the loop over the clients
  unfoldable pub pair_client : DomainMember → DomainMember → Round → Round
  pair_client server client r =
      let tried =
        for_each (pair_server_interface server client)
          (interfaces_for_node inventory server.node_id server.interface) r in
      if client.node_id == server.node_id || not (client.role == "client") then r else tried

  -- The body of the loop over the servers
  unfoldable pub pair_server : List DomainMember → DomainMember → Round → Round
  pair_server members server r =
      let tried = for_each (pair_client server) members r in
      if not (server.role == "server") then r else tried

-- The body of the loop over the domains
unfoldable pub pair_domain : Env → Map WgInterface → String × List DomainMember → Round → Round
pair_domain env inventory (domain_id, members) =
    for_each (pair_server env inventory domain_id members) members

-- The test of the last loop: an automatic binding that neither was found nor fits the members
unfoldable pub is_stale : List String → Map DomainMember → String → Binding → Bool
is_stale valid_auto members id b =
    (b.auto || is_auto_binding_id b)
    && not (contains_string valid_auto id || binding_matches_domain_members b members)

abbrev auto_deleted_event : String → Binding → Event
auto_deleted_event id b = record zero_event {
  type = "binding.auto_deleted";
  severity = "info";
  actor = "daemon";
  target = "binding:" <> id;
  action = "binding.auto_delete";
  before = binding_audit b;
  result = "success";
  binding_id = id;
  message =
      "Auto-deleted binding " <> id <> " because it no longer matches current domain membership";
  payload = some (object (("domain_id", str b.domain_id) ∷ []));
}

-- The entries of a map that pass a test
unfoldable pub entries_if : (String → Binding → Bool) → Map Binding → List (String × Binding)
entries_if p = keep_if (λ (id, b). p id b)

-- What the last loop writes for each binding that it deletes
unfoldable pub forget_binding : Env → String × Binding → Store → Store
unfolding add_audit_event_locked
forget_binding env (id, b) s =
    add_audit_event_locked env (auto_deleted_event id b)
      (put_endpoints (delete id s.runtime.binding_endpoint) s)

-- The last loop
unfoldable pub remove_stale : Env → List String → Store → Store
remove_stale env valid_auto s =
    let stale = is_stale valid_auto s.state.domain_members in
    for_each (forget_binding env) (entries_if stale s.state.bindings)
      (put_bindings (delete_if stale s.state.bindings) s)

-- The round after the loops over the domains
unfoldable pub pair_all : Env → Store → Round
pair_all env s =
    for_each (pair_domain env s.runtime.wg_interfaces)
      (members_by_domain s.state.nodes (values s.state.domain_members))
      (record { store = s; created = []; updated = 0; valid_auto = [] })

abbrev pub is_nil {ℓ} : {A : Type ℓ} → List A → Bool
is_nil [] = true
is_nil (_ ∷ _) = false

-- `ReconcileAutoBindings`
unfoldable pub reconcile_auto_bindings : Env → Store → Store × Result (List Binding)
unfolding save_both
reconcile_auto_bindings env s =
    let round = pair_all env s in
    let before = round.store in
    let stale =
      entries_if (is_stale round.valid_auto before.state.domain_members) before.state.bindings in
    let after = remove_stale env round.valid_auto before in
    let (saved, e) = save_both env after in
    let unchanged = is_nil round.created && nat_eq round.updated 0 && is_nil stale in
    (if unchanged then after else saved, if unchanged then ok [] else with_error round.created e)
