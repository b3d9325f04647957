-- ===== src/Store/Domains.antt =====
-- The domain methods of internal/store/store.go, and the readers of the other maps.
use wireguard_natter_helper.Prelude.{
  if◌then◌else◌, keep_if, ◌<>◌, non_empty, Error, String, Bool, ◌&&◌, Option, none, some, List, [],
  ◌∷◌, map, ◌==◌,
}
use wireguard_natter_helper.Map.{Map, has, set, values}
use wireguard_natter_helper.Json.{str, object}
use wireguard_natter_helper.Store.Config.{Node, Domain, DomainMember, Binding}
use wireguard_natter_helper.Store.Runtime.{WgInterface, zero_event}
use wireguard_natter_helper.Store.State.{RuntimeData, Store, Env, put_domains}
use wireguard_natter_helper.Store.Clear.{
  clear_node_config_fields, node_with_runtime, binding_with_endpoint,
}
use wireguard_natter_helper.Store.Save.{save_locked}
use wireguard_natter_helper.Store.Events.{add_audit_event_locked}

-- The domain that `CreateDomain` stores
unfoldable pub new_domain : Env → String → String → String → String → Domain
new_domain env id given_name join_code description = record {
  id = id;
  name = if given_name == "" then id else given_name;
  join_code = join_code;
  description = description;
  created_at = env.now;
}

-- `CreateDomain`
unfoldable pub create_domain : Env → String → String → String → String → Store → Store × Error
unfolding save_locked add_audit_event_locked
create_domain env id given_name join_code description s =
    let name = if given_name == "" then id else given_name in
    let domain = new_domain env id given_name join_code description in
    let event = record zero_event {
      type = "domain.created";
      severity = "info";
      actor = "admin";
      target = "domain:" <> id;
      action = "domain.create";
      after = some (
          object
            (("domain_id", str id) ∷ ("name", str name) ∷ ("description", str description) ∷ []));
      result = "success";
      message = "Domain " <> id <> " created";
      payload = some (object (("domain_id", str id) ∷ ("name", str name) ∷ []));
    } in
    if id == ""
    then (s, some "domain id is required")
    else if has id s.state.domains
    then (s, some "domain already exists")
    else save_locked env
        (add_audit_event_locked env event (put_domains (set id domain s.state.domains) s))

-- `Domains`
unfoldable pub domains : Bool → Store → List Domain
domains include_secrets s =
    map (λ d. if include_secrets then d else record d { join_code = "" }) (values s.state.domains)

abbrev find_join_code : String → List Domain → Option Domain
find_join_code code [] = none
find_join_code code (d ∷ ds) =
    if non_empty d.join_code && (d.join_code == code) then some d else find_join_code code ds

-- `DomainByJoinCode`
unfoldable pub domain_by_join_code : String → Store → Option Domain
domain_by_join_code code s = find_join_code code (values s.state.domains)

-- `WGInterfaces`
unfoldable pub wg_interfaces : Store → List WgInterface
wg_interfaces s = values s.runtime.wg_interfaces

-- `DomainMembers`
unfoldable pub domain_members : Store → List DomainMember
domain_members s = values s.state.domain_members

-- `DomainMembersForNode`
unfoldable pub domain_members_for_node : String → Store → List DomainMember
domain_members_for_node node_id s =
    keep_if (λ m. m.node_id == node_id) (values s.state.domain_members)

abbrev with_endpoints : RuntimeData → Map Binding → List Binding
with_endpoints r [] = []
with_endpoints r ((id, b) ∷ m) = binding_with_endpoint r id b ∷ with_endpoints r m

-- `Bindings`
unfoldable pub bindings : Store → List Binding
bindings s = with_endpoints s.runtime s.state.bindings

-- `displayStatus`
unfoldable pub display_status : Env → Node → String
display_status env n =
    if n.last_seen_at == "" then "offline" else elim (env.is_stale n.last_seen_at) [
      | none ↦ n.status
      | some stale ↦ if stale then "offline" else n.status
    ]

-- The loop body of `Nodes`
unfoldable pub shown_node : Env → RuntimeData → Node → Node
unfolding display_status
shown_node env r n =
    let shown = clear_node_config_fields (record (node_with_runtime r n) { token_hash = "" }) in
    record shown { status = display_status env shown }

-- `Nodes`
unfoldable pub nodes : Env → Store → List Node
unfolding shown_node
nodes env s = map (shown_node env s.runtime) (values s.state.nodes)
