-- ===== src/Store/Open.antt =====
-- `Open` and `ensureMaps` of internal/store/store.go: reading the files, and moving the deprecated
-- fields of an older state file to where they belong now.
pub mod RoundTrip
use wireguard_natter_helper.Prelude.{
  if◌then◌else◌, for_each, non_empty, is_positive, Result, err, Error, with_error, String, Bool,
  ◌&&◌, ◌||◌, none, some, List, [], ◌∷◌, ◌==◌,
}
use wireguard_natter_helper.Map.{Map, has, set, update_all, values}
use wireguard_natter_helper.Store.Config.{Node, DomainMember, Binding}
use wireguard_natter_helper.Store.Runtime.{NodeRuntime, BindingEndpoint, Event}
use wireguard_natter_helper.Store.State.{
  Data, new_data, new_runtime_data, missing, blank, garbled, holds, Disk, Store, Env, with_state,
}
use wireguard_natter_helper.Store.Ids.{domain_member_key, first_non_empty}
use wireguard_natter_helper.Store.Clear.{
  clear_node_transient_fields, clear_binding_endpoint, clear_deprecated,
  default_member_runtime_fields,
}
use wireguard_natter_helper.Store.Save.{save, load_runtime}
use wireguard_natter_helper.Store.Events.{append_event_file_locked, events}

-- The member that an older node record stands for
unfoldable pub migrated_member : Node → DomainMember
migrated_member n = default_member_runtime_fields (record {
  domain_id = n.domain_id;
  node_id = n.id;
  role = n.role;
  node_type = n.node_type;
  interface = n.interface;
  config_type = n.config_type;
  reload_method = n.reload_method;
  natter_managed = n.natter_managed;
  natter_configured = n.natter_configured;
  natter_command = n.natter_command;
  natter_timeout_seconds = n.natter_timeout_seconds;
  natter_stop_wireguard = n.natter_stop_wireguard;
  natter_wireguard_control = n.natter_wireguard_control;
  natter_restart_delay_seconds = n.natter_restart_delay_seconds;
  updated_at = n.last_seen_at;
})

-- The first loop of `ensureMaps`
unfoldable pub migrate_member : Node → Map DomainMember → Map DomainMember
migrate_member n members =
    let key = domain_member_key n.domain_id n.id in
    if n.domain_id == "" || n.interface == "" || n.role == ""
    then members
    else if has key members
    then members
    else set key (migrated_member n) members

-- The second loop, on the runtime's side
unfoldable pub migrate_runtime : String × Node → Map NodeRuntime → Map NodeRuntime
unfolding first_non_empty
migrate_runtime (id, n) runtimes =
    let moved : NodeRuntime = record {
      status = first_non_empty (n.status ∷ "offline" ∷ []);
      platform = n.platform;
      agent_version = n.agent_version;
      last_seen_at = n.last_seen_at;
    } in
    if non_empty n.status
      || non_empty n.last_seen_at
      || non_empty n.platform
      || non_empty n.agent_version
    then set id moved runtimes
    else runtimes

abbrev pub has_endpoint : Binding → Bool
has_endpoint b = non_empty b.endpoint_host && is_positive b.endpoint_port

-- The loop over the bindings, on the runtime's side
unfoldable pub migrate_endpoint :
    String → String × Binding → Map BindingEndpoint → Map BindingEndpoint
migrate_endpoint now (id, b) endpoints =
    let moved : BindingEndpoint = record {
      host = b.endpoint_host;
      port = b.endpoint_port;
      updated_at = now;
    } in
    if has_endpoint b then set id moved endpoints else endpoints

-- `m[k] = v` for every entry of an older map
unfoldable pub copy_entries {ℓ} : {V : Type ℓ} → Map V → Map V → Map V
copy_entries = for_each (λ (k, v) m. set k v m)

-- The loop over the older events stops at the first error.
unfoldable pub append_events : Env → List Event → Store → Store × Error
append_events env [] s = (s, none)
append_events env (e ∷ es) s =
    let (s', x) = append_event_file_locked env e s in
    let rest = append_events env es s' in elim x [ some y ↦ (s', some y) | none ↦ rest ]

-- `ensureMaps`, up to the events
unfoldable pub migrated : String → Store → Store
migrated now s = record s {
  state = record s.state {
    nodes = update_all (λ _ n. clear_node_transient_fields n) s.state.nodes;
    domain_members = for_each migrate_member (values s.state.nodes) s.state.domain_members;
    bindings =
        update_all (λ _ b. if has_endpoint b then clear_binding_endpoint b else b) s.state.bindings;
  };
  runtime = record s.runtime {
    node_runtime = for_each migrate_runtime s.state.nodes s.runtime.node_runtime;
    wg_interfaces = copy_entries s.state.wg_interfaces s.runtime.wg_interfaces;
    commands = copy_entries s.state.commands s.runtime.commands;
    endpoint_leases = elim s.state.endpoint_leases [
      | [] ↦ s.runtime.endpoint_leases
      | l ∷ ls ↦ l ∷ ls
    ];
    binding_endpoint = for_each (migrate_endpoint now) s.state.bindings s.runtime.binding_endpoint;
  };
}

-- `ensureMaps`
unfoldable pub ensure_maps : Env → Store → Store × Error
ensure_maps env s =
    let (s', e) = append_events env s.state.events (migrated env.now s) in
    elim e [ some x ↦ (s', some x) | none ↦ (with_state (clear_deprecated s'.state) s', none) ]

-- The rest of `Open` once the state file is decoded
unfoldable pub open_with : Env → Data → Disk → Result Store
open_with env d disk =
    let s0 : Store = record { state = d; runtime = new_runtime_data; disk = disk } in
    let (s1, e1) = load_runtime env s0 in
    let (s2, e2) = ensure_maps env s1 in
    let (s3, e3) = save env s2 in
    elim e1 [ some x ↦ err x | none ↦ elim e2 [ some x ↦ err x | none ↦ with_error s3 e3 ] ]

-- `Open`; the directory exists, and a file that is there can be read.
unfoldable pub open_store : Env → Disk → Result Store
open_store env disk =
    let fresh = save env (record { state = new_data; runtime = new_runtime_data; disk = disk }) in
    elim disk.state [
      | missing ↦ with_error fresh.0 fresh.1
      | blank ↦ open_with env new_data disk
      | garbled e ↦ err e
      | holds d ↦ open_with env d disk
    ]
