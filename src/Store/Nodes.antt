-- ===== src/Store/Nodes.antt =====
-- The node methods of internal/store/store.go: creation, authentication, registration and joining.
-- A method returns the store and its result; an error return leaves what was assigned before it.
use wireguard_natter_helper.Prelude.{
  if◌then◌else◌, ◌<>◌, non_empty, Result, err, Error, with_error, String, Bool, true, false, ◌&&◌,
  ◌||◌, not, Option, none, some, [], ◌∷◌, ◌==◌,
}
use wireguard_natter_helper.Map.{get?, has, get_or, set}
use wireguard_natter_helper.Json.{bool, str, Fields, lookup, string_value, object}
use wireguard_natter_helper.Auth.{hash_token, verify_token}
use wireguard_natter_helper.Store.Config.{Node, zero_node}
use wireguard_natter_helper.Store.Runtime.{NodeRuntime, zero_runtime, Event, zero_event}
use wireguard_natter_helper.Store.State.{Store, Env, put_nodes, put_node_runtime, put_pending}
use wireguard_natter_helper.Store.Ids.{label}
use wireguard_natter_helper.Store.Clear.{node_with_runtime}
use wireguard_natter_helper.Store.Save.{save_runtime_locked, save_both}
use wireguard_natter_helper.Store.Events.{add_audit_event_locked}

-- `runtime.Platform, _ = meta["platform"].(string)` and the agent's version, unless `meta` is nil
unfoldable pub with_meta : Option Fields → NodeRuntime → NodeRuntime
with_meta none r = r
with_meta (some meta) r = record r {
  platform = string_value (lookup "platform" meta);
  agent_version = string_value (lookup "agent_version" meta);
}

-- `CreateNode`
unfoldable pub create_node : Env → String → String → String → Store → Store × Error
unfolding save_both add_audit_event_locked
create_node env id name token s =
    let node = record zero_node {
      id = id;
      name = name;
      token_hash = hash_token env token;
      approved = true;
    } in
    let s1 = put_nodes (set id node s.state.nodes) s in
    let offline = record zero_runtime { status = "offline" } in
    let s2 = put_node_runtime (set id offline s.runtime.node_runtime) s1 in
    let event = record zero_event {
      type = "node.upserted";
      severity = "info";
      actor = "admin";
      target = "node:" <> id;
      action = "node.create";
      after =
          some (object (("node_id", str id) ∷ ("name", str name) ∷ ("approved", bool true) ∷ []));
      result = "success";
      node_id = id;
      message = "Node " <> label name id <> " saved";
    } in
    save_both env (add_audit_event_locked env event s2)

-- `AuthenticateNodeAnyStatus`
unfoldable pub authenticate_node_any_status : Env → String → String → Store → Option Node
unfolding verify_token
authenticate_node_any_status env id token s = elim (get? id s.state.nodes) [
  | none ↦ none
  | some node ↦ if verify_token env token node.token_hash then some node else none
]

-- `AuthenticateNode`
unfoldable pub authenticate_node : Env → String → String → Store → Option Node
unfolding authenticate_node_any_status
authenticate_node env id token s = elim (authenticate_node_any_status env id token s) [
  | none ↦ none
  | some node ↦ if node.approved then some node else none
]

-- `MarkSeen`
unfoldable pub mark_seen : Env → String → Option Fields → Store → Store × Error
unfolding save_runtime_locked
mark_seen env id meta s =
    let node = get_or id zero_node s.state.nodes in
    let before = get_or id zero_runtime s.runtime.node_runtime in
    let seen = record before {
      status = if node.approved then "online" else "pending";
      last_seen_at = env.now;
    } in
    save_runtime_locked env
      (put_node_runtime (set id (with_meta meta seen) s.runtime.node_runtime) s)

-- The runtime entry that a node which waits for approval gets when it reports.
unfoldable pub pending_runtime : Env → Option Fields → NodeRuntime → NodeRuntime
unfolding with_meta
pending_runtime env meta before =
    with_meta meta (record before { last_seen_at = env.now; status = "pending" })

-- The new node of `UpsertJoinedNode` and `UpsertPendingNode`
unfoldable pub unapproved_node : Env → String → String → String → Node
unfolding hash_token
unapproved_node env id name token = record zero_node {
  id = id;
  name = if name == "" then id else name;
  token_hash = hash_token env token;
  approved = false;
}

abbrev joined_event : String → Node → Event
joined_event domain_id node = record zero_event {
  type = "node.joined";
  severity = "info";
  actor = "agent:" <> node.id;
  target = "domain:" <> domain_id;
  action = "node.join";
  after = some (
      object (
        ("node_id", str node.id)
        ∷ ("node_name", str node.name)
        ∷ ("domain_id", str domain_id)
        ∷ ("status", str "pending")
        ∷ []));
  result = "success";
  node_id = node.id;
  message =
      "Node "
      <> label node.name node.id
      <> " joined domain "
      <> domain_id
      <> " and is pending approval";
  payload = some (object (("domain_id", str domain_id) ∷ ("node_name", str node.name) ∷ []));
}

-- `UpsertJoinedNode`; the flag says that the node was created.
unfoldable pub upsert_joined_node :
    Env → String → String → String → String → Option Fields → Store → Store × Result (Node × Bool)
unfolding save_runtime_locked save_both add_audit_event_locked
upsert_joined_node env domain_id node_id name token meta s =
    if node_id == "" || token == ""
    then (s, err "node id and token are required")
    else if not (has domain_id s.state.domains)
    then (s, err "domain not found")
    else elim (get? node_id s.state.nodes) [
      | some existing ↦
          if not (verify_token env token existing.token_hash)
          then (s, err "node id already exists with a different token")
          else let runtime =
              pending_runtime env meta (get_or node_id zero_runtime s.runtime.node_runtime) in
            let s1 = put_pending (set node_id domain_id s.runtime.pending_domain) s in
            let s2 = put_node_runtime (set node_id runtime s1.runtime.node_runtime) s1 in
            let (s3, e) = save_runtime_locked env s2 in
            (s3, with_error (node_with_runtime s2.runtime existing, false) e)
      | none ↦
          let node = unapproved_node env node_id name token in
          let runtime = pending_runtime env meta zero_runtime in
          let s1 = put_nodes (set node_id node s.state.nodes) s in
          let s2 = put_node_runtime (set node_id runtime s1.runtime.node_runtime) s1 in
          let s3 = put_pending (set node_id domain_id s2.runtime.pending_domain) s2 in
          let s4 = add_audit_event_locked env (joined_event domain_id node) s3 in
          let (s5, e) = save_both env s4 in
          (s5, with_error (node_with_runtime s4.runtime node, true) e)
    ]

abbrev registered_event : Node → Event
registered_event node = record zero_event {
  type = "node.registered";
  severity = "info";
  actor = "agent:" <> node.id;
  target = "node:" <> node.id;
  action = "node.register";
  after = some (
      object
        (("node_id", str node.id) ∷ ("node_name", str node.name) ∷ ("status", str "pending") ∷ []));
  result = "success";
  node_id = node.id;
  message = "Node " <> label node.name node.id <> " registered and is pending approval";
  payload = some (object (("node_name", str node.name) ∷ []));
}

-- `if existing.Name == "" && name != "" { existing.Name = name }`
unfoldable pub named_node : String → Node → Node
named_node name n = record n { name = if n.name == "" && non_empty name then name else n.name }

-- `UpsertPendingNode`; the flag says that the node was created.
unfoldable pub upsert_pending_node :
    Env → String → String → String → Option Fields → Store → Store × Result (Node × Bool)
unfolding save_runtime_locked save_both add_audit_event_locked
upsert_pending_node env node_id name token meta s =
    if node_id == "" || token == ""
    then (s, err "node id and token are required")
    else elim (get? node_id s.state.nodes) [
      | some existing ↦
          if not (verify_token env token existing.token_hash)
          then (s, err "node id already exists with a different token")
          else let named = named_node name existing in
            let runtime =
              pending_runtime env meta (get_or node_id zero_runtime s.runtime.node_runtime) in
            let s1 = put_nodes (set node_id named s.state.nodes) s in
            let s2 = put_node_runtime (set node_id runtime s1.runtime.node_runtime) s1 in
            let (s3, e) = save_both env s2 in
            (s3, with_error (node_with_runtime s2.runtime named, false) e)
      | none ↦
          let node = unapproved_node env node_id name token in
          let runtime = pending_runtime env meta zero_runtime in
          let s1 = put_nodes (set node_id node s.state.nodes) s in
          let s2 = put_node_runtime (set node_id runtime s1.runtime.node_runtime) s1 in
          let s3 = add_audit_event_locked env (registered_event node) s2 in
          let (s4, e) = save_both env s3 in
          (s4, with_error (node_with_runtime s3.runtime node, true) e)
    ]
