-- ===== src/Store/Commands.antt =====
-- The command queues and endpoint leases of internal/store/store.go.
pub mod Served
pub mod Queue
use wireguard_natter_helper.Prelude.{
  if◌then◌else◌, length, ◌<>◌, non_empty, pos, Result, ok, Error, with_error, String, Bool, true,
  false, ◌&&◌, not, Option, none, some, List, [], ◌∷◌, ◌++◌, ◌==◌,
}
use wireguard_natter_helper.Map.{Map, get_or, set}
use wireguard_natter_helper.Json.{
  Json, bool, num, str, obj, Fields, end, field, lookup, string_value, object,
}
use wireguard_natter_helper.Protocol.{Command}
use wireguard_natter_helper.Store.Config.{Binding}
use wireguard_natter_helper.Store.Runtime.{
  EndpointLease, BindingEndpoint, QueuedCommand, zero_event,
}
use wireguard_natter_helper.Store.State.{
  RuntimeData, Store, Env, with_runtime, put_leases, put_commands,
}
use wireguard_natter_helper.Store.Clear.{binding_with_endpoint}
use wireguard_natter_helper.Store.Save.{save_runtime_locked}
use wireguard_natter_helper.Store.Events.{add_audit_event_locked}

-- `QueueCommand`
unfoldable pub queue_command : Env → String → Command → Store → Store × Error
unfolding save_runtime_locked add_audit_event_locked
queue_command env node_id cmd s =
    let queued : QueuedCommand = record {
      command = cmd;
      status = "pending";
      result = end;
      created_at = env.now;
    } in
    let queue = get_or node_id [] s.runtime.commands ++ queued ∷ [] in
    let event = record zero_event {
      type = "command.queued";
      severity = "info";
      actor = "daemon";
      target = "node:" <> node_id;
      action = "command.queue";
      after = some (
          object (
            ("command_id", str cmd.command_id)
            ∷ ("action", str cmd.action)
            ∷ ("payload", obj cmd.payload)
            ∷ ("status", str "pending")
            ∷ []));
      result = "success";
      node_id = node_id;
      message =
          "Queued command " <> cmd.command_id <> " action=" <> cmd.action <> " for node "
          <> node_id;
      payload = some (
          object (
            ("action", str cmd.action)
            ∷ ("command_id", str cmd.command_id)
            ∷ ("payload", obj cmd.payload)
            ∷ []));
    } in
    save_runtime_locked env
      (add_audit_event_locked env event (put_commands (set node_id queue s.runtime.commands) s))

-- The loop of `NextCommand`: the first pending command is marked, and returned.
unfoldable pub deliver_first : List QueuedCommand → Option (List QueuedCommand × Command)
deliver_first [] = none
deliver_first (q ∷ queue) =
    let later = deliver_first queue in
    if q.status == "pending"
    then some (record q { status = "delivered" } ∷ queue, q.command)
    else elim later [ none ↦ none | some (rest, cmd) ↦ some (q ∷ rest, cmd) ]

-- `NextCommand`; no command is no error.
unfoldable pub next_command : Env → String → Store → Store × Result (Option Command)
unfolding save_runtime_locked
next_command env node_id s = elim (deliver_first (get_or node_id [] s.runtime.commands)) [
  | none ↦ (s, ok none)
  | some (queue, cmd) ↦
      let (s', e) =
        save_runtime_locked env (put_commands (set node_id queue s.runtime.commands) s) in
      (s', with_error (some cmd) e)
]

-- The loop of `CompleteCommand`: the first command with the identifier.
unfoldable pub complete_first : String → Fields → List QueuedCommand → List QueuedCommand
complete_first command_id result [] = []
complete_first command_id result (q ∷ queue) =
    if q.command.command_id == command_id
    then record q { status = "completed"; result = result } ∷ queue
    else q ∷ complete_first command_id result queue

-- `exists && ok == false` of the result's "ok"
abbrev pub is_false : Json → Bool
is_false (bool b) = not b
is_false _ = false

abbrev is_empty_object : Fields → Bool
is_empty_object end = true
is_empty_object (field _ _ _) = false

-- `summarizeResult`
unfoldable pub summarize_result : Env → Fields → String
summarize_result env result =
    let message = string_value (lookup "message" result) in
    let error_text = string_value (lookup "error" result) in
    let host = string_value (lookup "endpoint_host" result) in
    let whole = env.format (obj result) in
    if is_empty_object result
    then "no result payload"
    else if non_empty message
    then message
    else if non_empty error_text
    then error_text
    else if non_empty host
    then "endpoint=" <> host <> ":" <> env.format (lookup "endpoint_port" result)
    else whole

-- `CompleteCommand`
unfoldable pub complete_command : Env → String → String → Fields → Store → Store × Error
unfolding save_runtime_locked add_audit_event_locked
complete_command env node_id command_id result s =
    let queue = complete_first command_id result (get_or node_id [] s.runtime.commands) in
    let failed = is_false (lookup "ok" result) in
    let status = if failed then "failed" else "completed" in
    let event = record zero_event {
      type = "command.completed";
      severity = if failed then "error" else "info";
      actor = "agent:" <> node_id;
      target = "command:" <> command_id;
      action = "command.complete";
      after = some (
          object (
            ("command_id", str command_id) ∷ ("status", str status) ∷ ("result", obj result) ∷ []));
      result = status;
      error = if failed then string_value (lookup "error" result) else "";
      node_id = node_id;
      message =
          "Command "
          <> command_id
          <> " "
          <> status
          <> " on node "
          <> node_id
          <> ": "
          <> summarize_result env result;
      payload = some result;
    } in
    save_runtime_locked env
      (add_audit_event_locked env event (put_commands (set node_id queue s.runtime.commands) s))

-- The bindings that an endpoint of a server's interface is for
abbrev pub is_served_by : String → String → Binding → Bool
is_served_by node_id interface b =
    b.enabled && b.server_node_id == node_id && b.server_interface == interface

-- The loop of `SaveEndpointLease`: the endpoints written, and the bindings returned.
unfoldable pub serve_bindings :
    BindingEndpoint → (Binding → Bool) → Map Binding → RuntimeData → RuntimeData × List Binding
serve_bindings endpoint served [] r = (r, [])
serve_bindings endpoint served ((id, b) ∷ m) r =
    let r1 =
      if served b then record r { binding_endpoint = set id endpoint r.binding_endpoint } else r in
    let (r2, rest) = serve_bindings endpoint served m r1 in
    (r2, if served b then binding_with_endpoint r1 id b ∷ rest else rest)

-- `SaveEndpointLease`
unfoldable pub save_endpoint_lease :
    Env → String → EndpointLease → Store → Store × Result (List Binding)
unfolding save_runtime_locked add_audit_event_locked
save_endpoint_lease env node_id given s =
    let lease = record given { server_node_id = node_id; created_at = env.now } in
    let s1 = put_leases (s.runtime.endpoint_leases ++ lease ∷ []) s in
    let endpoint : BindingEndpoint = record {
      host = lease.public_ip;
      port = lease.public_port;
      updated_at = lease.created_at;
    } in
    let (r, matched) =
      serve_bindings endpoint (is_served_by node_id lease.server_interface) s1.state.bindings
        s1.runtime in
    let count = num (pos (length matched)) in
    let event = record zero_event {
      type = "endpoint.updated";
      severity = "info";
      actor = "agent:" <> node_id;
      target = "interface:" <> node_id <> "/" <> lease.server_interface;
      action = "endpoint.update";
      after = some (
          object (
            ("public_ip", str lease.public_ip)
            ∷ ("public_port", num lease.public_port)
            ∷ ("matched_bindings", count)
            ∷ []));
      result = "success";
      node_id = node_id;
      message =
          "Node "
          <> node_id
          <> " updated "
          <> lease.server_interface
          <> " endpoint to "
          <> lease.public_ip
          <> ":"
          <> env.format (num lease.public_port)
          <> " and matched "
          <> env.format count
          <> " binding(s)";
      payload = some (
          object (
            ("server_node_id", str node_id)
            ∷ ("server_interface", str lease.server_interface)
            ∷ ("public_ip", str lease.public_ip)
            ∷ ("public_port", num lease.public_port)
            ∷ ("matched_bindings", count)
            ∷ []));
    } in
    let (s2, e) = save_runtime_locked env (add_audit_event_locked env event (with_runtime r s1)) in
    (s2, with_error matched e)
