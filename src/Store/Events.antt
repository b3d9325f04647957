-- ===== src/Store/Events.antt =====
-- The audit log of internal/store/store.go: a file of one encoded event to a line, cut from the
-- front when it grows, and read backwards.
pub mod Rotation
pub mod Hidden
pub mod Log
pub mod Bytes
use wireguard_natter_helper.Prelude.{
  if◌then◌else◌, ◌<>◌, non_empty, ℤ, Error, ℕ, String, ◌||◌, Option, none, some, List, [], ◌∷◌,
  ◌++◌, ◌==◌,
}
use wireguard_natter_helper.Store.Events.Bytes.{
  max_event_log_bytes, rotate_file_tail, scan_lines, decoded, newest_first,
}
use wireguard_natter_helper.Json.{Json, str, Fields, lookup, object}
use wireguard_natter_helper.Store.Runtime.{Event, zero_event}
use wireguard_natter_helper.Store.State.{Store, Env}

-- The event file's bytes after `appendEventFileLocked`
unfoldable pub appended : Env → Event → List ℕ → List ℕ
appended env e bytes =
    let written = bytes ++ (env.encode_event e ++ 10 ∷ []) in
    let rotated = rotate_file_tail max_event_log_bytes written in
    elim env.event_fault [
      | some _ ↦ bytes
      | none ↦ elim env.rotate_fault [ some _ ↦ written | none ↦ rotated ]
    ]

-- `appendEventFileLocked`
unfoldable pub append_event_file_locked : Env → Event → Store → Store × Error
append_event_file_locked env e s = (
  record s { disk = record s.disk { events = appended env e s.disk.events } },
  elim env.event_fault [ some x ↦ some x | none ↦ env.rotate_fault ],
)

-- The fields that `addAuditEventLocked` fills in.
unfoldable pub complete_event : Env → Event → Event
complete_event env e =
    let failed = non_empty e.error || e.severity == "error" in
    record e {
      created_at = if e.created_at == "" then env.now else e.created_at;
      result = if e.result == "" then (if failed then "failed" else "success") else e.result;
    }

-- `addAuditEventLocked`: an error of the file is printed and dropped.
unfoldable pub add_audit_event_locked : Env → Event → Store → Store
unfolding append_event_file_locked
add_audit_event_locked env e s = (append_event_file_locked env (complete_event env e) s).0

abbrev copied : List (String × String) → Fields → List (String × Json)
copied [] payload = []
copied ((to, from) ∷ names) payload = (to, lookup from payload) ∷ copied names payload

-- `addEventLocked`, `AddEvent`
unfoldable pub add_event : Env → String → String → String → String → String → Fields → Store → Store
add_event env type severity node_id binding_id message payload =
    let event = record zero_event {
      type = type;
      severity = severity;
      node_id = node_id;
      binding_id = binding_id;
      message = message;
      payload = some payload;
      created_at = env.now;
    } in
    let of_binding = record event {
      actor = "agent:" <> node_id;
      target = "binding:" <> binding_id;
      action = type;
    } in
    let by_default = record event {
      actor = if non_empty node_id then "agent:" <> node_id else "daemon";
      target =
          if non_empty binding_id
          then "binding:" <> binding_id
          else if non_empty node_id
          then "node:" <> node_id
          else type;
      action = type;
      after = some payload;
    } in
    add_audit_event_locked env (
      if type == "peer.unreachable"
      then record of_binding {
        after = some (
            object (
              ("binding_id", str binding_id)
              ∷ copied
                  (("server_node_id", "server_node_id")
                    ∷ ("server_interface", "server_interface")
                    ∷ ("client_interface", "interface")
                    ∷ ("last_handshake", "last_handshake")
                    ∷ [])
                  payload));
        result = "warning";
      }
      else if type == "peer.recovered"
      then record of_binding {
        after = some (
            object (
              ("binding_id", str binding_id)
              ∷ copied
                  (("client_interface", "interface") ∷ ("last_handshake", "last_handshake") ∷ [])
                  payload));
      }
      else if type == "agent.report"
      then record event {
        actor = "agent:" <> node_id;
        target = "node:" <> node_id;
        action = type;
        after = some payload;
      }
      else by_default)

-- `readEventsLocked`, `Events`; `decode` is `json.Unmarshal`, and a line that it refuses is skipped.
unfoldable pub events : (List ℕ → Option Event) → ℤ → Store → List Event
events decode limit s = newest_first limit (decoded decode (scan_lines s.disk.events))
