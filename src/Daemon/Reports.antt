-- ===== src/Daemon/Reports.antt =====
-- The agents' reports of internal/daemon/daemon.go: command results, endpoints found, and peers
-- lost and recovered.
pub mod Propagation
pub mod Cooldown
use wireguard_natter_helper.Prelude.{
  ltb, if◌then◌else◌, length, ◌<>◌, ok, err, Error, ℕ, ◌+◌, ◌-◌, String, Bool, false, ◌||◌, none,
  some, List, [], ◌∷◌, ◌==◌,
}
use wireguard_natter_helper.Map.{get?, set}
use wireguard_natter_helper.Json.{num, str, Fields, lookup, string_value, object}
use wireguard_natter_helper.Protocol.{Command, new_command}
use wireguard_natter_helper.Rpc.{Request, Response, success, failure}
use wireguard_natter_helper.Store.Config.{Binding}
use wireguard_natter_helper.Store.Runtime.{EndpointLease}
use wireguard_natter_helper.Store.State.{Store, Env}
use wireguard_natter_helper.Store.Events.{add_event}
use wireguard_natter_helper.Store.Commands.{queue_command, complete_command, save_endpoint_lease}
use wireguard_natter_helper.Daemon.Server.{Server, with_store, authenticate_agent}
use wireguard_natter_helper.Daemon.Inventory.{lease_from_payload}

-- The "endpoint.apply" command for a binding
unfoldable pub apply_command : Env → EndpointLease → ℕ → Binding → Command
apply_command env lease k b = new_command (env.random k) "endpoint.apply" (
    object (
      ("binding_id", str b.id)
      ∷ ("interface", str b.client_interface)
      ∷ ("peer_public_key", str b.peer_public_key)
      ∷ ("config_type", str b.config_type)
      ∷ ("config_path", str b.config_path)
      ∷ ("reload_method", str b.reload_method)
      ∷ ("endpoint_host", str lease.public_ip)
      ∷ ("endpoint_port", num lease.public_port)
      ∷ []))

-- The loop over the bindings that the endpoint is for; an error ends it.
unfoldable pub queue_applies : Env → EndpointLease → ℕ → List Binding → Store → Store × Error
queue_applies env lease k [] s = (s, none)
queue_applies env lease k (b ∷ bs) s =
    let (s', e) = queue_command env b.client_node_id (apply_command env lease k b) s in
    let rest = queue_applies env lease (k + 1) bs s' in
    elim e [ some x ↦ (s', some x) | none ↦ rest ]

-- The case "natter.result" of `agentReport`
unfoldable pub natter_result : Env → String → Fields → Server → Server × Response
natter_result env node_id payload srv = elim (lease_from_payload payload) [
  | err e ↦ (srv, failure e)
  | ok lease ↦
      let (s1, matched) = save_endpoint_lease env node_id lease srv.store in
      elim matched [
        | err e ↦ (with_store s1 srv, failure e)
        | ok served ↦
            let (s2, e) = queue_applies env lease 0 served s1 in
            (
              with_store s2 srv,
              elim e [ some x ↦ failure x | none ↦ record success { queued = length served } ],
            )
      ]
]

-- The "natter.run" command for a server's interface
unfoldable pub run_command : Env → String → Command
run_command env interface =
    new_command (env.random 0) "natter.run" (object (("server_interface", str interface) ∷ []))

-- `last := s.lastNatterRun[key]; !last.IsZero() && now.Sub(last) < s.natterCooldown`
unfoldable pub is_cooling : Server → String → ℕ → Bool
is_cooling srv key now = elim (get? key srv.last_natter_run) [
  | none ↦ false
  | some last ↦ ltb (now - last) srv.natter_cooldown
]

-- `peerUnreachable`
unfoldable pub peer_unreachable : Env → String → Fields → Server → Server × Response
peer_unreachable env node_id payload srv =
    let server_node_id = string_value (lookup "server_node_id" payload) in
    let server_interface = string_value (lookup "server_interface" payload) in
    let binding_id = string_value (lookup "binding_id" payload) in
    let s1 =
      add_event env "peer.unreachable" "warning" node_id binding_id "Peer handshake is stale"
        payload srv.store in
    let key = server_node_id <> "/" <> server_interface in
    let cmd = run_command env server_interface in
    let (s2, e) = queue_command env server_node_id cmd s1 in
    if server_node_id == "" || server_interface == ""
    then (srv, failure "peer.unreachable requires server_node_id and server_interface")
    else if is_cooling srv key env.time
    then (with_store s1 srv, success)
    else elim e [
      | some x ↦ (with_store s2 srv, failure x)
      | none ↦ (
        record srv { store = s2; last_natter_run = set key env.time srv.last_natter_run },
        record success { command = some cmd },
      )
    ]

-- `agentReport`
unfoldable pub agent_report : Env → Request → Server → Server × Response
agent_report env req srv = elim (authenticate_agent env req srv.store) [
  | err e ↦ (srv, failure e)
  | ok node_id ↦
      let (s1, e) = complete_command env node_id req.command_id req.payload srv.store in
      if req.report_type == "action.result"
      then (with_store s1 srv, elim e [ some x ↦ failure x | none ↦ success ])
      else if req.report_type == "natter.result"
      then natter_result env node_id req.payload srv
      else if req.report_type == "peer.unreachable"
      then peer_unreachable env node_id req.payload srv
      else if req.report_type == "peer.recovered"
      then (
        with_store
            (add_event env "peer.recovered" "info" node_id
              (string_value (lookup "binding_id" req.payload)) "Peer handshake recovered"
              req.payload srv.store)
            srv,
        success,
      )
      else (
        with_store
            (add_event env "agent.report" "info" node_id "" "Agent report" req.payload srv.store)
            srv,
        success,
      )
]
