-- ===== src/Tests/Requests.antt =====
-- The theorems about the daemon's requests.
use wireguard_natter_helper.Prelude.{true, length, All, pos, ok, ◌≡◌, refl, false, some, List, ◌++◌}
use wireguard_natter_helper.Map.{get?}
use wireguard_natter_helper.Json.{num, str, Fields, end, field, lookup}
use wireguard_natter_helper.Rpc.{Request, zero_request, success}
use wireguard_natter_helper.Store.Config.{Binding}
use wireguard_natter_helper.Store.Runtime.{EndpointLease}
use wireguard_natter_helper.Store.Sound.{is_approved, IsSound}
use wireguard_natter_helper.Store.Commands.{queue_command, is_served_by}
use wireguard_natter_helper.Store.Commands.Queue.{pending}
use wireguard_natter_helper.Store.Commands.Served.{served_bindings, endpoint_of}
use wireguard_natter_helper.Store.Steps.{Reach}
use wireguard_natter_helper.Store.Steps.Identity.{token_of}
use wireguard_natter_helper.Daemon.Inventory.{lease_from_payload}
use wireguard_natter_helper.Daemon.Reports.{
  natter_result, run_command, is_cooling, peer_unreachable,
}
use wireguard_natter_helper.Daemon.Reports.Cooldown.{Names, peer_unreachable-once}
use wireguard_natter_helper.Daemon.Reports.Propagation.{applies_for, natter_result-propagates}
use wireguard_natter_helper.Daemon.Handle.{handle}
use wireguard_natter_helper.Daemon.Handle.Access.{
  AgentKind, is_trusted, handle-untrusted, handle-approvals, handle-token, handle-IsSound,
}
use wireguard_natter_helper.Daemon.Handle.Refines.{is_admin, handle-Reach}
use wireguard_natter_helper.Daemon.Handle.Secrets.{NoHash, handle-NoHash}
use wireguard_natter_helper.Tests.Network.{
  clock, noon, network_state, network_runtime, network, network-IsSound, daemon, noon-alone,
}

-- The administrator deletes the server, and somebody else tries to.
abbrev deletion : Request
deletion = record zero_request {
  kind = "admin.delete_node";
  node_id = "srv";
  admin_token = "secret";
}

abbrev intrusion : Request
intrusion = record deletion { admin_token = "guess" }

-- A poll with a token that is not the server's
abbrev impostor : Request
impostor = record zero_request { kind = "agent.poll"; node_id = "srv"; token = "x" }

handle-Reach_example :
    Reach (is_admin daemon deletion) network (handle noon deletion daemon).0.store
handle-Reach_example = handle-Reach noon deletion daemon (noon-alone (is_admin daemon deletion))

handle-IsSound_example : IsSound (handle noon deletion daemon).0.store.state
handle-IsSound_example = handle-IsSound noon deletion daemon (noon-alone true) network-IsSound

handle-approvals_example :
    is_approved (handle noon intrusion daemon).0.store.state.nodes "srv"
    ≡ is_approved network_state.nodes "srv"
handle-approvals_example = handle-approvals noon intrusion daemon "srv" refl refl (noon-alone false)

server_token : token_of network_state.nodes "srv" ≡ some "#s"
unfolding token_of get?
server_token = refl

handle-token_example : token_of (handle noon intrusion daemon).0.store.state.nodes "srv" ≡ some "#s"
handle-token_example =
    handle-token noon intrusion daemon "srv" "#s" refl refl (noon-alone false) server_token

mistrusted : is_trusted noon impostor network ≡ false
unfolding is_trusted get?
mistrusted = refl

handle-untrusted_example :
    ((handle noon impostor daemon).0 ≡ daemon) × ((handle noon impostor daemon).1.is_ok ≡ false)
handle-untrusted_example = handle-untrusted noon impostor daemon AgentKind.poll mistrusted

handle-NoHash_example : All NoHash (handle noon deletion daemon).1.nodes
handle-NoHash_example = handle-NoHash noon deletion daemon

-- The client has lost its server.
abbrev lost : Fields
lost = field "server_node_id" (str "srv") (field "server_interface" (str "wg0") end)

lost-Names : Names "srv" "wg0" lost
unfolding lookup
lost-Names = (refl, refl)

asked : (peer_unreachable noon "cli" lost daemon).1.command ≡ some (run_command noon "wg0")
unfolding peer_unreachable run_command queue_command is_cooling lookup get?
asked = refl

peer_unreachable-once_example :
    ((peer_unreachable (clock 1200) "cli" lost (peer_unreachable noon "cli" lost daemon).0).1
      ≡ success)
    × ((peer_unreachable
          (clock 1200)
          "cli"
          lost
          (peer_unreachable noon "cli" lost daemon).0).0.store.runtime
        ≡ (peer_unreachable noon "cli" lost daemon).0.store.runtime)
peer_unreachable-once_example =
    peer_unreachable-once noon (clock 1200) "cli" "cli" "srv" "wg0" lost lost daemon
      (run_command noon "wg0") lost-Names lost-Names asked refl

-- The server's new endpoint
abbrev found : Fields
found = field "server_interface" (str "wg0") (
    field "protocol" (str "udp")
      (field "public_ip" (str "9.9.9.9") (field "public_port" (num (pos 4000)) end)))

abbrev found_lease : EndpointLease
found_lease = record {
  server_node_id = "";
  server_interface = "wg0";
  protocol = "udp";
  local_ip = "";
  local_port = pos 0;
  public_ip = "9.9.9.9";
  public_port = pos 4000;
  created_at = "";
}

accepted : lease_from_payload found ≡ ok found_lease
unfolding lease_from_payload lookup
accepted = refl

abbrev served : List Binding
served =
    served_bindings (endpoint_of noon found_lease) (is_served_by "srv" "wg0") network_state.bindings

natter_result-propagates_example :
    ((natter_result noon "srv" found daemon).1 ≡ record success { queued = length served })
    × (pending "cli" (natter_result noon "srv" found daemon).0.store.runtime.commands
        ≡ pending "cli" network_runtime.commands ++ applies_for noon found_lease "cli" 0 served)
natter_result-propagates_example =
    natter_result-propagates noon "srv" "cli" found found_lease daemon accepted refl
