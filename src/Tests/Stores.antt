-- ===== src/Tests/Stores.antt =====
-- The theorems about the store's methods.
use wireguard_natter_helper.Prelude.{
  length, keep_if, pos, ok, is_ok, ◌≤◌, ◌≡◌, refl, true, false, none, some, [], ◌∷◌, arith,
}
use wireguard_natter_helper.Map.{get?, set, delete, delete_if}
use wireguard_natter_helper.Store.Config.{Node}
use wireguard_natter_helper.Store.Runtime.{EndpointLease}
use wireguard_natter_helper.Store.State.{Store}
use wireguard_natter_helper.Store.Ids.{domain_member_key, wg_interface_key, first_non_empty}
use wireguard_natter_helper.Store.Clear.{clear_node_transient_fields, node_with_runtime}
use wireguard_natter_helper.Store.Nodes.{upsert_pending_node}
use wireguard_natter_helper.Store.Approve.{
  NodeApproval, single_member_domain_id, merged_member, approval_domain, save_membership, renamed,
  approved_member, old_member, approve_node,
}
use wireguard_natter_helper.Store.Approve.Outcome.{
  IsGranted, approve_node-IsGranted, approve_node-refused,
}
use wireguard_natter_helper.Store.Approve.Shared.{approve_node-shared}
use wireguard_natter_helper.Store.Remove.{delete_node, set_interfaces, update_wg_interfaces}
use wireguard_natter_helper.Store.Remove.Trace.{
  NoTrace, delete_node-NoTrace, approval_domain-deleted,
}
use wireguard_natter_helper.Store.Remove.Inventory.{reported}
use wireguard_natter_helper.Store.Commands.{save_endpoint_lease}
use wireguard_natter_helper.Store.Commands.Queue.{pending, polls, polls-pending}
use wireguard_natter_helper.Store.Commands.Served.{endpoint_of, save_endpoint_lease-endpoints}
use wireguard_natter_helper.Store.Steps.{register, Reach, here, next}
use wireguard_natter_helper.Tests.Network.{
  noon, server_node, new_node, server_interface, manual, network_state, network_runtime, network,
  busy, manual_there,
}

registered-Reach : Reach true network (upsert_pending_node noon "n2" "n2" "t" none network).0
registered-Reach = next here (register noon "n2" "n2" "t" none)

two_wait : length (pending "srv" busy.runtime.commands) ≤ 2
unfolding pending keep_if get?
two_wait = ground arith

polls-pending_example : polls 2 noon "srv" busy ≡ pending "srv" busy.runtime.commands
polls-pending_example = polls-pending noon "srv" refl 2 busy two_wait

abbrev lease : EndpointLease
lease = record {
  server_node_id = "";
  server_interface = "wg0";
  protocol = "udp";
  local_ip = "";
  local_port = pos 0;
  public_ip = "9.9.9.9";
  public_port = pos 4000;
  created_at = "";
}

save_endpoint_lease-endpoints_example :
    get? "by-hand" (save_endpoint_lease noon "srv" lease network).0.runtime.binding_endpoint
    ≡ some (endpoint_of noon lease)
save_endpoint_lease-endpoints_example =
    save_endpoint_lease-endpoints noon "srv" lease network "by-hand" manual manual_there refl

abbrev approval : NodeApproval
approval = record {
  domain_id = "";
  role = "client";
  node_type = "linux";
  interface = "wg0";
  config_type = "";
  reload_method = "";
  natter_managed = false;
  natter_configured = false;
  natter_command = [];
  natter_timeout_seconds = pos 0;
  natter_stop_wireguard = false;
  natter_wireguard_control = "";
  natter_restart_delay_seconds = pos 0;
  name = "";
}

abbrev approved_node : Node
approved_node = record new_node { approved = true; status = "offline" }

granted : (approve_node noon "new" approval network).1 ≡ ok approved_node
unfolding approve_node save_membership approval_domain single_member_domain_id get? set delete
    merged_member old_member node_with_runtime renamed clear_node_transient_fields
granted = refl

approve_node-IsGranted_example :
    IsGranted noon "new"
      (approval_domain "new" approval network)
      approval
      network
      (approve_node noon "new" approval network).0
approve_node-IsGranted_example =
    approve_node-IsGranted noon "new" approval network approved_node granted

refused : is_ok (approve_node noon "nobody" approval network).1 ≡ false
unfolding approve_node get?
refused = refl

approve_node-refused_example : (approve_node noon "nobody" approval network).0 ≡ network
approve_node-refused_example = approve_node-refused noon "nobody" approval network refl refl refused

server_there : get? "srv" network_state.nodes ≡ some server_node
unfolding get?
server_there = refl

delete_node-NoTrace_example :
    NoTrace "srv"
      (delete_node noon "srv" network).0.state
      (delete_node noon "srv" network).0.runtime
delete_node-NoTrace_example = delete_node-NoTrace noon "srv" server_node network refl server_there

new_joined : get? "new" network_runtime.pending_domain ≡ some "home"
unfolding get?
new_joined = refl

approval_domain-deleted_example :
    approval_domain "new" approval
      (upsert_pending_node noon "new" "new" "another" none (delete_node noon "new" network).0).0
    ≡ "home"
approval_domain-deleted_example =
    approval_domain-deleted noon noon "new" "new" "another" "home" none approval network new_joined
      refl refl

server_interface_now :
    get? "srv/wg0"
      (update_wg_interfaces noon "srv" (server_interface ∷ []) network).0.runtime.wg_interfaces
    ≡ some (reported noon.now "srv" server_interface)
unfolding update_wg_interfaces set_interfaces set delete_if wg_interface_key get?
server_interface_now = refl

-- A node whose identifier has a slash
abbrev slashed : Store
slashed = record network {
  state = record network_state { nodes = ("x/new", record new_node { id = "x/new" }) ∷ [] };
}

abbrev home_approval : NodeApproval
home_approval = record approval { domain_id = "home" }

home_asked : approval_domain "x/new" home_approval slashed ≡ "home"
unfolding approval_domain first_non_empty
home_asked = refl

slashed_granted :
    (approve_node noon "x/new" home_approval slashed).1 ≡ ok (record approved_node { id = "x/new" })
unfolding approve_node save_membership approval_domain single_member_domain_id get? set delete
    merged_member old_member node_with_runtime renamed clear_node_transient_fields
slashed_granted = refl

approve_node-shared_example :
    get?
      (domain_member_key "home/x" "new")
      (approve_node noon "x/new" home_approval slashed).0.state.domain_members
    ≡ some (approved_member noon "home" "x/new" home_approval (old_member "home" "x/new" slashed))
approve_node-shared_example =
    approve_node-shared noon "home" "x" "new" home_approval slashed
      (record approved_node { id = "x/new" }) home_asked slashed_granted
