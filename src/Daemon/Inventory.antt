-- ===== src/Daemon/Inventory.antt =====
-- The WireGuard inventory and the endpoint lease that an agent reports, of
-- internal/daemon/daemon.go.
pub mod Lease
use wireguard_natter_helper.Prelude.{
  leb, if◌then◌else◌, keep_if, ℤ, pos, Result, ok, err, String, Bool, false, ◌&&◌, ◌||◌, not,
  Option, none, some, List, [], ◌∷◌, map, ◌==◌,
}
use wireguard_natter_helper.Json.{
  Json, num, str, arr, obj, Items, nil, cons, Fields, lookup, string_value, number_or_zero,
  string_slice,
}
use wireguard_natter_helper.Rpc.{MonitorPeer}
use wireguard_natter_helper.Store.Config.{Binding}
use wireguard_natter_helper.Store.Runtime.{WgInterface, EndpointLease}
use wireguard_natter_helper.Store.State.{Store, Env}
use wireguard_natter_helper.Store.Domains.{bindings}
use wireguard_natter_helper.Store.Remove.{update_wg_interfaces}
use wireguard_natter_helper.Store.Reconcile.{reconcile_auto_bindings}

abbrev pub interface_of : String → Fields → WgInterface
interface_of node_id o = record {
  node_id = node_id;
  name = string_value (lookup "name" o);
  public_key = string_value (lookup "public_key" o);
  listen_port = number_or_zero (lookup "listen_port" o);
  peers = string_slice (lookup "peers" o);
  config_type = string_value (lookup "config_type" o);
  config_path = string_value (lookup "config_path" o);
  updated_at = "";
}

-- The loop of `wireGuardInventoryFromMeta`: what is no object or has no name is skipped.
unfoldable pub inventory_items : String → Items → List WgInterface
inventory_items node_id nil = []
inventory_items node_id (cons (obj o) vs) =
    let rest = inventory_items node_id vs in
    if string_value (lookup "name" o) == "" then rest else interface_of node_id o ∷ rest
inventory_items node_id (cons _ vs) = inventory_items node_id vs

abbrev items_of : Json → Items
items_of (arr vs) = vs
items_of _ = nil

-- `wireGuardInventoryFromMeta`
unfoldable pub wireguard_inventory_from_meta : String → Option Fields → List WgInterface
wireguard_inventory_from_meta node_id none = []
wireguard_inventory_from_meta node_id (some meta) =
    inventory_items node_id (items_of (lookup "wireguard" meta))

-- `syncWireGuardInventory`; an error is logged.
unfoldable pub sync_wireguard_inventory : Env → String → Option Fields → Store → Store
sync_wireguard_inventory env node_id meta s =
    (update_wg_interfaces env node_id (wireguard_inventory_from_meta node_id meta) s).0

-- `reconcileAutoBindings`; an error is logged.
unfoldable pub reconcile : Env → Store → Store
reconcile env s = (reconcile_auto_bindings env s).0

abbrev is_udp : Json → Bool
is_udp (str s) = s == "udp"
is_udp _ = false

-- `err != nil || publicPort < 1 || publicPort > 65535`, negated
abbrev pub valid_port : Json → Option ℤ
valid_port (num (pos n)) = if leb 1 n && leb n 65535 then some (pos n) else none
valid_port _ = none

-- `leaseFromPayload`
unfoldable pub lease_from_payload : Fields → Result EndpointLease
lease_from_payload payload =
    let interface = string_value (lookup "server_interface" payload) in
    let public_ip = string_value (lookup "public_ip" payload) in
    if not (is_udp (lookup "protocol" payload))
    then err "WireGuard endpoint protocol must be udp"
    else elim (valid_port (lookup "public_port" payload)) [
      | none ↦ err "invalid public_port"
      | some public_port ↦
          if interface == "" || public_ip == ""
          then err "server_interface and public_ip are required"
          else ok (record {
            server_node_id = "";
            server_interface = interface;
            protocol = "udp";
            local_ip = string_value (lookup "local_ip" payload);
            local_port = number_or_zero (lookup "local_port" payload);
            public_ip = public_ip;
            public_port = public_port;
            created_at = "";
          })
    ]

abbrev peer_of : Binding → MonitorPeer
peer_of b = record {
  binding_id = b.id;
  interface = b.client_interface;
  peer_public_key = b.peer_public_key;
  server_node_id = b.server_node_id;
  server_interface = b.server_interface;
}

-- `monitorPeersForNode`
unfoldable pub monitor_peers_for_node : String → Store → List MonitorPeer
monitor_peers_for_node node_id s =
    map peer_of (keep_if (λ b. b.enabled && b.client_node_id == node_id) (bindings s))
