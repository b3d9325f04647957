-- ===== src/Agent/Remote.antt =====
-- The configuration that the daemon sends, merged into the agent's own: internal/agent/agent.go.
pub mod Natter
use wireguard_natter_helper.Prelude.{
  bool_eq, if◌then◌else◌, for_each, ◌<>◌, non_empty, is_positive, int_eq, Result, ok, err, String,
  Bool, true, false, ◌&&◌, ◌||◌, not, List, [], ◌∷◌, ◌==◌,
}
use wireguard_natter_helper.Map.{Map, get_or, set, delete}
use wireguard_natter_helper.Rpc.{MonitorPeer}
use wireguard_natter_helper.Store.Config.{Node, DomainMember}
use wireguard_natter_helper.Agent.State.{
  LocalInterface, zero_interface, NatterConfig, zero_natter, Config, Agent,
}

-- `sameStrings`
unfoldable pub same_strings : List String → List String → Bool
same_strings [] [] = true
same_strings [] (y ∷ ys) = false
same_strings (x ∷ xs) [] = false
same_strings (x ∷ xs) (y ∷ ys) = let rest = same_strings xs ys in x == y && rest

-- `sameNatterConfig`
unfoldable pub same_natter_config : NatterConfig → NatterConfig → Bool
same_natter_config a b =
    same_strings a.command b.command
    && int_eq a.timeout_seconds b.timeout_seconds
    && bool_eq a.stop_wireguard b.stop_wireguard
    && a.wireguard_control_method == b.wireguard_control_method
    && int_eq a.restart_delay_seconds b.restart_delay_seconds

-- `ensureWireGuardInterface`
unfoldable pub ensure_wireguard_interface : String → List LocalInterface → LocalInterface
ensure_wireguard_interface name [] = record zero_interface { name = name }
ensure_wireguard_interface name (item ∷ items) =
    let rest = ensure_wireguard_interface name items in if item.name == name then item else rest

-- `setWireGuardInterface`
unfoldable pub set_wireguard_interface : LocalInterface → List LocalInterface → List LocalInterface
set_wireguard_interface next [] = next ∷ []
set_wireguard_interface next (item ∷ items) =
    let rest = set_wireguard_interface next items in
    if item.name == next.name then next ∷ items else item ∷ rest

-- The control method that a reload method stands for
abbrev pub control_for : String → String → String
control_for reload_method old =
    if not (old == "")
    then old
    else if reload_method == "ifup"
    then "ifup"
    else if reload_method == "wg-quick-restart"
    then "wg-quick"
    else old

-- An interface with the kind of configuration and the reload method that the daemon names
unfoldable pub merged_interface :
    String → String → String → List LocalInterface → List LocalInterface
merged_interface name config_type reload_method items =
    let item = ensure_wireguard_interface name items in
    set_wireguard_interface
      (record item {
        config_type = if config_type == "" then item.config_type else config_type;
        wg_control_method = control_for reload_method item.wg_control_method;
      })
      items

abbrev enable_monitor : String → Config → Config
enable_monitor role c =
    if role == "client" then record c { monitor = record c.monitor { enabled = true } } else c

-- The part of `applyRemoteNodeConfig` on Natter
unfoldable pub node_natter : Node → NatterConfig → NatterConfig
node_natter node n =
    if node.natter_configured
    then record {
      command = node.natter_command;
      timeout_seconds =
          if is_positive node.natter_timeout_seconds
          then node.natter_timeout_seconds
          else n.timeout_seconds;
      stop_wireguard = node.natter_stop_wireguard;
      wireguard_control_method =
          if node.natter_wireguard_control == ""
          then n.wireguard_control_method
          else node.natter_wireguard_control;
      restart_delay_seconds =
          if is_positive node.natter_restart_delay_seconds
          then node.natter_restart_delay_seconds
          else n.restart_delay_seconds;
    }
    else if node.natter_managed
    then elim n.command [ [] ↦ n | _ ∷ _ ↦ zero_natter ]
    else n

-- `applyRemoteNodeConfig`, which assigns what differs
unfoldable pub apply_remote_node_config : Node → Config → Config
apply_remote_node_config node c =
    let c1 = if node.role == "" then c else record c { role = node.role } in
    let c2 : Config = if node.interface == "" then c1 else record c1 {
      wireguard = merged_interface node.interface node.config_type node.reload_method c1.wireguard;
    } in
    let c3 = enable_monitor node.role c2 in record c3 { natter = node_natter node c3.natter }

-- The Natter configuration of a member
abbrev pub member_natter : DomainMember → NatterConfig
member_natter member = record {
  command = member.natter_command;
  timeout_seconds = member.natter_timeout_seconds;
  stop_wireguard = member.natter_stop_wireguard;
  wireguard_control_method = member.natter_wireguard_control;
  restart_delay_seconds = member.natter_restart_delay_seconds;
}

-- The part of the loop's body in `applyRemoteDomainMembers` on Natter
unfoldable pub set_member_natter : DomainMember → Map NatterConfig → Map NatterConfig
set_member_natter member m =
    let next = member_natter member in
    if not member.natter_managed
    then m
    else if not member.natter_configured
    then delete member.interface m
    else if same_natter_config (get_or member.interface zero_natter m) next
    then m
    else set member.interface next m

-- The loop's body in `applyRemoteDomainMembers`
unfoldable pub apply_member : DomainMember → Config → Config
apply_member member c =
    let c1 = enable_monitor member.role c in
    if member.interface == "" then c else record c1 {
      wireguard =
          merged_interface member.interface member.config_type member.reload_method c1.wireguard;
      natter_by_interface = set_member_natter member c1.natter_by_interface;
    }

-- `applyRemoteDomainMembers`
unfoldable pub apply_remote_domain_members : List DomainMember → Config → Config
unfolding for_each
apply_remote_domain_members members c = for_each apply_member members c

-- `setMonitorPeers`
abbrev pub set_monitor_peers : List MonitorPeer → Agent → Agent
set_monitor_peers peers a = record a { monitor_peers = peers }

-- `startMonitorIfNeeded`
abbrev pub start_monitor_if_needed : Agent → Agent
start_monitor_if_needed a =
    if a.config.monitor.enabled then record a { monitor_started = true } else a

-- `natterConfigForInterface`
abbrev pub natter_config_for_interface : String → Config → NatterConfig
natter_config_for_interface interface c = get_or interface c.natter c.natter_by_interface

-- `wireGuardControlMethod`: the first interface of the name decides.
unfoldable pub interface_control_method : String → List LocalInterface → Result String
interface_control_method interface [] =
    err ("wireguard interface " <> interface <> " is not configured")
interface_control_method interface (item ∷ items) =
    let rest = interface_control_method interface items in
    if not (item.name == interface)
    then rest
    else if non_empty item.wg_control_method
    then ok item.wg_control_method
    else if item.config_type == "openwrt_uci"
    then ok "ifup"
    else if item.config_type == "wg_conf" || item.config_type == "runtime"
    then ok "wg-quick"
    else err ("wireguard_control_method is required for interface " <> interface)

unfoldable pub wireguard_control_method : String → Config → Result String
wireguard_control_method interface c =
    let natter = natter_config_for_interface interface c in
    if non_empty natter.wireguard_control_method
    then ok natter.wireguard_control_method
    else interface_control_method interface c.wireguard
