-- ===== src/Store/Clear.antt =====
-- The field-clearing and defaulting helpers of internal/store/store.go.
use wireguard_natter_helper.Prelude.{if◌then◌else◌, pos, String, false, [], ◌==◌}
use wireguard_natter_helper.Map.{get_or}
use wireguard_natter_helper.Store.Config.{Node, DomainMember, Binding}
use wireguard_natter_helper.Store.Runtime.{zero_runtime, zero_endpoint}
use wireguard_natter_helper.Store.State.{Data, RuntimeData}

-- `clearNodeConfigFields`
unfoldable pub clear_node_config_fields : Node → Node
clear_node_config_fields n = record n {
  role = "";
  domain_id = "";
  node_type = "";
  interface = "";
  config_type = "";
  reload_method = "";
  natter_managed = false;
  natter_configured = false;
  natter_command = [];
  natter_timeout_seconds = pos 0;
  natter_stop_wireguard = false;
  natter_wireguard_control = "";
  natter_restart_delay_seconds = pos 0;
}

-- `clearNodeTransientFields`
unfoldable pub clear_node_transient_fields : Node → Node
unfolding clear_node_config_fields
clear_node_transient_fields n = record (clear_node_config_fields n) {
  status = "";
  platform = "";
  agent_version = "";
  last_seen_at = "";
}

-- The endpoint fields that `AddBinding`, `ensureMaps` and `saveLocked` blank.
unfoldable pub clear_binding_endpoint : Binding → Binding
clear_binding_endpoint b = record b { endpoint_host = ""; endpoint_port = pos 0 }

-- `clearDeprecatedStateFields`
unfoldable pub clear_deprecated : Data → Data
clear_deprecated d = record d {
  wg_interfaces = [];
  endpoint_leases = [];
  commands = [];
  events = [];
}

abbrev or_default : String → String → String
or_default value default = if value == "" then default else value

-- `defaultBindingFields`
unfoldable pub default_binding_fields : Binding → Binding
default_binding_fields b = record b {
  config_type = or_default b.config_type "openwrt_uci";
  reload_method = or_default b.reload_method "none";
}

-- `defaultMemberRuntimeFields`
unfoldable pub default_member_runtime_fields : DomainMember → DomainMember
default_member_runtime_fields m =
    if m.node_type == "openwrt"
    then record m {
      config_type = or_default m.config_type "openwrt_uci";
      reload_method = or_default m.reload_method "ifup";
    }
    else if m.node_type == "linux"
    then record m {
      config_type = or_default m.config_type "wg_conf";
      reload_method = or_default m.reload_method "wg-quick-restart";
    }
    else m

-- `nodeWithRuntime`
unfoldable pub node_with_runtime : RuntimeData → Node → Node
node_with_runtime r n =
    let runtime = get_or n.id zero_runtime r.node_runtime in
    record n {
      status = runtime.status;
      platform = runtime.platform;
      agent_version = runtime.agent_version;
      last_seen_at = runtime.last_seen_at;
    }

-- `bindingWithEndpointLocked`
unfoldable pub binding_with_endpoint : RuntimeData → String → Binding → Binding
binding_with_endpoint r id b =
    let endpoint = get_or id zero_endpoint r.binding_endpoint in
    record b { endpoint_host = endpoint.host; endpoint_port = endpoint.port }
