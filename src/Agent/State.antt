-- ===== src/Agent/State.antt =====
-- The agent's configuration and state, from internal/agent/agent.go.
use wireguard_natter_helper.Prelude.{ℤ, pos, String, Bool, false, List, []}
use wireguard_natter_helper.Map.{Map}
use wireguard_natter_helper.Rpc.{MonitorPeer}

-- `WGInterface`
pub record LocalInterface : Type 0 where
  pub name : String
  pub listen_port : ℤ
  pub config_type : String
  pub config_path : String
  pub wg_control_method : String

abbrev pub zero_interface : LocalInterface
zero_interface = record {
  name = "";
  listen_port = pos 0;
  config_type = "";
  config_path = "";
  wg_control_method = "";
}

pub record NatterConfig : Type 0 where
  pub command : List String
  pub timeout_seconds : ℤ
  pub stop_wireguard : Bool
  pub wireguard_control_method : String
  pub restart_delay_seconds : ℤ

abbrev pub zero_natter : NatterConfig
zero_natter = record {
  command = [];
  timeout_seconds = pos 0;
  stop_wireguard = false;
  wireguard_control_method = "";
  restart_delay_seconds = pos 0;
}

-- The peers have the fields of `rpc.MonitorPeer`.
pub record MonitorConfig : Type 0 where
  pub enabled : Bool
  pub interval_seconds : ℤ
  pub stale_seconds : ℤ
  pub fail_threshold : ℤ
  pub peers : List MonitorPeer

pub record Config : Type 0 where
  pub node_id : String
  pub node_name : String
  pub daemon_addr : String
  pub daemon_url : String
  pub token : String
  pub token_file : String
  pub join_code : String
  pub state_path : String
  pub role : String
  pub retry_seconds : ℤ
  pub dry_run : Bool
  pub wireguard : List LocalInterface
  pub natter : NatterConfig
  pub natter_by_interface : Map NatterConfig
  pub monitor : MonitorConfig

pub record Agent : Type 0 where
  pub config : Config
  pub token : String
  pub addr : String
  pub joined : Bool
  -- `monitorOnce` has run.
  pub monitor_started : Bool
  pub monitor_peers : List MonitorPeer

abbrev pub with_config : Config → Agent → Agent
with_config c a = record a { config = c }

pub record LocalState : Type 0 where
  pub node_id : String
  pub token : String

-- `agent.Config{}`
abbrev pub zero_config : Config
zero_config = record {
  node_id = "";
  node_name = "";
  daemon_addr = "";
  daemon_url = "";
  token = "";
  token_file = "";
  join_code = "";
  state_path = "";
  role = "";
  retry_seconds = pos 0;
  dry_run = false;
  wireguard = [];
  natter = zero_natter;
  natter_by_interface = [];
  monitor = record {
    enabled = false;
    interval_seconds = pos 0;
    stale_seconds = pos 0;
    fail_threshold = pos 0;
    peers = [];
  };
}
