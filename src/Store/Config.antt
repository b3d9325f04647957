-- ===== src/Store/Config.antt =====
-- The configuration records of internal/store/store.go, with their zero values.
use wireguard_natter_helper.Prelude.{String, Bool, false, List, [], ℤ, pos}

pub record Node : Type 0 where
  pub id : String
  pub name : String
  pub token_hash : String
  pub approved : Bool
  -- Deprecated, read from older state files only.
  pub role : String
  pub domain_id : String
  pub node_type : String
  pub interface : String
  pub config_type : String
  pub reload_method : String
  pub natter_managed : Bool
  pub natter_configured : Bool
  pub natter_command : List String
  pub natter_timeout_seconds : ℤ
  pub natter_stop_wireguard : Bool
  pub natter_wireguard_control : String
  pub natter_restart_delay_seconds : ℤ
  -- Filled in from the runtime state for replies.
  pub status : String
  pub platform : String
  pub agent_version : String
  pub last_seen_at : String

abbrev pub zero_node : Node
zero_node = record {
  id = "";
  name = "";
  token_hash = "";
  approved = false;
  role = "";
  domain_id = "";
  node_type = "";
  interface = "";
  config_type = "";
  reload_method = "";
  natter_managed = false;
  natter_configured = false;
  natter_command = [];
  natter_timeout_seconds = pos 0;
  natter_stop_wireguard = false;
  natter_wireguard_control = "";
  natter_restart_delay_seconds = pos 0;
  status = "";
  platform = "";
  agent_version = "";
  last_seen_at = "";
}

pub record Domain : Type 0 where
  pub id : String
  pub name : String
  pub join_code : String
  pub created_at : String
  pub description : String

pub record DomainMember : Type 0 where
  pub domain_id : String
  pub node_id : String
  pub role : String
  pub node_type : String
  pub interface : String
  pub config_type : String
  pub reload_method : String
  pub natter_managed : Bool
  pub natter_configured : Bool
  pub natter_command : List String
  pub natter_timeout_seconds : ℤ
  pub natter_stop_wireguard : Bool
  pub natter_wireguard_control : String
  pub natter_restart_delay_seconds : ℤ
  pub updated_at : String

abbrev pub zero_member : DomainMember
zero_member = record {
  domain_id = "";
  node_id = "";
  role = "";
  node_type = "";
  interface = "";
  config_type = "";
  reload_method = "";
  natter_managed = false;
  natter_configured = false;
  natter_command = [];
  natter_timeout_seconds = pos 0;
  natter_stop_wireguard = false;
  natter_wireguard_control = "";
  natter_restart_delay_seconds = pos 0;
  updated_at = "";
}

pub record Binding : Type 0 where
  pub id : String
  pub domain_id : String
  pub auto : Bool
  pub server_node_id : String
  pub server_interface : String
  pub client_node_id : String
  pub client_interface : String
  pub peer_public_key : String
  pub config_type : String
  pub config_path : String
  pub reload_method : String
  pub endpoint_host : String
  pub endpoint_port : ℤ
  pub enabled : Bool
