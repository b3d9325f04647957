-- ===== src/Store/Runtime.antt =====
-- The runtime and audit records of internal/store/store.go, with their zero values.
use wireguard_natter_helper.Prelude.{String, List, ℤ, pos, Option, none}
use wireguard_natter_helper.Json.{Fields}
use wireguard_natter_helper.Protocol.{Command}

pub record WgInterface : Type 0 where
  pub node_id : String
  pub name : String
  pub public_key : String
  pub listen_port : ℤ
  pub peers : List String
  pub config_type : String
  pub config_path : String
  pub updated_at : String

pub record EndpointLease : Type 0 where
  pub server_node_id : String
  pub server_interface : String
  pub protocol : String
  pub local_ip : String
  pub local_port : ℤ
  pub public_ip : String
  pub public_port : ℤ
  pub created_at : String

pub record NodeRuntime : Type 0 where
  pub status : String
  pub platform : String
  pub agent_version : String
  pub last_seen_at : String

abbrev pub zero_runtime : NodeRuntime
zero_runtime = record { status = ""; platform = ""; agent_version = ""; last_seen_at = "" }

pub record BindingEndpoint : Type 0 where
  pub host : String
  pub port : ℤ
  pub updated_at : String

abbrev pub zero_endpoint : BindingEndpoint
zero_endpoint = record { host = ""; port = pos 0; updated_at = "" }

-- The command, with its status "pending", "delivered" or "completed".
pub record QueuedCommand : Type 0 where
  pub command : Command
  pub status : String
  pub result : Fields
  pub created_at : String

pub record Event : Type 0 where
  pub type : String
  pub severity : String
  pub actor : String
  pub target : String
  pub action : String
  pub before : Option Fields
  pub after : Option Fields
  pub result : String
  pub error : String
  pub node_id : String
  pub binding_id : String
  pub message : String
  pub payload : Option Fields
  pub created_at : String

abbrev pub zero_event : Event
zero_event = record {
  type = "";
  severity = "";
  actor = "";
  target = "";
  action = "";
  before = none;
  after = none;
  result = "";
  error = "";
  node_id = "";
  binding_id = "";
  message = "";
  payload = none;
  created_at = "";
}
