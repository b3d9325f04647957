-- ===== src/Tests/Network.antt =====
-- The network that the examples are about.
use wireguard_natter_helper.Prelude.{
  ◌<>◌, pos, ℕ, ◌≡◌, refl, Bool, true, false, none, some, [], ◌∷◌,
}
use wireguard_natter_helper.Map.{get?}
use wireguard_natter_helper.Json.{end}
use wireguard_natter_helper.Protocol.{Command}
use wireguard_natter_helper.Store.Config.{Node, zero_node, DomainMember, zero_member, Binding}
use wireguard_natter_helper.Store.Runtime.{WgInterface, zero_event}
use wireguard_natter_helper.Store.State.{Data, RuntimeData, missing, Store, Env}
use wireguard_natter_helper.Store.Ids.{domain_member_key}
use wireguard_natter_helper.Store.Clear.{clear_node_transient_fields, clear_binding_endpoint}
use wireguard_natter_helper.Store.Sound.{is_approved, IsSound}
use wireguard_natter_helper.Store.Steps.{here}
use wireguard_natter_helper.Daemon.Server.{Server}
use wireguard_natter_helper.Daemon.Handle.AgentSteps.{OthersStep}

abbrev pub clock : ℕ → Env
clock time = record {
  now = "2024-05-01T12:00:00Z";
  time = time;
  sha256_hex = λ token. "#" <> token;
  random = λ k. "r";
  random_fault = none;
  encode_event = λ e. 123 ∷ 125 ∷ [];
  decode_event = λ line. some zero_event;
  format = λ j. "?";
  is_stale = λ seen. some false;
  state_fault = none;
  runtime_fault = none;
  event_fault = none;
  rotate_fault = none;
  looks = 1;
  others = λ k s. s;
}

abbrev pub noon : Env
noon = clock 1000

abbrev pub server_node : Node
server_node = record zero_node { id = "srv"; name = "srv"; token_hash = "#s"; approved = true }

abbrev pub client_node : Node
client_node = record zero_node { id = "cli"; name = "cli"; token_hash = "#c"; approved = true }

abbrev pub new_node : Node
new_node = record zero_node { id = "new"; name = "new"; token_hash = "#n"; approved = false }

abbrev pub server_member : DomainMember
server_member = record zero_member {
  domain_id = "home";
  node_id = "srv";
  role = "server";
  interface = "wg0";
}

abbrev pub client_member : DomainMember
client_member = record zero_member {
  domain_id = "home";
  node_id = "cli";
  role = "client";
  interface = "wg1";
}

abbrev pub server_interface : WgInterface
server_interface = record {
  node_id = "srv";
  name = "wg0";
  public_key = "PK";
  listen_port = pos 51820;
  peers = [];
  config_type = "";
  config_path = "";
  updated_at = "";
}

abbrev pub client_interface : WgInterface
client_interface = record server_interface {
  node_id = "cli";
  name = "wg1";
  public_key = "CK";
  peers = "PK" ∷ [];
}

abbrev pub manual : Binding
manual = record {
  id = "by-hand";
  domain_id = "home";
  auto = false;
  server_node_id = "srv";
  server_interface = "wg0";
  client_node_id = "cli";
  client_interface = "wg9";
  peer_public_key = "PK";
  config_type = "wg_conf";
  config_path = "";
  reload_method = "none";
  endpoint_host = "";
  endpoint_port = pos 0;
  enabled = true;
}

abbrev pub network_state : Data
network_state = record {
  nodes = ("srv", server_node) ∷ ("cli", client_node) ∷ ("new", new_node) ∷ [];
  domains =
      (
        "home",
        record { id = "home"; name = "home"; join_code = "j"; created_at = ""; description = "" },
      )
      ∷ [];
  domain_members = ("home/srv", server_member) ∷ ("home/cli", client_member) ∷ [];
  bindings = ("by-hand", manual) ∷ [];
  wg_interfaces = [];
  endpoint_leases = [];
  commands = [];
  events = [];
}

abbrev pub network_runtime : RuntimeData
network_runtime = record {
  node_runtime = [];
  pending_domain = ("new", "home") ∷ [];
  wg_interfaces = ("srv/wg0", server_interface) ∷ ("cli/wg1", client_interface) ∷ [];
  endpoint_leases = [];
  binding_endpoint = ("by-hand", record { host = "1.1.1.1"; port = pos 9; updated_at = "" }) ∷ [];
  commands = [];
}

abbrev pub network : Store
network = record {
  state = network_state;
  runtime = network_runtime;
  disk = record { state = missing; runtime = missing; events = [] };
}

pub network-IsSound : IsSound network_state
unfolding clear_node_transient_fields clear_binding_endpoint domain_member_key is_approved get?
network-IsSound = record {
  nodes_keyed = (refl, (refl, (refl, tt)));
  nodes_clear = (refl, (refl, (refl, tt)));
  domains_keyed = (refl, tt);
  members_keyed = (refl, (refl, tt));
  members_approved = (refl, (refl, tt));
  members_domain = (refl, (refl, tt));
  bindings_keyed = (refl, tt);
  bindings_clear = (refl, tt);
}

abbrev pub daemon : Server
daemon = record {
  store = network;
  admin_token = "secret";
  poll_wait = 25;
  natter_cooldown = 300;
  last_natter_run = [];
}

-- Nobody else is served meanwhile.
pub noon-alone : (admin : Bool) → OthersStep admin noon
noon-alone admin = λ k s. here

abbrev pub first_command : Command
first_command = record {
  command_id = "1";
  action = "natter.run";
  payload = end;
  deadline = "";
  idempotency_key = "1";
}

abbrev pub second_command : Command
second_command = record first_command { command_id = "2" }

-- The server's node waits for two commands.
abbrev pub busy : Store
busy = record network {
  runtime = record network_runtime {
    commands =
        (
          "srv",
          record { command = first_command; status = "pending"; result = end; created_at = "" }
              ∷ record {
                command = second_command;
                status = "pending";
                result = end;
                created_at = "";
              }
              ∷ [],
        )
        ∷ [];
  };
}

pub manual_there : get? "by-hand" network_state.bindings ≡ some manual
unfolding get?
manual_there = refl
