-- ===== src/Tests/Laptop.antt =====
-- The machine of a client's agent, and the agent's configuration.
use wireguard_natter_helper.Prelude.{
  if◌then◌else◌, ◌<>◌, pos, ok, String, true, false, none, some, [], ◌∷◌, ◌==◌,
}
use wireguard_natter_helper.Json.{str, Fields, end, field}
use wireguard_natter_helper.Protocol.{Command}
use wireguard_natter_helper.Rpc.{MonitorPeer}
use wireguard_natter_helper.Host.{Host, Machine}
use wireguard_natter_helper.Agent.State.{LocalInterface, zero_interface, zero_natter, Config, Agent}
use wireguard_natter_helper.Agent.Setup.{Coding}
use wireguard_natter_helper.Store.Runtime.{EndpointLease}
use wireguard_natter_helper.Tests.Network.{first_command}

-- Every program succeeds with the output given.
abbrev pub printing : String → Machine
printing out = record {
  answer = λ ran command. (out, none);
  read_fault = λ path. none;
  write_fault = λ path. none;
  mkdir_fault = λ path. none;
  random = λ n. "00";
  platform = "linux/amd64";
  decode = λ text. if text == "null" then some none else some (some end);
  torn = λ path text. none;
  now = 1_700_000_300_000_000_000;
}

abbrev pub quiet : Machine
quiet = printing ""

-- The last section of the file has no endpoint, and no newline at its end.
abbrev pub wg_file : String
wg_file = "[Interface]\nPrivateKey = x\n[Peer]\nPublicKey = PK"

abbrev pub laptop : Host
laptop = record { files = ("/etc/wireguard/wg9.conf", wg_file) ∷ []; ran = [] }

abbrev pub laptop_wg0 : LocalInterface
laptop_wg0 = record zero_interface { name = "wg0"; config_type = "wg_conf" }

abbrev pub laptop_config : Config
laptop_config = record {
  node_id = "new";
  node_name = "laptop";
  daemon_addr = "host:7000";
  daemon_url = "";
  token = "n";
  token_file = "";
  join_code = "";
  state_path = "state.json";
  role = "";
  retry_seconds = pos 5;
  dry_run = false;
  wireguard = laptop_wg0 ∷ [];
  natter = record zero_natter { command = "natter" ∷ []; stop_wireguard = true };
  natter_by_interface = ("wg1", record zero_natter { command = "plain" ∷ [] }) ∷ [];
  monitor = record {
    enabled = true;
    interval_seconds = pos 30;
    stale_seconds = pos 180;
    fail_threshold = pos 2;
    peers = [];
  };
}

abbrev pub laptop_agent : Agent
laptop_agent = record {
  config = laptop_config;
  token = "n";
  addr = "host:7000";
  joined = false;
  monitor_started = false;
  monitor_peers = [];
}

abbrev pub new_lease : EndpointLease
new_lease = record {
  server_node_id = "srv";
  server_interface = "wg0";
  protocol = "udp";
  local_ip = "10.0.0.1";
  local_port = pos 51820;
  public_ip = "1.2.3.4";
  public_port = pos 4000;
  created_at = "";
}

abbrev pub run_wg0 : Command
run_wg0 = record first_command { payload = field "server_interface" (str "wg0") end }

abbrev pub run_wg1 : Fields
run_wg1 = field "server_interface" (str "wg1") end

abbrev pub watched : MonitorPeer
watched = record {
  binding_id = "b";
  interface = "wg1";
  peer_public_key = "PK";
  server_node_id = "srv";
  server_interface = "wg0";
}

-- Two lines: the identifier and the token
abbrev pub plain_coding : Coding
plain_coding = record {
  parse_config = λ raw. ok laptop_config;
  parse_state = λ raw. ok (record { node_id = "node-00"; token = "00" });
  print_state = λ state. state.node_id <> "\n" <> state.token;
}
