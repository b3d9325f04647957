-- ===== src/Cli.antt =====
-- cmd/wgnh/main.go: what the commands do with their flags, which package flag has read. Printing and
-- the end of the process are left out; `log.Fatal` is an error.
pub mod Split
use wireguard_natter_helper.Prelude.{
  if◌then◌else◌, non_empty, ℤ, is_positive, Result, ok, err, with_error, String, Bool, ◌&&◌, ◌||◌,
  ◌==◌,
}
use wireguard_natter_helper.Rpc.{Request, zero_request}
use wireguard_natter_helper.Store.Config.{Binding}
use wireguard_natter_helper.Store.State.{Disk, Store, Env}
use wireguard_natter_helper.Store.Save.{save}
use wireguard_natter_helper.Store.Open.{open_store}
use wireguard_natter_helper.Store.Remove.{add_binding}
use wireguard_natter_helper.Daemon.Server.{Server, new_server, set_natter_cooldown}
use wireguard_natter_helper.Agent.State.{zero_config, Config, Agent}
use wireguard_natter_helper.Agent.Setup.{Coding, load_config, new_agent}
use wireguard_natter_helper.Host.{Host, Machine}
use wireguard_natter_helper.Cli.Split.{split_command}

-- The flags of "approve-node"; those of Natter stand apart.
pub record ApproveFlags : Type 0 where
  pub node : String
  pub domain : String
  pub role : String
  pub node_type : String
  pub interface : String
  pub config_type : String
  pub reload_method : String
  pub name : String
  pub natter_managed : Bool
  pub natter_configured : Bool
  pub natter_command : String
  pub natter_timeout : ℤ
  pub natter_stop_wireguard : Bool
  pub natter_control : String
  pub natter_delay : ℤ

-- The case "create-domain" of `daemonCmd`
unfoldable pub create_domain_cmd : String → String → String → String → String → Result Request
create_domain_cmd admin_token id name join_code description =
    if id == ""
    then err "--id is required"
    else ok (record zero_request {
      kind = "admin.create_domain";
      admin_token = admin_token;
      domain_id = id;
      name = name;
      join_code = join_code;
      description = description;
    })

-- The case "approve-node" of `daemonCmd`
unfoldable pub approve_node_cmd : String → ApproveFlags → Result Request
unfolding split_command
approve_node_cmd admin_token flags =
    if flags.node == ""
    then err "--node is required"
    else ok (record zero_request {
      kind = "admin.approve_node";
      admin_token = admin_token;
      node_id = flags.node;
      domain_id = flags.domain;
      role = flags.role;
      node_type = flags.node_type;
      interface = flags.interface;
      config_type = flags.config_type;
      reload_method = flags.reload_method;
      name = flags.name;
      natter_managed =
          flags.natter_managed
          || non_empty flags.natter_command
          || flags.natter_configured
          || is_positive flags.natter_timeout
          || flags.natter_stop_wireguard
          || non_empty flags.natter_control
          || is_positive flags.natter_delay;
      natter_configured = flags.natter_configured || non_empty flags.natter_command;
      natter_command = split_command flags.natter_command;
      natter_timeout_seconds = flags.natter_timeout;
      natter_stop_wireguard = flags.natter_stop_wireguard;
      natter_wireguard_control = flags.natter_control;
      natter_restart_delay_seconds = flags.natter_delay;
    })

-- The case "delete-node" of `daemonCmd`
unfoldable pub delete_node_cmd : String → String → Result Request
delete_node_cmd admin_token node =
    if node == ""
    then err "--node is required"
    else ok (record zero_request {
      kind = "admin.delete_node";
      admin_token = admin_token;
      node_id = node;
    })

-- The case "run-natter" of `daemonCmd`
unfoldable pub run_natter_cmd : String → String → String → Result Request
run_natter_cmd admin_token server_node server_interface =
    if server_node == "" || server_interface == ""
    then err "--server-node and --server-interface are required"
    else ok (record zero_request {
      kind = "admin.run_natter";
      admin_token = admin_token;
      server_node_id = server_node;
      server_interface = server_interface;
    })

-- The request of `adminList`, and of the case "events" of `daemonCmd`
abbrev pub admin_list : String → String → ℤ → Request
admin_list admin_token kind limit = record zero_request {
  kind = kind;
  admin_token = admin_token;
  limit = limit;
}

-- The case "init" of `daemonCmd`
unfoldable pub init_cmd : Env → Disk → Result Store
init_cmd env disk = elim (open_store env disk) [
  | err e ↦ err e
  | ok s ↦ let (s', e) = save env s in with_error s' e
]

-- The case "add-binding" of `daemonCmd`
unfoldable pub add_binding_cmd : Env → Disk → Binding → Result Store
add_binding_cmd env disk b =
    if b.id == "" || b.server_node_id == "" || b.client_node_id == ""
    then err "--id, --server-node, and --client-node are required"
    else elim (open_store env disk) [
      | err e ↦ err e
      | ok s ↦ let (s', e) = add_binding env b s in with_error s' e
    ]

-- The case "serve" of `daemonCmd`, up to the listener
unfoldable pub serve_cmd : Env → Disk → String → ℤ → Result Server
serve_cmd env disk admin_token natter_cooldown = elim (open_store env disk) [
  | err e ↦ err e
  | ok s ↦ ok (set_natter_cooldown natter_cooldown (new_server s admin_token))
]

-- The flags of `agentCmd`
pub record AgentFlags : Type 0 where
  pub config : String
  pub daemon_addr : String
  pub join_code : String
  pub node_name : String
  pub state_path : String
  pub retry_seconds : ℤ
  pub dry_run : Bool

abbrev pub or_given : String → String → String
or_given given old = if given == "" then old else given

-- The flags of `agentCmd` over its configuration
unfoldable pub with_flags : AgentFlags → Config → Config
with_flags flags c = record c {
  daemon_addr = or_given flags.daemon_addr c.daemon_addr;
  join_code = or_given flags.join_code c.join_code;
  node_name = or_given flags.node_name c.node_name;
  state_path = or_given flags.state_path c.state_path;
  retry_seconds = if is_positive flags.retry_seconds then flags.retry_seconds else c.retry_seconds;
  dry_run = flags.dry_run || c.dry_run;
}

-- `agentCmd`, up to `Run`
unfoldable pub agent_cmd : Machine → Coding → AgentFlags → Host → Host × Result Agent
unfolding with_flags
agent_cmd env coding flags h =
    let given =
      if flags.config == "" then ok zero_config else load_config env coding flags.config h in
    elim given [
      | err e ↦ (h, err e)
      | ok c ↦
          let merged = with_flags flags c in
          let started = new_agent env coding merged h in
          if merged.daemon_addr == "" && merged.daemon_url == ""
          then (h, err "--daemon-addr is required when --config does not set daemon_addr")
          else started
    ]
