-- ===== src/Rpc.antt =====
-- internal/rpc/rpc.go: requests, responses and the daemon's address.
use wireguard_natter_helper.Strings.{trim_space, trim_prefix}
use text.Mathlib.Text.{starts_with}
use wireguard_natter_helper.Prelude.{
  ◌∙◌, ok_inj, sym, split_if, err-ne-ok, split_result, if◌then◌else◌, ℤ, pos, Result, ok, err, ℕ,
  String, ◌≡◌, refl, Bool, true, false, ◌||◌, Option, none, List, [], ◌==◌,
}
use wireguard_natter_helper.Json.{Fields, end}
use wireguard_natter_helper.Protocol.{Command}
use wireguard_natter_helper.Store.Config.{Node, Domain, DomainMember, Binding}
use wireguard_natter_helper.Store.Runtime.{WgInterface, Event}

pub record Request : Type 0 where
  pub kind : String
  pub node_id : String
  pub token : String
  pub join_code : String
  pub name : String
  pub admin_token : String
  pub meta : Option Fields
  pub report_type : String
  pub command_id : String
  pub payload : Fields
  pub server_node_id : String
  pub server_interface : String
  pub domain_id : String
  pub description : String
  pub role : String
  pub node_type : String
  pub interface : String
  pub config_type : String
  pub reload_method : String
  pub natter_managed : Bool
  pub natter_configured : Bool
  pub natter_command : List String
  pub natter_timeout_seconds : ℤ
  pub natter_stop_wireguard : Bool
  pub natter_wireguard_control : String
  pub natter_restart_delay_seconds : ℤ
  pub limit : ℤ

abbrev pub zero_request : Request
zero_request = record {
  kind = "";
  node_id = "";
  token = "";
  join_code = "";
  name = "";
  admin_token = "";
  meta = none;
  report_type = "";
  command_id = "";
  payload = end;
  server_node_id = "";
  server_interface = "";
  domain_id = "";
  description = "";
  role = "";
  node_type = "";
  interface = "";
  config_type = "";
  reload_method = "";
  natter_managed = false;
  natter_configured = false;
  natter_command = [];
  natter_timeout_seconds = pos 0;
  natter_stop_wireguard = false;
  natter_wireguard_control = "";
  natter_restart_delay_seconds = pos 0;
  limit = pos 0;
}

pub record MonitorPeer : Type 0 where
  pub binding_id : String
  pub interface : String
  pub peer_public_key : String
  pub server_node_id : String
  pub server_interface : String

pub record Response : Type 0 where
  pub is_ok : Bool
  pub error : String
  pub command : Option Command
  pub monitor_peers : List MonitorPeer
  pub queued : ℕ
  pub approved : Bool
  pub domain : Option Domain
  pub domains : List Domain
  pub nodes : List Node
  pub domain_members : List DomainMember
  pub bindings : List Binding
  pub wg_interfaces : List WgInterface
  pub events : List Event

-- `rpc.Response{OK: true}`
abbrev pub success : Response
success = record {
  is_ok = true;
  error = "";
  command = none;
  monitor_peers = [];
  queued = 0;
  approved = false;
  domain = none;
  domains = [];
  nodes = [];
  domain_members = [];
  bindings = [];
  wg_interfaces = [];
  events = [];
}

-- `rpc.Response{OK: false, Error: error}`
abbrev pub failure : String → Response
failure e = record success { is_ok = false; error = e }

-- `NormalizeAddr`
unfoldable pub normalize_addr : String → Result String
unfolding trim_space
normalize_addr given =
    let addr = trim_prefix (trim_space given) "tcp://" in
    if starts_with addr "http://" || starts_with addr "https://"
    then err "HTTP URLs are not supported; use host:port or tcp://host:port"
    else if addr == ""
    then err "empty daemon address"
    else ok addr

-- `Call`; the exchange is the connection, which sends the request and reads the response.
unfoldable pub call : (String → Request → Result Response) → String → Request → Result Response
call exchange addr req = elim (normalize_addr addr) [
  | err e ↦ err e
  | ok host ↦ elim (exchange host req) [
    | err e ↦ err e
    | ok resp ↦
        if resp.is_ok
        then ok resp
        else err (if resp.error == "" then "daemon returned error" else resp.error)
  ]
]

normalize_addr_test :
    (normalize_addr " tcp://host:7000 " ≡ ok "host:7000")
    × (normalize_addr "tcp:// " ≡ err "empty daemon address")
unfolding normalize_addr
normalize_addr_test = (refl, refl)

-- A call gives the response of the connection, or fails.
pub call-response :
    (exchange : String → Request → Result Response) (addr : String) (req : Request)
    → (resp got : Response) → ((host : String) → exchange host req ≡ ok resp)
    → call exchange addr req ≡ ok got
    → got ≡ resp
unfolding call
call-response exchange addr req resp got h =
    let P = λ (o : Result Response). o ≡ ok got → got ≡ resp in
    split_result P (normalize_addr addr) (λ _ _ k. err-ne-ok k)
      (λ host _.
        split_result P (exchange host req) (λ _ _ k. err-ne-ok k)
          (λ r e.
            split_if P r.is_ok (λ _ k. sym (ok_inj k) ∙ ok_inj (sym e ∙ h host))
              (λ _ k. err-ne-ok k)))
