-- ===== src/Web.antt =====
-- internal/webui/webui.go: the web interface's requests, which it passes on to the daemon. The page,
-- HTTP and JSON are not part of it.
pub mod Load
use wireguard_natter_helper.Prelude.{
  if◌then◌else◌, Result, ok, err, Error, ℕ, String, ◌||◌, not, none, some, ◌==◌,
}
use wireguard_natter_helper.Strings.{trim_space}
use wireguard_natter_helper.Rpc.{Request, zero_request, Response, call}
use wireguard_natter_helper.Web.Load.{Dashboard, load}

-- `Server`
pub record WebServer : Type 0 where
  pub addr : String
  pub daemon_addr : String
  pub admin_token : String

-- `daemonCredentials`
pub record Credentials : Type 0 where
  pub daemon_addr : String
  pub admin_token : String

-- `New`
abbrev pub new_web_server : String → String → String → WebServer
new_web_server addr daemon_addr admin_token = record {
  addr = addr;
  daemon_addr = daemon_addr;
  admin_token = admin_token;
}

-- `withDefaults`
unfoldable pub with_defaults : WebServer → Credentials → Credentials
with_defaults s req =
    let addr = trim_space req.daemon_addr in
    record {
      daemon_addr = if addr == "" then s.daemon_addr else addr;
      admin_token = if req.admin_token == "" then s.admin_token else req.admin_token;
    }

-- `validateCredentials`
unfoldable pub validate_credentials : Credentials → Error
validate_credentials req =
    if trim_space req.daemon_addr == "" then some "daemon address is required" else none

-- What `writeJSON` is given: the status, and an error, the daemon's response or the dashboard.
pub data Reply : Type 0 where
  refused : ℕ → String → Reply
  passed_on : Response → Reply
  shown : Dashboard → Reply

-- The body of a request: the credentials, and what else its JSON holds
pub record Body {ℓ} (A : Type ℓ) : Type ℓ where
  pub credentials : Credentials
  pub form : A

-- The beginning that the handlers have in common: the method, the JSON and the credentials. A body
-- that does not decode is an error.
unfoldable pub admitted {ℓ} :
    {A : Type ℓ} → WebServer → String → Result (Body A) → (Credentials → A → Reply) → Reply
admitted s method body serve =
    if not (method == "POST") then refused 405 "method not allowed" else elim body [
      | err e ↦ refused 400 e
      | ok b ↦
          let creds = with_defaults s b.credentials in
          let reply = serve creds b.form in
          elim (validate_credentials creds) [ some e ↦ refused 400 e | none ↦ reply ]
    ]

-- The end that they have in common: the call of the daemon
unfoldable pub forward : (String → Request → Result Response) → Credentials → Request → Reply
forward exchange creds req = elim (call exchange creds.daemon_addr req) [
  | err e ↦ refused 502 e
  | ok resp ↦ passed_on resp
]

pub record DomainForm : Type 0 where
  pub domain_id : String
  pub name : String
  pub join_code : String
  pub description : String

-- The request that `apiCreateDomain` sends
abbrev pub create_domain_request : String → DomainForm → Request
create_domain_request admin_token form = record zero_request {
  kind = "admin.create_domain";
  admin_token = admin_token;
  domain_id = trim_space form.domain_id;
  name = trim_space form.name;
  join_code = trim_space form.join_code;
  description = trim_space form.description;
}

-- `apiCreateDomain`
unfoldable pub api_create_domain :
    (String → Request → Result Response) → WebServer → String → Result (Body DomainForm) → Reply
unfolding admitted forward
api_create_domain exchange s method body = admitted s method body (λ creds form.
    if trim_space form.domain_id == ""
    then refused 400 "domain_id is required"
    else forward exchange creds (create_domain_request creds.admin_token form))

-- The request that `apiApproveNode` sends for a form with the request's fields
abbrev pub approve_node_request : String → Request → Request
approve_node_request admin_token form = record zero_request {
  kind = "admin.approve_node";
  admin_token = admin_token;
  node_id = trim_space form.node_id;
  domain_id = trim_space form.domain_id;
  role = trim_space form.role;
  node_type = trim_space form.node_type;
  interface = trim_space form.interface;
  config_type = trim_space form.config_type;
  reload_method = trim_space form.reload_method;
  natter_managed = form.natter_managed;
  natter_configured = form.natter_configured;
  natter_command = form.natter_command;
  natter_timeout_seconds = form.natter_timeout_seconds;
  natter_stop_wireguard = form.natter_stop_wireguard;
  natter_wireguard_control = trim_space form.natter_wireguard_control;
  natter_restart_delay_seconds = form.natter_restart_delay_seconds;
  name = trim_space form.name;
}

-- `apiApproveNode`
unfoldable pub api_approve_node :
    (String → Request → Result Response) → WebServer → String → Result (Body Request) → Reply
unfolding admitted forward
api_approve_node exchange s method body = admitted s method body (λ creds form.
    if trim_space form.node_id == ""
    then refused 400 "node_id is required"
    else forward exchange creds (approve_node_request creds.admin_token form))

abbrev pub delete_node_request : String → String → Request
delete_node_request admin_token node_id = record zero_request {
  kind = "admin.delete_node";
  admin_token = admin_token;
  node_id = trim_space node_id;
}

-- `apiDeleteNode`
unfoldable pub api_delete_node :
    (String → Request → Result Response) → WebServer → String → Result (Body String) → Reply
unfolding admitted forward
api_delete_node exchange s method body = admitted s method body (λ creds node_id.
    if trim_space node_id == ""
    then refused 400 "node_id is required"
    else forward exchange creds (delete_node_request creds.admin_token node_id))

abbrev pub run_natter_request : String → String → String → Request
run_natter_request admin_token node_id interface = record zero_request {
  kind = "admin.run_natter";
  admin_token = admin_token;
  server_node_id = node_id;
  server_interface = interface;
}

-- `apiRunNatter`
unfoldable pub api_run_natter :
    (String → Request → Result Response)
    → WebServer
    → String
    → Result (Body (String × String))
    → Reply
unfolding admitted forward
api_run_natter exchange s method body = admitted s method body (λ creds form.
    if form.0 == "" || form.1 == ""
    then refused 400 "server_node_id and server_interface are required"
    else forward exchange creds (run_natter_request creds.admin_token form.0 form.1))

-- `apiSummary`; `now` is the time that the dashboard is given.
unfoldable pub api_summary :
    (String → Request → Result Response)
    → String
    → WebServer
    → String
    → Result {0} (Body {0} Unit)
    → Reply
unfolding admitted
api_summary exchange now s method body = admitted s method body (λ creds _.
    elim (load exchange now creds.daemon_addr creds.admin_token) [
      | err e ↦ refused 502 e
      | ok data_shown ↦ shown data_shown
    ])
