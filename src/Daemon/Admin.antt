-- ===== src/Daemon/Admin.antt =====
-- The administrator's requests of internal/daemon/daemon.go.
use wireguard_natter_helper.Prelude.{
  if◌then◌else◌, Result, ok, err, String, true, ◌||◌, none, some, [], ◌∷◌, ◌==◌,
}
use wireguard_natter_helper.Auth.{generate_token}
use wireguard_natter_helper.Rpc.{Request, Response, success, failure}
use wireguard_natter_helper.Store.Config.{Domain}
use wireguard_natter_helper.Store.State.{Env}
use wireguard_natter_helper.Store.Domains.{create_domain}
use wireguard_natter_helper.Store.Approve.{NodeApproval, approve_node}
use wireguard_natter_helper.Store.Remove.{delete_node}
use wireguard_natter_helper.Store.Commands.{queue_command}
use wireguard_natter_helper.Daemon.Server.{Server, with_store, authenticate_admin, sanitize_node}
use wireguard_natter_helper.Daemon.Inventory.{reconcile}
use wireguard_natter_helper.Daemon.Reports.{run_command}

-- `if err := s.authenticateAdmin(req); err != nil { return … }`
abbrev pub as_admin : Server → Request → Server × Response → Server × Response
as_admin srv req answer = elim (authenticate_admin srv req) [
  | some e ↦ (srv, failure e)
  | none ↦ answer
]

abbrev pub join_code_for : Env → String → Result String
join_code_for env given = if given == "" then generate_token env else ok given

-- `adminCreateDomain`
unfoldable pub admin_create_domain : Env → Request → Server → Server × Response
admin_create_domain env req srv = as_admin srv req (
    if req.domain_id == ""
    then (srv, failure "domain_id is required")
    else elim (join_code_for env req.join_code) [
      | err e ↦ (srv, failure e)
      | ok join_code ↦
          let (s1, e) =
            create_domain env req.domain_id req.name join_code req.description srv.store in
          let created : Domain = record {
            id = req.domain_id;
            name = if req.name == "" then req.domain_id else req.name;
            join_code = join_code;
            created_at = "";
            description = req.description;
          } in
          (
            with_store s1 srv,
            elim e [ some x ↦ failure x | none ↦ record success { domain = some created } ],
          )
    ])

abbrev pub approval_of : Request → NodeApproval
approval_of req = record {
  domain_id = req.domain_id;
  role = req.role;
  node_type = req.node_type;
  interface = req.interface;
  config_type = req.config_type;
  reload_method = req.reload_method;
  natter_managed = req.natter_managed;
  natter_configured = req.natter_configured;
  natter_command = req.natter_command;
  natter_timeout_seconds = req.natter_timeout_seconds;
  natter_stop_wireguard = req.natter_stop_wireguard;
  natter_wireguard_control = req.natter_wireguard_control;
  natter_restart_delay_seconds = req.natter_restart_delay_seconds;
  name = req.name;
}

-- `adminApproveNode`
unfoldable pub admin_approve_node : Env → Request → Server → Server × Response
admin_approve_node env req srv =
    let (s1, approved) = approve_node env req.node_id (approval_of req) srv.store in
    as_admin srv req (
      if req.node_id == "" then (srv, failure "node_id is required") else elim approved [
        | err e ↦ (with_store s1 srv, failure e)
        | ok node ↦ (
          with_store (reconcile env s1) srv,
          record success { approved = true; nodes = sanitize_node node ∷ [] },
        )
      ])

-- `adminDeleteNode`
unfoldable pub admin_delete_node : Env → Request → Server → Server × Response
admin_delete_node env req srv =
    let (s1, e) = delete_node env req.node_id srv.store in
    as_admin srv req (
      if req.node_id == "" then (srv, failure "node_id is required") else elim e [
        | some x ↦ (with_store s1 srv, failure x)
        | none ↦ (with_store (reconcile env s1) srv, success)
      ])

-- `adminRunNatter`
unfoldable pub admin_run_natter : Env → Request → Server → Server × Response
admin_run_natter env req srv =
    let cmd = run_command env req.server_interface in
    let (s1, e) = queue_command env req.server_node_id cmd srv.store in
    as_admin srv req (
      if req.server_node_id == "" || req.server_interface == ""
      then (srv, failure "server_node_id and server_interface are required")
      else (
        with_store s1 srv,
        elim e [ some x ↦ failure x | none ↦ record success { command = some cmd } ],
      ))
