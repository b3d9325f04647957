-- ===== src/Daemon/Handle.antt =====
-- `handle` of internal/daemon/daemon.go: the dispatch on the request's kind.
pub mod AgentSteps
pub mod Refines
pub mod Access
pub mod Secrets
use wireguard_natter_helper.Prelude.{String, if◌then◌else◌, ◌<>◌, ℤ, pos, is_positive, false, ◌==◌}
use wireguard_natter_helper.Rpc.{Request, Response, success, failure}
use wireguard_natter_helper.Store.State.{Env}
use wireguard_natter_helper.Store.Events.{events}
use wireguard_natter_helper.Store.Domains.{domains, wg_interfaces, domain_members, bindings, nodes}
use wireguard_natter_helper.Daemon.Server.{Server}
use wireguard_natter_helper.Daemon.Agents.{agent_register, agent_join, agent_poll}
use wireguard_natter_helper.Daemon.Reports.{agent_report}
use wireguard_natter_helper.Daemon.Admin.{
  as_admin, admin_create_domain, admin_approve_node, admin_delete_node, admin_run_natter,
}

abbrev limit_or_100 : ℤ → ℤ
limit_or_100 limit = if is_positive limit then limit else pos 100

-- The `switch` of `handle`
unfoldable pub dispatch : Env → String → Request → Server → Server × Response
dispatch env kind req srv =
    if kind == "agent.register"
    then agent_register env req srv
    else if kind == "agent.join"
    then agent_join env req srv
    else if kind == "agent.poll"
    then agent_poll env req srv
    else if kind == "agent.report"
    then agent_report env req srv
    else if kind == "admin.nodes"
    then as_admin srv req (srv, record success { nodes = nodes env srv.store })
    else if kind == "admin.domains"
    then as_admin srv req (srv, record success { domains = domains false srv.store })
    else if kind == "admin.domain_members"
    then as_admin srv req (srv, record success { domain_members = domain_members srv.store })
    else if kind == "admin.create_domain"
    then admin_create_domain env req srv
    else if kind == "admin.approve_node"
    then admin_approve_node env req srv
    else if kind == "admin.delete_node"
    then admin_delete_node env req srv
    else if kind == "admin.bindings"
    then as_admin srv req (srv, record success { bindings = bindings srv.store })
    else if kind == "admin.wireguard"
    then as_admin srv req (srv, record success { wg_interfaces = wg_interfaces srv.store })
    else if kind == "admin.events"
    then as_admin srv req (
      srv,
      record success { events = events env.decode_event (limit_or_100 req.limit) srv.store },
    )
    else if kind == "admin.run_natter"
    then admin_run_natter env req srv
    else (srv, failure ("unknown request kind: " <> kind))

unfoldable pub handle : Env → Request → Server → Server × Response
unfolding dispatch
handle env req srv = dispatch env req.kind req srv
