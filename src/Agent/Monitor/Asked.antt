-- ===== src/Agent/Monitor/Asked.antt =====
-- What the daemon does with the report of a lost peer that `runMonitor` of internal/agent/agent.go
-- sends.
use wireguard_natter_helper.Prelude.{◌<>◌, ℤ, ok, ◌≡◌, refl, false, none, some, [], ◌∷◌, ◌++◌, ◌==◌}
use wireguard_natter_helper.Json.{Fields, lookup, object}
use wireguard_natter_helper.Rpc.{MonitorPeer, success}
use wireguard_natter_helper.Agent.State.{Agent}
use wireguard_natter_helper.Agent.Handle.{Report, report_request}
use wireguard_natter_helper.Agent.Monitor.{ProbeStatus, lost_report}
use wireguard_natter_helper.Daemon.Server.{Server, authenticate_agent}
use wireguard_natter_helper.Daemon.Reports.{run_command, is_cooling, peer_unreachable, agent_report}
use wireguard_natter_helper.Daemon.Reports.Cooldown.{Names, peer_unreachable-asks}
use wireguard_natter_helper.Daemon.Handle.{dispatch, handle}
use wireguard_natter_helper.Store.State.{Env}
use wireguard_natter_helper.Store.Commands.Queue.{pending}

lost_report-Names :
    (stale_after : ℤ) (peer : MonitorPeer) (status : ProbeStatus)
    → Names peer.server_node_id peer.server_interface (lost_report stale_after peer status).payload
unfolding object lookup
lost_report-Names stale_after peer status = (refl, refl)

unreachable_reported :
    (env : Env) (a : Agent) (payload : Fields) (srv : Server)
    → let r : Report = record {
      report_type = "peer.unreachable";
      command_id = "";
      payload = payload;
    } in
      authenticate_agent env (report_request a r) srv.store ≡ ok a.config.node_id
      → handle env (report_request a r) srv ≡ peer_unreachable env a.config.node_id payload srv
unfolding handle dispatch agent_report
unreachable_reported env a payload srv known = rw (agent_report, known) refl

-- When the monitor of an agent that the daemon knows reports a lost peer, whose server and
-- interface are named and outside their cooldown, and saving succeeds, the daemon puts a
-- natter.run command for that interface behind the commands that wait for that server, and
-- answers with it.
pub lost_report-asks :
    (env : Env) (a : Agent) (stale_after : ℤ) (peer : MonitorPeer) (status : ProbeStatus)
    (srv : Server)
    → authenticate_agent env (report_request a (lost_report stale_after peer status)) srv.store
      ≡ ok a.config.node_id
    → (peer.server_node_id == "") ≡ false
    → (peer.server_interface == "") ≡ false
    → is_cooling srv (peer.server_node_id <> "/" <> peer.server_interface) env.time ≡ false
    → env.runtime_fault ≡ none
    → let (after, resp) = handle env (report_request a (lost_report stale_after peer status)) srv in
      (resp ≡ record success { command = some (run_command env peer.server_interface) })
      × (pending peer.server_node_id after.store.runtime.commands
          ≡ pending peer.server_node_id srv.store.runtime.commands
            ++ run_command env peer.server_interface ∷ [])
lost_report-asks env a stale_after peer status srv known node interface rested saved =
    let payload = (lost_report stale_after peer status).payload in
    rw (unreachable_reported env a payload srv known) (
      peer_unreachable-asks env a.config.node_id peer.server_node_id peer.server_interface payload
        srv (lost_report-Names stale_after peer status) node interface rested saved)
