-- ===== src/Daemon/Handle/AgentSteps.antt =====
-- The agents' requests of internal/daemon/daemon.go as sequences of calls of the store's methods.
use wireguard_natter_helper.Prelude.{
  ◌<>◌, Result, Error, split_if, split_option, split_result, ℕ, zero, suc, ◌+◌, String, Bool, ◌||◌,
  Option, List, [], ◌∷◌, ◌==◌,
}
use wireguard_natter_helper.Json.{Fields, lookup, string_value}
use wireguard_natter_helper.Protocol.{Command}
use wireguard_natter_helper.Rpc.{Request, Response}
use wireguard_natter_helper.Store.Config.{Binding}
use wireguard_natter_helper.Store.Runtime.{EndpointLease}
use wireguard_natter_helper.Store.State.{Store, Env}
use wireguard_natter_helper.Store.Events.{add_event}
use wireguard_natter_helper.Store.Nodes.{mark_seen, upsert_joined_node, upsert_pending_node}
use wireguard_natter_helper.Store.Domains.{domain_by_join_code}
use wireguard_natter_helper.Store.Commands.{queue_command, next_command, save_endpoint_lease}
use wireguard_natter_helper.Store.Steps.{
  register, join, seen, inventory, reconciled, queued, delivered, completed, leased, logged, Reach,
  here, next, Reach-trans,
}
use wireguard_natter_helper.Daemon.Server.{Server, authenticate_agent}
use wireguard_natter_helper.Daemon.Inventory.{
  sync_wireguard_inventory, reconcile, lease_from_payload,
}
use wireguard_natter_helper.Daemon.Reports.{
  apply_command, queue_applies, natter_result, run_command, is_cooling, peer_unreachable,
  agent_report,
}
use wireguard_natter_helper.Daemon.Agents.{agent_register, agent_join, wait_for_command, agent_poll}

-- What the other requests do while one waits is store operations too.
abbrev pub OthersStep : Bool → Env → Type 0
OthersStep admin env = (k : ℕ) (s : Store) → Reach admin s (env.others k s)

module _ (admin : Bool) (env : Env) (req : Request) (srv : Server) where
  -- The store of the answer is reached.
  abbrev pub Reached : Server × Response → Type 0
  Reached r = Reach admin srv.store r.0.store

  sync-Reach :
      {t : Store} (node_id : String) (meta : Option Fields)
      → Reach admin srv.store t
      → Reach admin srv.store (sync_wireguard_inventory env node_id meta t)
  unfolding sync_wireguard_inventory
  sync-Reach node_id meta r = next r (inventory env node_id _)

  pub reconcile-Reach :
      {t : Store} → Reach admin srv.store t → Reach admin srv.store (reconcile env t)
  unfolding reconcile
  reconcile-Reach r = next r (reconciled env)

  pub agent_register-Reach : Reached (agent_register env req srv)
  unfolding agent_register
  agent_register-Reach =
      let registered = register env req.node_id req.name req.token req.meta in
      split_if Reached (req.node_id == "" || req.token == "") (λ _. here)
        λ _.
          split_result Reached
            (upsert_pending_node env req.node_id req.name req.token req.meta srv.store).1
            (λ e _. next here registered)
            (λ (node, created) _. sync-Reach req.node_id req.meta (next here registered))

  pub agent_join-Reach : Reached (agent_join env req srv)
  unfolding agent_join
  agent_join-Reach =
      split_if Reached (req.node_id == "" || req.token == "" || req.join_code == "") (λ _. here)
        λ _.
          split_option Reached (domain_by_join_code req.join_code srv.store) (λ _. here)
            λ domain _.
              let joined = join env domain.id req.node_id req.name req.token req.meta in
              split_result Reached
                (upsert_joined_node env domain.id req.node_id req.name req.token req.meta
                  srv.store).1
                (λ e _. next here joined)
                (λ (node, created) _.
                  reconcile-Reach (sync-Reach req.node_id req.meta (next here joined)))

  -- Waiting is a sequence of looks, with the steps of the others between them.
  wait_for_command-Reach :
      OthersStep admin env
      → (node_id : String) (looks k : ℕ) (t : Store) → Reach admin srv.store t
      → Reach admin srv.store (wait_for_command env node_id looks k t).0
  unfolding wait_for_command
  wait_for_command-Reach others node_id zero k t r = r
  wait_for_command-Reach others node_id (suc looks) k t r =
      let looked = next r (delivered env node_id) in
      let t' = (next_command env node_id t).0 in
      let later =
        wait_for_command-Reach others node_id looks (k + 1) (env.others k t')
          (Reach-trans looked (others k t')) in
      let Goal : Store × Result (Option Command) → Type 0 = λ x. Reach admin srv.store x.0 in
      split_result Goal (next_command env node_id t).1 (λ e _. looked)
        (λ found _. split_option Goal found (λ _. later) (λ _ _. looked))

  -- Queueing commands one after the other
  queue_applies-Reach :
      (lease : EndpointLease) (k : ℕ) (bs : List Binding) (t : Store)
      → Reach admin srv.store t
      → Reach admin srv.store (queue_applies env lease k bs t).0
  unfolding queue_applies
  queue_applies-Reach lease k [] t r = r
  queue_applies-Reach lease k (b ∷ bs) t r =
      let cmd = apply_command env lease k b in
      let t' = (queue_command env b.client_node_id cmd t).0 in
      let step = next r (queued env b.client_node_id cmd) in
      let Goal : Store × Error → Type 0 = λ x. Reach admin srv.store x.0 in
      split_option Goal (queue_command env b.client_node_id cmd t).1
        (λ _. queue_applies-Reach lease (k + 1) bs t' step) (λ _ _. step)

  natter_result-Reach :
      (node_id : String) (payload : Fields) → Reached (natter_result env node_id payload srv)
  unfolding natter_result
  natter_result-Reach node_id payload =
      split_result Reached (lease_from_payload payload) (λ _ _. here)
        λ lease _.
          let saved = next here (leased env node_id lease) in
          split_result Reached (save_endpoint_lease env node_id lease srv.store).1 (λ _ _. saved)
            (λ served _. queue_applies-Reach lease 0 served _ saved)

  peer_unreachable-Reach :
      (node_id : String) (payload : Fields) → Reached (peer_unreachable env node_id payload srv)
  unfolding peer_unreachable
  peer_unreachable-Reach node_id payload =
      let server_node_id = string_value (lookup "server_node_id" payload) in
      let server_interface = string_value (lookup "server_interface" payload) in
      let binding_id = string_value (lookup "binding_id" payload) in
      let seen =
        logged env "peer.unreachable" "warning" node_id binding_id "Peer handshake is stale"
          payload in
      let s1 =
        add_event env "peer.unreachable" "warning" node_id binding_id "Peer handshake is stale"
          payload srv.store in
      let cmd = run_command env server_interface in
      split_if Reached (server_node_id == "" || server_interface == "") (λ _. here)
        λ _.
          split_if Reached (is_cooling srv (server_node_id <> "/" <> server_interface) env.time)
            (λ _. next here seen)
            λ _.
              split_option Reached (queue_command env server_node_id cmd s1).1
                (λ _. next (next here seen) (queued env server_node_id cmd))
                (λ _ _. next (next here seen) (queued env server_node_id cmd))

  pub agent_poll-Reach : OthersStep admin env → Reached (agent_poll env req srv)
  unfolding agent_poll
  agent_poll-Reach others =
      split_result Reached (authenticate_agent env req srv.store) (λ _ _. here)
        λ node_id _.
          let seen' = next here (seen env node_id req.meta) in
          let ready = reconcile-Reach (sync-Reach node_id req.meta seen') in
          let s2 = reconcile env (
            sync_wireguard_inventory env node_id req.meta
              (mark_seen env node_id req.meta srv.store).0) in
          let waited = wait_for_command-Reach others node_id env.looks 0 s2 ready in
          split_result Reached (wait_for_command env node_id env.looks 0 s2).1 (λ _ _. waited)
            (λ _ _. waited)

  pub agent_report-Reach : Reached (agent_report env req srv)
  unfolding agent_report
  agent_report-Reach =
      split_result Reached (authenticate_agent env req srv.store) (λ _ _. here)
        λ node_id _.
          split_if Reached (req.report_type == "action.result")
            (λ _. next here (completed env node_id req.command_id req.payload))
            λ _.
              split_if Reached (req.report_type == "natter.result")
                (λ _. natter_result-Reach node_id req.payload)
                λ _.
                  split_if Reached (req.report_type == "peer.unreachable")
                    (λ _. peer_unreachable-Reach node_id req.payload)
                    λ _.
                      split_if Reached (req.report_type == "peer.recovered")
                        (λ _. next here (logged env _ _ node_id _ _ req.payload))
                        (λ _. next here (logged env _ _ node_id _ _ req.payload))
