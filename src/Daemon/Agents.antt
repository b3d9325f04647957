-- ===== src/Daemon/Agents.antt =====
-- The agents' requests of internal/daemon/daemon.go: registration, joining and polling.
use wireguard_natter_helper.Prelude.{
  if◌then◌else◌, Result, ok, err, ℕ, zero, suc, ◌+◌, String, ◌||◌, Option, none, some, [], ◌∷◌,
  ◌==◌,
}
use wireguard_natter_helper.Protocol.{Command}
use wireguard_natter_helper.Rpc.{Request, Response, success, failure}
use wireguard_natter_helper.Store.Config.{Node, zero_node}
use wireguard_natter_helper.Store.State.{Store, Env}
use wireguard_natter_helper.Store.Nodes.{
  authenticate_node_any_status, mark_seen, upsert_joined_node, upsert_pending_node,
}
use wireguard_natter_helper.Store.Domains.{domain_by_join_code, domain_members_for_node}
use wireguard_natter_helper.Store.Commands.{next_command}
use wireguard_natter_helper.Daemon.Server.{Server, with_store, authenticate_agent, sanitize_node}
use wireguard_natter_helper.Daemon.Inventory.{
  sync_wireguard_inventory, reconcile, monitor_peers_for_node,
}

-- `agentRegister`
unfoldable pub agent_register : Env → Request → Server → Server × Response
agent_register env req srv =
    let (s1, upserted) =
      upsert_pending_node env req.node_id req.name req.token req.meta srv.store in
    if req.node_id == "" || req.token == ""
    then (srv, failure "node_id and token are required")
    else elim upserted [
      | err e ↦ (with_store s1 srv, failure e)
      | ok (node, created) ↦ (
        with_store (sync_wireguard_inventory env req.node_id req.meta s1) srv,
        record success { approved = node.approved; nodes = sanitize_node node ∷ [] },
      )
    ]

-- `agentJoin`
unfoldable pub agent_join : Env → Request → Server → Server × Response
agent_join env req srv =
    if req.node_id == "" || req.token == "" || req.join_code == ""
    then (srv, failure "node_id, token, and join_code are required")
    else elim (domain_by_join_code req.join_code srv.store) [
      | none ↦ (srv, failure "invalid join code")
      | some domain ↦
          let (s1, upserted) =
            upsert_joined_node env domain.id req.node_id req.name req.token req.meta srv.store in
          elim upserted [
            | err e ↦ (with_store s1 srv, failure e)
            | ok (node, created) ↦ (
              with_store (reconcile env (sync_wireguard_inventory env req.node_id req.meta s1)) srv,
              record success {
                approved = node.approved;
                domain = some domain;
                nodes = sanitize_node node ∷ [];
              },
            )
          ]
    ]

-- The waiting loop of `agentPoll`: at each look the next command is taken if there is one, and the
-- other requests run while it sleeps.
unfoldable pub wait_for_command : Env → String → ℕ → ℕ → Store → Store × Result (Option Command)
wait_for_command env node_id zero k s = (s, ok none)
wait_for_command env node_id (suc looks) k s =
    let (s', found) = next_command env node_id s in
    let later = wait_for_command env node_id looks (k + 1) (env.others k s') in
    elim found [ err e ↦ (s', err e) | ok none ↦ later | ok (some cmd) ↦ (s', ok (some cmd)) ]

abbrev or_zero_node : Option Node → Node
or_zero_node none = zero_node
or_zero_node (some n) = n

-- `agentPoll`
unfoldable pub agent_poll : Env → Request → Server → Server × Response
agent_poll env req srv = elim (authenticate_agent env req srv.store) [
  | err e ↦ (srv, failure e)
  | ok node_id ↦
      let (s1, _) = mark_seen env node_id req.meta srv.store in
      let s2 = reconcile env (sync_wireguard_inventory env node_id req.meta s1) in
      let (s3, waited) = wait_for_command env node_id env.looks 0 s2 in
      let node = or_zero_node (authenticate_node_any_status env req.node_id req.token s3) in
      elim waited [
        | err e ↦ (with_store s3 srv, failure e)
        | ok cmd ↦ (
          with_store s3 srv,
          record success {
            command = cmd;
            monitor_peers = monitor_peers_for_node node_id s3;
            nodes = sanitize_node node ∷ [];
            domain_members = domain_members_for_node node_id s3;
          },
        )
      ]
]
