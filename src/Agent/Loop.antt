-- ===== src/Agent/Loop.antt =====
-- `Run` of internal/agent/agent.go: the agent enrols, polls and carries out commands.
pub mod Approved
pub mod Deleted
use wireguard_natter_helper.Prelude.{
  if◌then◌else◌, Result, ok, err, Error, ℕ, String, Bool, true, false, Option, none, some, List, [],
  ◌∷◌, ◌==◌,
}
use wireguard_natter_helper.Json.{Fields}
use wireguard_natter_helper.Protocol.{Command}
use wireguard_natter_helper.Host.{Host, Machine}
use wireguard_natter_helper.Rpc.{Request, zero_request, MonitorPeer, Response, call}
use wireguard_natter_helper.Store.Config.{Node, DomainMember}
use wireguard_natter_helper.Agent.State.{Agent, with_config}
use wireguard_natter_helper.Agent.Remote.{
  apply_remote_node_config, apply_remote_domain_members, set_monitor_peers, start_monitor_if_needed,
}
use wireguard_natter_helper.Agent.Inventory.{meta_of}
use wireguard_natter_helper.Agent.Handle.{Report, handle_command}
use wireguard_natter_helper.Strings.{contains}

-- The connection to the daemon at each request of one round
abbrev pub Exchange : Type 0
Exchange = ℕ → String → Request → Result Response

-- The request of `register` or, with a join code, of `join`
abbrev pub enroll_request : Agent → Fields → Request
enroll_request a meta = record zero_request {
  kind = if a.config.join_code == "" then "agent.register" else "agent.join";
  node_id = a.config.node_id;
  name = a.config.node_name;
  token = a.token;
  join_code = a.config.join_code;
  meta = some meta;
}

-- `enroll`, which is `join` or `register`; the number is that of the request.
unfoldable pub enroll : Machine → Exchange → ℕ → Agent → Host → Host × (Agent × Error)
enroll env exchange k a h =
    let (h', meta) = meta_of env a.config h in
    (
      h',
      elim (call (exchange k) a.addr (enroll_request a meta)) [
        | err e ↦ (a, some e)
        | ok resp ↦
            if resp.approved
            then (record a { joined = true }, none)
            else (a, some "node pending approval")
      ],
    )

abbrev pub poll_request : Agent → Fields → Request
poll_request a meta = record zero_request {
  kind = "agent.poll";
  node_id = a.config.node_id;
  token = a.token;
  meta = some meta;
}

abbrev apply_nodes : List Node → Agent → Agent
apply_nodes [] a = a
apply_nodes (node ∷ _) a = with_config (apply_remote_node_config node a.config) a

abbrev apply_members : List DomainMember → Agent → Agent
apply_members [] a = a
apply_members (m ∷ ms) a = with_config (apply_remote_domain_members (m ∷ ms) a.config) a

abbrev apply_peers : List MonitorPeer → Agent → Agent
apply_peers [] a = a
apply_peers (p ∷ ps) a = start_monitor_if_needed (set_monitor_peers (p ∷ ps) a)

-- What `poll` takes from a response
unfoldable pub absorb : Response → Agent → Agent
absorb resp a =
    apply_peers resp.monitor_peers (apply_members resp.domain_members (apply_nodes resp.nodes a))

-- `poll`
unfoldable pub poll :
    Machine → Exchange → ℕ → Agent → Host → Host × (Agent × Result (Option Command))
unfolding absorb
poll env exchange k a h =
    let (h', meta) = meta_of env a.config h in
    (
      h',
      elim (call (exchange k) a.addr (poll_request a meta)) [
        | err e ↦ (a, err e)
        | ok resp ↦ (absorb resp a, ok resp.command)
      ],
    )

-- What a round leaves: the machine and the agent, and the reports on a command, if one came. A crash
-- leaves `none` for the reports.
pub record AgentRound : Type 0 where
  pub host : Host
  pub agent : Agent
  pub polled : Bool
  pub reports : Option (List Report)

-- The round of an agent that has joined: `poll`, and `handle` or another `enroll`
unfoldable pub poll_round : Machine → Exchange → Agent → Host → AgentRound
poll_round env exchange a h =
    let (h1, (a1, polled)) = poll env exchange 1 a h in
    let (h2, (a2, _)) = enroll env exchange 2 a1 h1 in
    elim polled [
      | err e ↦
          if contains e "node pending approval"
          then record { host = h2; agent = a2; polled = true; reports = some [] }
          else record { host = h1; agent = a1; polled = true; reports = some [] }
      | ok none ↦ record { host = h1; agent = a1; polled = true; reports = some [] }
      | ok (some cmd) ↦
          let (h3, reports) = handle_command env cmd a1.config h1 in
          record { host = h3; agent = a1; polled = true; reports = reports }
    ]

-- The body of the loop of `Run`
unfoldable pub run_round : Machine → Exchange → Agent → Host → AgentRound
run_round env exchange a h =
    let (h1, (a1, e)) = enroll env exchange 0 a h in
    if a.joined then poll_round env exchange a h else elim e [
      | some x ↦ record { host = h1; agent = a1; polled = false; reports = some [] }
      | none ↦ poll_round env exchange a1 h1
    ]

-- `Run`: what it reports in each round, until it crashes
unfoldable pub run_rounds : List (Machine × Exchange) → Agent → Host → List (Option (List Report))
unfolding run_round
run_rounds [] a h = []
run_rounds ((env, exchange) ∷ rounds) a h =
    let round = run_round env exchange a h in
    let later = run_rounds rounds round.agent round.host in
    elim round.reports [ none ↦ none ∷ [] | some reports ↦ some reports ∷ later ]

unfoldable pub run_agent : List (Machine × Exchange) → Agent → Host → List (Option (List Report))
unfolding run_rounds
run_agent rounds a h = run_rounds rounds (start_monitor_if_needed a) h
