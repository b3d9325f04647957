-- ===== src/Agent/Loop/Approved.antt =====
-- The agent of internal/agent/agent.go before its approval at the daemon of
-- internal/daemon/daemon.go.
use wireguard_natter_helper.Auth.{verify_token}
use wireguard_natter_helper.Prelude.{
  clash, ok_inj, is_some, Result, ok, err, Error, with_error, split_if, split_option, split_result,
  ℕ, String, ◌≡◌, refl, sym, ap, ◌∙◌, Bool, true, false, ◌||◌, not, Option, none, some, [], ◌==◌,
}
use wireguard_natter_helper.Json.{Fields}
use wireguard_natter_helper.Map.{Map, get?, has}
use wireguard_natter_helper.Host.{Host, Machine}
use wireguard_natter_helper.Rpc.{call-response, Request, Response, call}
use wireguard_natter_helper.Store.Config.{Node}
use wireguard_natter_helper.Store.State.{Store, Env}
use wireguard_natter_helper.Store.Sound.{is_approved}
use wireguard_natter_helper.Store.Clear.{node_with_runtime}
use wireguard_natter_helper.Store.Nodes.{
  unapproved_node, upsert_joined_node, named_node, upsert_pending_node,
}
use wireguard_natter_helper.Store.Domains.{domain_by_join_code, nodes}
use wireguard_natter_helper.Daemon.Server.{Server}
use wireguard_natter_helper.Daemon.Agents.{agent_register, agent_join}
use wireguard_natter_helper.Daemon.Handle.{dispatch, handle}
use wireguard_natter_helper.Agent.State.{Agent}
use wireguard_natter_helper.Agent.Inventory.{meta_of}
use wireguard_natter_helper.Agent.Loop.{Exchange, enroll_request, enroll, AgentRound, run_round}

abbrev Unapproved : Result (Node × Bool) → Type 0
Unapproved (err e) = Unit
Unapproved (ok (node, created)) = node.approved ≡ false

with_error-Unapproved :
    (node : Node) (created : Bool) (e : Error)
    → node.approved ≡ false
    → Unapproved (with_error (node, created) e)
with_error-Unapproved node created none h = h
with_error-Unapproved node created (some x) h = tt

existing-unapproved :
    (id : String) (nodes : Map Node) (node : Node)
    → is_approved nodes id ≡ false
    → get? id nodes ≡ some node
    → node.approved ≡ false
unfolding is_approved
existing-unapproved id nodes node h e = rw (is_approved, e) at h

module _ (env : Env) (id name token : String) (meta : Option Fields) (s : Store)
    (h : is_approved s.state.nodes id ≡ false) where
  upsert_pending_node-Unapproved : Unapproved (upsert_pending_node env id name token meta s).1
  unfolding upsert_pending_node node_with_runtime named_node unapproved_node
  upsert_pending_node-Unapproved =
      let Q = λ (o : Store × Result (Node × Bool)). Unapproved o.1 in
      split_if Q (id == "" || token == "") (λ _. tt)
        (λ _.
          split_option Q (get? id s.state.nodes) (λ _. with_error-Unapproved _ true _ refl)
            (λ node e.
              split_if Q (not (verify_token env token node.token_hash)) (λ _. tt)
                (λ _.
                  with_error-Unapproved _ false _ (existing-unapproved id s.state.nodes node h e))))

  upsert_joined_node-Unapproved :
      (domain_id : String) → Unapproved (upsert_joined_node env domain_id id name token meta s).1
  unfolding upsert_joined_node node_with_runtime unapproved_node
  upsert_joined_node-Unapproved domain_id =
      let Q = λ (o : Store × Result (Node × Bool)). Unapproved o.1 in
      split_if Q (id == "" || token == "") (λ _. tt)
        (λ _.
          split_if Q (not (has domain_id s.state.domains)) (λ _. tt)
            (λ _.
              split_option Q (get? id s.state.nodes) (λ _. with_error-Unapproved _ true _ refl)
                (λ node e.
                  split_if Q (not (verify_token env token node.token_hash)) (λ _. tt)
                    (λ _.
                      with_error-Unapproved _ false _
                        (existing-unapproved id s.state.nodes node h e)))))

ok-Unapproved :
    (r : Result (Node × Bool)) (p : Node × Bool) → Unapproved r → r ≡ ok p → p.0.approved ≡ false
ok-Unapproved (ok q) p h e = ap (λ (x : Node × Bool). x.0.approved) (sym (ok_inj e)) ∙ h
ok-Unapproved (err x) p h e = cc

abbrev Denies : Server × Response → Type 0
Denies o = o.1.approved ≡ false

module _ (env : Env) (srv : Server) (req : Request)
    (h : is_approved srv.store.state.nodes req.node_id ≡ false) where
  agent_register-Denies : Denies (agent_register env req srv)
  unfolding agent_register
  agent_register-Denies =
      let upserted = upsert_pending_node env req.node_id req.name req.token req.meta srv.store in
      let low =
        upsert_pending_node-Unapproved env req.node_id req.name req.token req.meta srv.store h in
      split_if Denies (req.node_id == "" || req.token == "") (λ _. refl)
        (λ _.
          split_result Denies upserted.1 (λ _ _. refl) (λ p e. ok-Unapproved upserted.1 p low e))

  agent_join-Denies : Denies (agent_join env req srv)
  unfolding agent_join
  agent_join-Denies =
      split_if Denies (req.node_id == "" || req.token == "" || req.join_code == "") (λ _. refl)
        (λ _.
          split_option Denies (domain_by_join_code req.join_code srv.store) (λ _. refl)
            (λ domain _.
              let upserted =
                upsert_joined_node env domain.id req.node_id req.name req.token req.meta
                  srv.store in
              let low =
                upsert_joined_node-Unapproved env req.node_id req.name req.token req.meta srv.store
                  h domain.id in
              split_result Denies upserted.1 (λ _ _. refl)
                (λ p e. ok-Unapproved upserted.1 p low e)))

-- A daemon that answers
abbrev pub answered_by : Env → Server → Exchange
answered_by env srv k addr req = ok (handle env req srv).1

handle-Denies :
    (env : Env) (srv : Server) (a : Agent) (meta : Fields)
    → is_approved srv.store.state.nodes a.config.node_id ≡ false
    → Denies (handle env (enroll_request a meta) srv)
unfolding handle dispatch
handle-Denies env srv a meta h =
    let req = enroll_request a meta in
    let Q = λ (kind : String). Denies (dispatch env kind req srv) in
    split_if Q (a.config.join_code == "") (λ _. agent_register-Denies env srv req h)
      (λ _. agent_join-Denies env srv req h)

module _ (env : Machine) (denv : Env) (srv : Server) (a : Agent) (h : Host)
    (unapproved : is_approved srv.store.state.nodes a.config.node_id ≡ false) where
  enroll-refused :
      (k : ℕ)
      → ((enroll env (answered_by denv srv) k a h).1.0 ≡ a)
        × (is_some (enroll env (answered_by denv srv) k a h).1.1 ≡ true)
  unfolding enroll
  enroll-refused k =
      let req = enroll_request a (meta_of env a.config h).1 in
      let Q = λ (o : Agent × Error). (o.0 ≡ a) × (is_some o.1 ≡ true) in
      split_result Q (call (answered_by denv srv k) a.addr req) (λ _ _. (refl, refl))
        (λ resp e.
          let same =
            call-response (answered_by denv srv k) a.addr req (handle denv req srv).1 resp
              (λ _. refl) e in
          let denied =
            ap (λ (r : Response). r.approved) same
            ∙ handle-Denies denv srv a (meta_of env a.config h).1 unapproved in
          split_if Q resp.approved (λ was. clash (sym was ∙ denied)) (λ _. (refl, refl)))

  -- While the daemon has no approved node of its identifier, an agent that has not joined stays
  -- as it is in a round: it does not poll and has nothing to carry out.
  pub run_round-unapproved :
      a.joined ≡ false
      → ((run_round env (answered_by denv srv) a h).agent ≡ a)
        × ((run_round env (answered_by denv srv) a h).polled ≡ false)
        × ((run_round env (answered_by denv srv) a h).reports ≡ some [])
  unfolding run_round
  run_round-unapproved j =
      let exchange = answered_by denv srv in
      let refused = enroll-refused 0 in
      let tried = enroll env exchange 0 a h in
      let Q = λ (r : AgentRound). (r.agent ≡ a) × (r.polled ≡ false) × (r.reports ≡ some []) in
      split_if Q a.joined (λ was. clash (sym was ∙ j))
        (λ _.
          split_option Q tried.1.1 (λ e. clash (sym refused.1 ∙ ap is_some e))
            (λ x _. (refused.0, refl, refl)))
