-- ===== src/Daemon/Handle/Access.antt =====
-- Who may do what: the checks that guard every request of internal/daemon/daemon.go.
use wireguard_natter_helper.Prelude.{
  non_empty, is_ok, String, ◌≡◌, sym, subst, Bool, true, false, ◌&&◌, none, some, arith, ◌==◌,
}
use wireguard_natter_helper.Map.{get?}
use wireguard_natter_helper.Rpc.{Request, Response, failure}
use wireguard_natter_helper.Auth.{verify_token}
use wireguard_natter_helper.Store.State.{Store, Env}
use wireguard_natter_helper.Store.Nodes.{authenticate_node_any_status}
use wireguard_natter_helper.Store.Sound.{is_approved, IsSound}
use wireguard_natter_helper.Store.Steps.{Reach}
use wireguard_natter_helper.Store.Steps.Soundness.{Reach-IsSound}
use wireguard_natter_helper.Store.Steps.Identity.{token_of, Reach-token}
use wireguard_natter_helper.Store.Steps.Approvals.{Reach-approvals}
use wireguard_natter_helper.Daemon.Server.{Server, authenticate_agent, authenticate_admin}
use wireguard_natter_helper.Daemon.Reports.{agent_report}
use wireguard_natter_helper.Daemon.Agents.{agent_poll}
use wireguard_natter_helper.Daemon.Admin.{
  as_admin, admin_create_domain, admin_approve_node, admin_delete_node, admin_run_natter,
}
use wireguard_natter_helper.Daemon.Handle.{dispatch, handle}
use wireguard_natter_helper.Daemon.Handle.AgentSteps.{OthersStep}
use wireguard_natter_helper.Daemon.Handle.Refines.{is_admin, handle-Reach, handle-any}

-- The requests of an administrator
pub data AdminKind : String → Type 0 where
  list_nodes : AdminKind "admin.nodes"
  list_domains : AdminKind "admin.domains"
  list_members : AdminKind "admin.domain_members"
  create_domain : AdminKind "admin.create_domain"
  approve_node : AdminKind "admin.approve_node"
  delete_node : AdminKind "admin.delete_node"
  list_bindings : AdminKind "admin.bindings"
  list_interfaces : AdminKind "admin.wireguard"
  list_events : AdminKind "admin.events"
  run_natter : AdminKind "admin.run_natter"

module _ (env : Env) (req : Request) (srv : Server) (closed : (srv.admin_token == "") ≡ false)
    (wrong : (req.admin_token == srv.admin_token) ≡ false) where
  as_admin-refused :
      (answer : Server × Response)
      → as_admin srv req answer ≡ (srv, failure "invalid admin credentials")
  unfolding authenticate_admin
  as_admin-refused answer = ground arith

  pub dispatch-refused :
      (kind : String)
      → AdminKind kind
      → dispatch env kind req srv ≡ (srv, failure "invalid admin credentials")
  unfolding dispatch admin_create_domain admin_approve_node admin_delete_node admin_run_natter
  dispatch-refused _ list_nodes = as_admin-refused _
  dispatch-refused _ list_domains = as_admin-refused _
  dispatch-refused _ list_members = as_admin-refused _
  dispatch-refused _ create_domain = as_admin-refused _
  dispatch-refused _ approve_node = as_admin-refused _
  dispatch-refused _ delete_node = as_admin-refused _
  dispatch-refused _ list_bindings = as_admin-refused _
  dispatch-refused _ list_interfaces = as_admin-refused _
  dispatch-refused _ list_events = as_admin-refused _
  dispatch-refused _ run_natter = as_admin-refused _

-- On a daemon with an admin token, an administrator's request with another one gets the error
-- about credentials and leaves the daemon as it was.
pub handle-refused :
    (env : Env) (req : Request) (srv : Server)
    → AdminKind req.kind
    → (srv.admin_token == "") ≡ false
    → (req.admin_token == srv.admin_token) ≡ false
    → handle env req srv ≡ (srv, failure "invalid admin credentials")
unfolding handle
handle-refused env req srv kind closed wrong =
    dispatch-refused env req srv closed wrong req.kind kind

-- The requests of an approved agent
pub data AgentKind : String → Type 0 where
  poll : AgentKind "agent.poll"
  report : AgentKind "agent.report"

-- The request names an approved node and has its token.
unfoldable pub is_trusted : Env → Request → Store → Bool
is_trusted env req s =
    non_empty req.node_id && non_empty req.token && elim (get? req.node_id s.state.nodes) [
      | none ↦ false
      | some n ↦ (env.sha256_hex req.token == n.token_hash) && n.approved
    ]

authenticate_agent-err :
    (env : Env) (req : Request) (s : Store)
    → is_trusted env req s ≡ false
    → is_ok (authenticate_agent env req s) ≡ false
unfolding is_trusted authenticate_agent authenticate_node_any_status verify_token
authenticate_agent-err env req s h = ground arith

-- A poll or a report that does not name an approved node with that node's token is answered with
-- an error and leaves the daemon as it was.
pub handle-untrusted :
    (env : Env) (req : Request) (srv : Server)
    → AgentKind req.kind
    → is_trusted env req srv.store ≡ false
    → ((handle env req srv).0 ≡ srv) × ((handle env req srv).1.is_ok ≡ false)
unfolding handle
handle-untrusted env req srv kind h = go req.kind kind
  where
    go :
        (k : String)
        → AgentKind k
        → ((dispatch env k req srv).0 ≡ srv) × ((dispatch env k req srv).1.is_ok ≡ false)
    go _ poll =
        unfold dispatch agent_poll in ground (arith, authenticate_agent-err env req srv.store h)
    go _ report =
        unfold dispatch agent_report in ground (arith, authenticate_agent-err env req srv.store h)

module _ (env : Env) (req : Request) (srv : Server) (closed : (srv.admin_token == "") ≡ false)
    (wrong : (req.admin_token == srv.admin_token) ≡ false) (others : OthersStep false env) where
  -- Without the admin token a request takes none of the administrator's steps.
  ordinary-Reach : Reach false srv.store (handle env req srv).0.store
  ordinary-Reach =
      let ordinary : is_admin srv req ≡ false = unfold is_admin in ground arith in
      let others_here : OthersStep (is_admin srv req) env =
        subst (λ b. OthersStep b env) (sym ordinary) others in
      subst (λ b. Reach b srv.store (handle env req srv).0.store) ordinary
        (handle-Reach env req srv others_here)

-- On a daemon with an admin token, a request with another one changes no node's approval,
-- provided that the requests served meanwhile take none of the administrator's steps.
pub handle-approvals :
    (env : Env) (req : Request) (srv : Server) (id : String)
    → (srv.admin_token == "") ≡ false
    → (req.admin_token == srv.admin_token) ≡ false
    → OthersStep false env
    → is_approved (handle env req srv).0.store.state.nodes id ≡ is_approved srv.store.state.nodes id
handle-approvals env req srv id closed wrong others =
    Reach-approvals srv.store _ (ordinary-Reach env req srv closed wrong others) id

-- On a daemon with an admin token, a request with another one neither removes a registered node
-- nor changes the hash of its token, provided that the requests served meanwhile take none of
-- the administrator's steps.
pub handle-token :
    (env : Env) (req : Request) (srv : Server) (id hash : String)
    → (srv.admin_token == "") ≡ false
    → (req.admin_token == srv.admin_token) ≡ false
    → OthersStep false env
    → token_of srv.store.state.nodes id ≡ some hash
    → token_of (handle env req srv).0.store.state.nodes id ≡ some hash
handle-token env req srv id hash closed wrong others h =
    Reach-token srv.store _ id hash (ordinary-Reach env req srv closed wrong others) h

-- A request leaves a sound configuration sound, whatever store methods other requests call
-- meanwhile, an administrator's among them: nodes, domains, memberships and bindings stand under
-- their own keys, nodes and bindings hold no runtime fields, and each member of a domain is an
-- approved node in a domain that exists.
pub handle-IsSound :
    (env : Env) (req : Request) (srv : Server)
    → OthersStep true env
    → IsSound srv.store.state
    → IsSound (handle env req srv).0.store.state
handle-IsSound env req srv others h =
    Reach-IsSound true srv.store _ h (handle-any env req srv others)
