-- ===== src/Daemon/Handle/Refines.antt =====
-- The requests of internal/daemon/daemon.go as sequences of calls of the store's methods.
use wireguard_natter_helper.Prelude.{
  split_if, split_option, split_result, String, ◌≡◌, refl, Bool, true, ◌||◌, arith, ◌==◌,
}
use wireguard_natter_helper.Rpc.{Request, Response}
use wireguard_natter_helper.Store.State.{Env}
use wireguard_natter_helper.Store.Approve.{approve_node}
use wireguard_natter_helper.Store.Remove.{delete_node}
use wireguard_natter_helper.Store.Steps.{
  queued, domain_created, approved, deleted, Reach, here, next,
}
use wireguard_natter_helper.Daemon.Server.{Server, authenticate_admin}
use wireguard_natter_helper.Daemon.Reports.{run_command}
use wireguard_natter_helper.Daemon.Admin.{
  as_admin, join_code_for, admin_create_domain, approval_of, admin_approve_node, admin_delete_node,
  admin_run_natter,
}
use wireguard_natter_helper.Daemon.Handle.{dispatch, handle}
use wireguard_natter_helper.Daemon.Handle.AgentSteps.{
  OthersStep, reconcile-Reach, agent_register-Reach, agent_join-Reach, agent_poll-Reach,
  agent_report-Reach,
}

-- The request passes `authenticateAdmin`.
unfoldable pub is_admin : Server → Request → Bool
is_admin srv req = srv.admin_token == "" || req.admin_token == srv.admin_token

-- `admin` says whether an administrator's steps may be taken, which is so where the request passes.
module _ (admin : Bool) (env : Env) (req : Request) (srv : Server)
    (grants : is_admin srv req ≡ true → admin ≡ true) where
  abbrev ByAdmin : Server × Response → Type 0
  ByAdmin r = Reach admin srv.store r.0.store

  -- An answer for the administrator is given only where the token passes.
  as_admin-Reach :
      (answer : Server × Response)
      → (admin ≡ true → ByAdmin answer)
      → ByAdmin (as_admin srv req answer)
  unfolding is_admin authenticate_admin
  as_admin-Reach answer h =
      split_option ByAdmin (authenticate_admin srv req) (λ e. h (grants (ground arith)))
        (λ _ _. here)

  admin_create_domain-Reach : ByAdmin (admin_create_domain env req srv)
  unfolding admin_create_domain
  admin_create_domain-Reach = as_admin-Reach _ λ granted.
      split_if ByAdmin (req.domain_id == "") (λ _. here)
        λ _.
          split_result ByAdmin (join_code_for env req.join_code) (λ _ _. here)
            (λ code _.
              next here (domain_created env req.domain_id req.name code req.description granted))

  admin_approve_node-Reach : ByAdmin (admin_approve_node env req srv)
  unfolding admin_approve_node
  admin_approve_node-Reach = as_admin-Reach _ λ granted.
      let done = next here (approved env req.node_id (approval_of req) granted) in
      split_if ByAdmin (req.node_id == "") (λ _. here)
        λ _.
          split_result ByAdmin (approve_node env req.node_id (approval_of req) srv.store).1
            (λ _ _. done) (λ _ _. reconcile-Reach _ env req srv done)

  admin_delete_node-Reach : ByAdmin (admin_delete_node env req srv)
  unfolding admin_delete_node
  admin_delete_node-Reach = as_admin-Reach _ λ granted.
      let done = next here (deleted env req.node_id granted) in
      split_if ByAdmin (req.node_id == "") (λ _. here)
        λ _.
          split_option ByAdmin (delete_node env req.node_id srv.store).1
            (λ _. reconcile-Reach _ env req srv done) (λ _ _. done)

  admin_run_natter-Reach : ByAdmin (admin_run_natter env req srv)
  unfolding admin_run_natter
  admin_run_natter-Reach = as_admin-Reach _ λ granted.
      split_if ByAdmin (req.server_node_id == "" || req.server_interface == "") (λ _. here)
        (λ _. next here (queued env req.server_node_id (run_command env req.server_interface)))

  -- Every request, of whatever kind
  pub dispatch-Reach :
      OthersStep admin env
      → (kind : String) → Reach admin srv.store (dispatch env kind req srv).0.store
  unfolding dispatch
  dispatch-Reach others kind =
      let read = λ (r : Response). as_admin-Reach (srv, r) (λ _. here) in
      split_if ByAdmin (kind == "agent.register") (λ _. agent_register-Reach admin env req srv)
        λ _.
          split_if ByAdmin (kind == "agent.join") (λ _. agent_join-Reach admin env req srv)
            λ _.
              split_if ByAdmin (kind == "agent.poll")
                (λ _. agent_poll-Reach admin env req srv others)
                λ _.
                  split_if ByAdmin (kind == "agent.report")
                    (λ _. agent_report-Reach admin env req srv)
                    λ _.
                      split_if ByAdmin (kind == "admin.nodes") (λ _. read _)
                        λ _.
                          split_if ByAdmin (kind == "admin.domains") (λ _. read _)
                            λ _.
                              split_if ByAdmin (kind == "admin.domain_members") (λ _. read _)
                                λ _.
                                  split_if ByAdmin (kind == "admin.create_domain")
                                    (λ _. admin_create_domain-Reach)
                                    λ _.
                                      split_if ByAdmin (kind == "admin.approve_node")
                                        (λ _. admin_approve_node-Reach)
                                        λ _.
                                          split_if ByAdmin (kind == "admin.delete_node")
                                            (λ _. admin_delete_node-Reach)
                                            λ _.
                                              split_if ByAdmin (kind == "admin.bindings")
                                                (λ _. read _)
                                                λ _.
                                                  split_if ByAdmin (kind == "admin.wireguard")
                                                    (λ _. read _)
                                                    λ _.
                                                      split_if ByAdmin (kind == "admin.events")
                                                        (λ _. read _)
                                                        λ _.
                                                          split_if ByAdmin
                                                            (kind == "admin.run_natter")
                                                            (λ _. admin_run_natter-Reach)
                                                            (λ _. here)

-- Serving any request takes the store through a sequence of calls of the store's methods, each
-- holding the mutex, and the administrator's methods are among them only if the daemon has no
-- admin token or the request carries it; what the other requests do meanwhile must be such a
-- sequence too.
pub handle-Reach :
    (env : Env) (req : Request) (srv : Server)
    → OthersStep (is_admin srv req) env
    → Reach (is_admin srv req) srv.store (handle env req srv).0.store
unfolding handle
handle-Reach env req srv others =
    dispatch-Reach (is_admin srv req) env req srv (λ p. p) others req.kind

-- The same where anything may be done meanwhile.
pub handle-any :
    (env : Env) (req : Request) (srv : Server)
    → OthersStep true env
    → Reach true srv.store (handle env req srv).0.store
unfolding handle
handle-any env req srv others = dispatch-Reach true env req srv (λ _. refl) others req.kind
