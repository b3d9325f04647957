-- ===== src/Daemon/Handle/Secrets.antt =====
-- The nodes in the responses of internal/daemon/daemon.go.
use wireguard_natter_helper.Prelude.{
  All, split_if, split_option, String, ◌≡◌, refl, List, [], ◌∷◌, map, arith, ◌==◌,
}
use wireguard_natter_helper.Map.{values}
use wireguard_natter_helper.Rpc.{Request, Response}
use wireguard_natter_helper.Store.Config.{Node}
use wireguard_natter_helper.Store.State.{Store, Env}
use wireguard_natter_helper.Store.Clear.{clear_node_config_fields}
use wireguard_natter_helper.Store.Domains.{shown_node, nodes}
use wireguard_natter_helper.Daemon.Server.{Server, authenticate_admin, sanitize_node}
use wireguard_natter_helper.Daemon.Agents.{agent_register, agent_join, agent_poll}
use wireguard_natter_helper.Daemon.Reports.{natter_result, peer_unreachable, agent_report}
use wireguard_natter_helper.Daemon.Admin.{
  as_admin, admin_create_domain, admin_approve_node, admin_delete_node, admin_run_natter,
}
use wireguard_natter_helper.Daemon.Handle.{dispatch, handle}

abbrev pub NoHash : Node → Type 0
NoHash n = n.token_hash ≡ ""

abbrev Safe : Server × Response → Type 0
Safe r = All NoHash r.1.nodes

nodes-NoHash : (env : Env) (s : Store) → All NoHash (nodes env s)
unfolding nodes
nodes-NoHash env s = go (values s.state.nodes)
  where
    go : (ns : List Node) → All NoHash (map (shown_node env s.runtime) ns)
    go [] = tt
    go (n ∷ ns) = (unfold shown_node clear_node_config_fields in refl, go ns)

module _ (env : Env) (req : Request) (srv : Server) where
  as_admin-Safe : (answer : Server × Response) → Safe answer → Safe (as_admin srv req answer)
  as_admin-Safe answer h = split_option Safe (authenticate_admin srv req) (λ _. h) (λ _ _. tt)

  -- A node in a response of the handlers has no token hash.
  dispatch-Safe : (kind : String) → Safe (dispatch env kind req srv)
  unfolding dispatch agent_register agent_join agent_poll agent_report natter_result
      peer_unreachable admin_create_domain admin_approve_node admin_delete_node admin_run_natter
      sanitize_node
  dispatch-Safe kind =
      split_if Safe (kind == "agent.register") (λ _. ground arith)
        λ _.
          split_if Safe (kind == "agent.join") (λ _. ground arith)
            λ _.
              split_if Safe (kind == "agent.poll") (λ _. ground arith)
                λ _.
                  split_if Safe (kind == "agent.report") (λ _. ground arith)
                    λ _.
                      split_if Safe (kind == "admin.nodes")
                        (λ _. as_admin-Safe _ (nodes-NoHash env srv.store))
                        λ _.
                          split_if Safe (kind == "admin.domains") (λ _. as_admin-Safe _ tt)
                            λ _.
                              split_if Safe (kind == "admin.domain_members")
                                (λ _. as_admin-Safe _ tt)
                                λ _.
                                  split_if Safe (kind == "admin.create_domain")
                                    (λ _. as_admin-Safe _ (ground arith))
                                    λ _.
                                      split_if Safe (kind == "admin.approve_node")
                                        (λ _. as_admin-Safe _ (ground arith))
                                        λ _.
                                          split_if Safe (kind == "admin.delete_node")
                                            (λ _. as_admin-Safe _ (ground arith))
                                            λ _.
                                              split_if Safe (kind == "admin.bindings")
                                                (λ _. as_admin-Safe _ tt)
                                                λ _.
                                                  split_if Safe (kind == "admin.wireguard")
                                                    (λ _. as_admin-Safe _ tt)
                                                    λ _.
                                                      split_if Safe (kind == "admin.events")
                                                        (λ _. as_admin-Safe _ tt)
                                                        λ _.
                                                          split_if Safe (kind == "admin.run_natter")
                                                            (λ _. as_admin-Safe _ (ground arith))
                                                            (λ _. tt)

-- No node in the response to any request has its token's hash filled in.
pub handle-NoHash :
    (env : Env) (req : Request) (srv : Server) → All NoHash (handle env req srv).1.nodes
unfolding handle
handle-NoHash env req srv = dispatch-Safe env req srv req.kind
