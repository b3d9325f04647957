-- ===== src/Store/Steps/Approvals.antt =====
-- The approvals of the nodes along the steps of the store.
use wireguard_natter_helper.Prelude.{
  Bool-cases, Option-cases, String, ◌≡◌, refl, ap, ◌∙◌, inl, inr, false, Option, arith, ◌==◌,
  eq_iff,
}
use wireguard_natter_helper.Map.{Map, get?, set}
use wireguard_natter_helper.Json.{Fields}
use wireguard_natter_helper.Store.Config.{Node}
use wireguard_natter_helper.Store.State.{Store, Env}
use wireguard_natter_helper.Store.Nodes.{
  mark_seen, unapproved_node, upsert_joined_node, named_node, upsert_pending_node,
}
use wireguard_natter_helper.Store.Domains.{nodes}
use wireguard_natter_helper.Store.Commands.{queue_command, complete_command, save_endpoint_lease}
use wireguard_natter_helper.Store.Reconcile.Frame.{reconcile_auto_bindings-Untouched}
use wireguard_natter_helper.Store.Events.{add_event}
use wireguard_natter_helper.Store.Sound.{is_approved, is_approved-set}
use wireguard_natter_helper.Store.Steps.Soundness.{update_wg_interfaces-state, next_command-state}
use wireguard_natter_helper.Store.Steps.{
  binding_added, node_created, deleted, approved, domain_created, logged, leased, completed, queued,
  inventory, seen, join, register, Step, reconciled, delivered, Reach, Reach-keeps,
}

abbrev pub SameApprovals : Store → Store → Type 0
SameApprovals s t = (id : String) → is_approved t.state.nodes id ≡ is_approved s.state.nodes id

put-approvals :
    (nodes : Map Node) (key : String) (n : Node)
    → n.approved ≡ is_approved nodes key
    → (id : String) → is_approved (set key n nodes) id ≡ is_approved nodes id
put-approvals nodes key n same id = elim (Bool-cases (key == id)) [
  | inl e ↦
      rw (is_approved-set nodes key id n, e) (same ∙ ap (is_approved nodes) ((eq_iff key id).0 e))
  | inr e ↦ rw (is_approved-set nodes key id n, e) refl
]

upsert_pending_node-approvals :
    (env : Env) (node_id name token : String) (meta : Option Fields) (s : Store)
    → SameApprovals s (upsert_pending_node env node_id name token meta s).0
unfolding upsert_pending_node
upsert_pending_node-approvals env node_id name token meta s id =
    elim (Option-cases (get? node_id s.state.nodes)) [
      | inl e ↦
          let new = unapproved_node env node_id name token in
          ground (
            arith,
            put-approvals s.state.nodes node_id new
                (unfold unapproved_node is_approved in ground arith) id,
          )
      | inr (n, e) ↦ ground (
        arith,
        put-approvals s.state.nodes node_id (named_node name n)
            (unfold named_node is_approved in ground arith) id,
      )
    ]

upsert_joined_node-approvals :
    (env : Env) (domain_id node_id name token : String) (meta : Option Fields) (s : Store)
    → SameApprovals s (upsert_joined_node env domain_id node_id name token meta s).0
unfolding upsert_joined_node
upsert_joined_node-approvals env domain_id node_id name token meta s id =
    elim (Option-cases (get? node_id s.state.nodes)) [
      | inl e ↦
          let new = unapproved_node env node_id name token in
          ground (
            arith,
            put-approvals s.state.nodes node_id new
                (unfold unapproved_node is_approved in ground arith) id,
          )
      | inr (n, e) ↦ ground arith
    ]

Step-approvals : (s t : Store) → Step false s t → SameApprovals s t
unfolding mark_seen queue_command complete_command save_endpoint_lease add_event
Step-approvals s _ (register env node_id name token meta) id =
    upsert_pending_node-approvals env node_id name token meta s id
Step-approvals s _ (join env domain_id node_id name token meta) id =
    upsert_joined_node-approvals env domain_id node_id name token meta s id
Step-approvals s _ (seen env node_id meta) id = refl
Step-approvals s _ (inventory env node_id interfaces) id =
    rw (update_wg_interfaces-state env node_id interfaces s)
Step-approvals s _ (reconciled env) id = rw ((reconcile_auto_bindings-Untouched env s).nodes)
Step-approvals s _ (queued env node_id cmd) id = refl
Step-approvals s _ (delivered env node_id) id = rw (next_command-state env node_id s)
Step-approvals s _ (completed env node_id command_id result) id = refl
Step-approvals s _ (leased env node_id lease) id = refl
Step-approvals s _ (logged env type severity node_id binding_id message payload) id = refl
Step-approvals s _ (domain_created env a b c d never) id = cc
Step-approvals s _ (approved env node_id approval never) id = cc
Step-approvals s _ (deleted env node_id never) id = cc
Step-approvals s _ (node_created env a b c never) id = cc
Step-approvals s _ (binding_added env b never) id = cc

pub Reach-approvals : (s t : Store) → Reach false s t → SameApprovals s t
Reach-approvals s t r id =
    Reach-keeps (λ u. is_approved u.state.nodes id ≡ is_approved s.state.nodes id)
      (λ u v st h. Step-approvals u v st id ∙ h) r refl
