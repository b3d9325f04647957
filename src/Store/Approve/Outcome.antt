-- ===== src/Store/Approve/Outcome.antt =====
-- The outcomes of `ApproveNode` of internal/store/store.go.
use wireguard_natter_helper.Prelude.{
  Option-cases, ok, is_ok, String, ◌≡◌, refl, ◌∙◌, inl, inr, true, false, Option, none, some, arith,
  eq_refl,
}
use wireguard_natter_helper.Map.{get?, has}
use wireguard_natter_helper.Map.Lookup.{get?-set, get?-delete}
use wireguard_natter_helper.Json.{Fields}
use wireguard_natter_helper.Store.Config.{Node, DomainMember}
use wireguard_natter_helper.Store.State.{Store, Env}
use wireguard_natter_helper.Store.Ids.{domain_member_key}
use wireguard_natter_helper.Store.Clear.{clear_node_transient_fields, default_member_runtime_fields}
use wireguard_natter_helper.Store.Approve.{
  NodeApproval, with_natter, merged_member, approval_domain, save_membership, renamed,
  approved_member, old_member, approve_node,
}
use wireguard_natter_helper.Store.Audit.{domain_member_audit}
use wireguard_natter_helper.Store.Sound.{is_approved, is_approved-set}

-- The outcome of an approval that was granted.
pub record IsGranted (env : Env) (node_id domain_id : String) (a : NodeApproval)
    (before after : Store) : Type 0 where
  pub domain : has domain_id before.state.domains ≡ true
  pub approved : is_approved after.state.nodes node_id ≡ true
  pub member :
      get? (domain_member_key domain_id node_id) after.state.domain_members
      ≡ some (approved_member env domain_id node_id a (old_member domain_id node_id before))
  pub settled : get? node_id after.runtime.pending_domain ≡ none

domain-approved_member :
    (env : Env) (domain_id node_id : String) (a : NodeApproval) (old : DomainMember)
    → (approved_member env domain_id node_id a old).domain_id ≡ domain_id
unfolding approved_member default_member_runtime_fields merged_member with_natter
domain-approved_member env domain_id node_id a old = ground arith

save_membership-approved :
    (env : Env) (node_id : String) (n : Node) (before : Option Fields) (m : DomainMember)
    (s : Store)
    → is_approved (save_membership env node_id n before m s).0.state.nodes node_id ≡ true
unfolding save_membership clear_node_transient_fields
save_membership-approved env node_id n before m s =
    let approved = clear_node_transient_fields (record n { approved = true }) in
    is_approved-set s.state.nodes node_id node_id approved ∙ rw (eq_refl node_id) refl

approve_node-approved :
    (env : Env) (node_id : String) (a : NodeApproval) (s : Store) (n : Node)
    → (approve_node env node_id a s).1 ≡ ok n
    → is_approved (approve_node env node_id a s).0.state.nodes node_id ≡ true
unfolding approve_node
approve_node-approved env node_id a s n granted =
    let domain_id = approval_domain node_id a s in
    let old = old_member domain_id node_id s in
    elim (Option-cases (get? node_id s.state.nodes)) [
      | inl e ↦ ground arith
      | inr (found, e) ↦ ground (
        arith,
        save_membership-approved env node_id (renamed a found) (domain_member_audit old)
            (approved_member env domain_id node_id a old) s,
      )
    ]

-- When an approval succeeds, its domain exists, the node is approved, the merged membership
-- stands under the key of the domain and the node, and the node no longer waits for a domain.
pub approve_node-IsGranted :
    (env : Env) (node_id : String) (a : NodeApproval) (s : Store) (n : Node)
    → (approve_node env node_id a s).1 ≡ ok n
    → IsGranted env node_id (approval_domain node_id a s) a s (approve_node env node_id a s).0
unfolding approve_node save_membership is_approved
approve_node-IsGranted env node_id a s n granted =
    let domain_id = approval_domain node_id a s in
    let key = domain_member_key domain_id node_id in
    let member = approved_member env domain_id node_id a (old_member domain_id node_id s) in
    let same = domain-approved_member env domain_id node_id a (old_member domain_id node_id s) in
    record {
      domain = ground arith;
      approved = approve_node-approved env node_id a s n granted;
      member = ground (arith, same, get?-set key key member s.state.domain_members, eq_refl key);
      settled =
          ground (arith, get?-delete node_id node_id s.runtime.pending_domain, eq_refl node_id);
    }

-- Where saving succeeds, an approval that returns an error leaves the whole store as it was.
pub approve_node-refused :
    (env : Env) (node_id : String) (a : NodeApproval) (s : Store)
    → env.state_fault ≡ none
    → env.runtime_fault ≡ none
    → is_ok (approve_node env node_id a s).1 ≡ false
    → (approve_node env node_id a s).0 ≡ s
unfolding approve_node save_membership
approve_node-refused env node_id a s saved kept refused = ground arith
