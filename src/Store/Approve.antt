-- ===== src/Store/Approve.antt =====
-- `ApproveNode` of internal/store/store.go: a node is approved by saving its membership in a domain.
pub mod Shared
pub mod Outcome
use wireguard_natter_helper.Prelude.{
  if◌then◌else◌, ◌<>◌, non_empty, ℤ, pos, Result, err, with_error, String, Bool, true, false, ◌&&◌,
  ◌||◌, not, Option, none, some, List, [], ◌∷◌, ◌==◌,
}
use wireguard_natter_helper.Map.{Map, get?, has, get_or, set, delete, values}
use wireguard_natter_helper.Json.{str, Fields, object}
use wireguard_natter_helper.Store.Config.{Node, DomainMember, zero_member}
use wireguard_natter_helper.Store.Runtime.{zero_runtime, Event, zero_event}
use wireguard_natter_helper.Store.State.{
  Store, Env, put_nodes, put_members, put_node_runtime, put_pending,
}
use wireguard_natter_helper.Store.Ids.{domain_member_key, first_non_empty, label}
use wireguard_natter_helper.Store.Clear.{
  clear_node_transient_fields, default_member_runtime_fields, node_with_runtime,
}
use wireguard_natter_helper.Store.Audit.{domain_member_audit}
use wireguard_natter_helper.Store.Save.{save_both}
use wireguard_natter_helper.Store.Events.{add_audit_event_locked}

pub record NodeApproval : Type 0 where
  pub domain_id : String
  pub role : String
  pub node_type : String
  pub interface : String
  pub config_type : String
  pub reload_method : String
  pub natter_managed : Bool
  pub natter_configured : Bool
  pub natter_command : List String
  pub natter_timeout_seconds : ℤ
  pub natter_stop_wireguard : Bool
  pub natter_wireguard_control : String
  pub natter_restart_delay_seconds : ℤ
  pub name : String

-- The loop of `singleMemberDomainID`
unfoldable pub single_domain : String → String → List DomainMember → String
single_domain found node_id [] = found
single_domain found node_id (m ∷ ms) =
    let skip = single_domain found node_id ms in
    let take_it = single_domain m.domain_id node_id ms in
    if not (m.node_id == node_id)
    then skip
    else if non_empty found && not (found == m.domain_id)
    then ""
    else take_it

-- `singleMemberDomainID`
unfoldable pub single_member_domain_id : Map DomainMember → String → String
unfolding single_domain
single_member_domain_id members node_id = single_domain "" node_id (values members)

-- The natter fields of the member, by `NatterManaged` and `NatterConfigured`
unfoldable pub with_natter : NodeApproval → DomainMember → DomainMember
with_natter a m =
    if not a.natter_managed
    then m
    else if a.natter_configured
    then record m {
      natter_managed = true;
      natter_command = a.natter_command;
      natter_configured = true;
      natter_stop_wireguard = a.natter_stop_wireguard;
      natter_timeout_seconds = a.natter_timeout_seconds;
      natter_wireguard_control = a.natter_wireguard_control;
      natter_restart_delay_seconds = a.natter_restart_delay_seconds;
    }
    else record m {
      natter_managed = true;
      natter_configured = false;
      natter_command = [];
      natter_timeout_seconds = pos 0;
      natter_stop_wireguard = false;
      natter_wireguard_control = "";
      natter_restart_delay_seconds = pos 0;
    }

-- The member before its defaults: what the approval leaves empty stays.
unfoldable pub merged_member : String → String → NodeApproval → DomainMember → DomainMember
unfolding with_natter first_non_empty
merged_member domain_id node_id a m = with_natter a (record m {
  domain_id = domain_id;
  node_id = node_id;
  role = first_non_empty (a.role ∷ m.role ∷ []);
  node_type = first_non_empty (a.node_type ∷ m.node_type ∷ []);
  interface = first_non_empty (a.interface ∷ m.interface ∷ []);
  config_type = first_non_empty (a.config_type ∷ m.config_type ∷ []);
  reload_method = first_non_empty (a.reload_method ∷ m.reload_method ∷ []);
})

abbrev approval_event : Node → Option Fields → DomainMember → Event
approval_event node before member =
    let approved_message =
      "Node "
      <> label node.name node.id
      <> " approved in domain "
      <> member.domain_id
      <> " as "
      <> member.role
      <> " on "
      <> member.interface in
    let updated_message =
      "Node "
      <> label node.name node.id
      <> " updated in domain "
      <> member.domain_id
      <> ": role="
      <> member.role
      <> " interface="
      <> member.interface
      <> " node_type="
      <> member.node_type in
    record zero_event {
      type = if node.approved then "node.updated" else "node.approved";
      severity = "info";
      actor = "admin";
      target = "membership:" <> domain_member_key member.domain_id member.node_id;
      action = "membership.save";
      before = before;
      after = domain_member_audit member;
      result = "success";
      node_id = node.id;
      message = if node.approved then updated_message else approved_message;
      payload = some (
          object (
            ("domain_id", str member.domain_id)
            ∷ ("role", str member.role)
            ∷ ("interface", str member.interface)
            ∷ ("node_type", str member.node_type)
            ∷ ("config_type", str member.config_type)
            ∷ ("reload_method", str member.reload_method)
            ∷ []));
    }

-- The domain that the approval is for: the one asked, the one joined, or the node's only one.
unfoldable pub approval_domain : String → NodeApproval → Store → String
approval_domain node_id approval s = first_non_empty (
    approval.domain_id
    ∷ get_or node_id "" s.runtime.pending_domain
    ∷ single_member_domain_id s.state.domain_members node_id
    ∷ [])

-- The rest of `ApproveNode` once the node and the domain are found and the member is complete.
unfoldable pub save_membership :
    Env → String → Node → Option Fields → DomainMember → Store → Store × Result Node
unfolding save_both add_audit_event_locked
save_membership env node_id node before member s =
    let key = domain_member_key member.domain_id node_id in
    let s1 = put_members (set key member s.state.domain_members) s in
    let approved = clear_node_transient_fields (record node { approved = true }) in
    let s2 = put_pending (delete node_id s1.runtime.pending_domain) s1 in
    let runtime = get_or node_id zero_runtime s2.runtime.node_runtime in
    let waits = runtime.status == "pending" || runtime.status == "" in
    let runtime' = record runtime { status = if waits then "offline" else runtime.status } in
    let s3 = put_node_runtime (set node_id runtime' s2.runtime.node_runtime) s2 in
    let s4 = put_nodes (set node_id approved s3.state.nodes) s3 in
    let s5 = add_audit_event_locked env (approval_event node before member) s4 in
    let (s6, e) = save_both env s5 in (s6, with_error (node_with_runtime s6.runtime approved) e)

-- `if approval.Name != "" { node.Name = approval.Name }`
unfoldable pub renamed : NodeApproval → Node → Node
renamed a n = record n { name = if non_empty a.name then a.name else n.name }

-- The member that is stored, from the one that was there
unfoldable pub approved_member : Env → String → String → NodeApproval → DomainMember → DomainMember
approved_member env domain_id node_id a old =
    record (default_member_runtime_fields (merged_member domain_id node_id a old)) {
      updated_at = env.now;
    }

-- The member that was there, or its zero value
unfoldable pub old_member : String → String → Store → DomainMember
old_member domain_id node_id s =
    get_or (domain_member_key domain_id node_id) zero_member s.state.domain_members

-- `ApproveNode`
unfoldable pub approve_node : Env → String → NodeApproval → Store → Store × Result Node
approve_node env node_id approval s = elim (get? node_id s.state.nodes) [
  | none ↦ (s, err "node not found")
  | some found ↦
      let domain_id = approval_domain node_id approval s in
      let old = old_member domain_id node_id s in
      let merged = merged_member domain_id node_id approval old in
      if domain_id == ""
      then (s, err "domain is required")
      else if not (has domain_id s.state.domains)
      then (s, err "domain not found")
      else if merged.role == ""
      then (s, err "role is required")
      else if merged.interface == ""
      then (s, err "interface is required")
      else save_membership env node_id (renamed approval found) (domain_member_audit old)
          (approved_member env domain_id node_id approval old) s
]
