-- ===== src/Store/Sound/Members.antt =====
-- `ApproveNode`, `DeleteNode` and the domain and binding methods of internal/store/store.go, and
-- the well-formedness of the configuration.
use wireguard_natter_helper.Store.Audit.{domain_member_audit}
use wireguard_natter_helper.Prelude.{
  some, inr, inl, Option-cases, eq_iff, String, ◌≡◌, refl, ap, true, Option, arith,
}
use wireguard_natter_helper.Map.{get?, has, set}
use wireguard_natter_helper.Map.Entries.{Every-get?, Every-set, Every-delete, Every-delete_if}
use wireguard_natter_helper.Store.Config.{Node, Domain, DomainMember, Binding}
use wireguard_natter_helper.Store.State.{Data, Store, Env}
use wireguard_natter_helper.Store.Ids.{domain_member_key}
use wireguard_natter_helper.Store.Clear.{
  clear_node_transient_fields, clear_binding_endpoint, default_binding_fields,
  default_member_runtime_fields,
}
use wireguard_natter_helper.Store.Domains.{new_domain, create_domain}
use wireguard_natter_helper.Store.Approve.{
  old_member, approval_domain, renamed, approved_member, approve_node, NodeApproval, merged_member,
  save_membership,
}
use wireguard_natter_helper.Store.Remove.{without_node, delete_node, add_binding}
use wireguard_natter_helper.Store.Sound.{
  is_approved-set, IsSound, members_approved-set, members_approved-delete, members_domain-set,
}
use wireguard_natter_helper.Json.{Fields}

put_domain-IsSound :
    (d : Data) (id : String) (domain : Domain)
    → IsSound d
    → domain.id ≡ id
    → IsSound (record d { domains = set id domain d.domains })
put_domain-IsSound d id domain h own = record {
  nodes_keyed = h.nodes_keyed;
  nodes_clear = h.nodes_clear;
  domains_keyed = Every-set _ id domain d.domains h.domains_keyed own;
  members_keyed = h.members_keyed;
  members_approved = h.members_approved;
  members_domain = members_domain-set d.domains d.domain_members id domain h.members_domain;
  bindings_keyed = h.bindings_keyed;
  bindings_clear = h.bindings_clear;
}

pub create_domain-IsSound :
    (env : Env) (id name join_code description : String) (s : Store)
    → IsSound s.state
    → IsSound (create_domain env id name join_code description s).0.state
unfolding create_domain new_domain
create_domain-IsSound env id name join_code description s h =
    let domain = new_domain env id name join_code description in
    ground (arith, put_domain-IsSound s.state id domain h refl)

pub delete_node-IsSound :
    (env : Env) (node_id : String) (s : Store)
    → IsSound s.state
    → IsSound (delete_node env node_id s).0.state
unfolding delete_node
delete_node-IsSound env node_id s h = ground (arith, without_node-IsSound)
  where
    without_node-IsSound : IsSound (without_node node_id s).state
    without_node-IsSound =
        unfold without_node in
        record {
          nodes_keyed = Every-delete _ node_id _ h.nodes_keyed;
          nodes_clear = Every-delete _ node_id _ h.nodes_clear;
          domains_keyed = h.domains_keyed;
          members_keyed = Every-delete_if _ _ _ h.members_keyed;
          members_approved =
              members_approved-delete s.state.nodes s.state.domain_members node_id
                h.members_approved;
          members_domain = Every-delete_if _ _ _ h.members_domain;
          bindings_keyed = Every-delete_if _ _ _ h.bindings_keyed;
          bindings_clear = Every-delete_if _ _ _ h.bindings_clear;
        }

pub put_binding-IsSound :
    (d : Data) (b : Binding)
    → IsSound d
    → clear_binding_endpoint b ≡ b
    → IsSound (record d { bindings = set b.id b d.bindings })
put_binding-IsSound d b h clear = record {
  nodes_keyed = h.nodes_keyed;
  nodes_clear = h.nodes_clear;
  domains_keyed = h.domains_keyed;
  members_keyed = h.members_keyed;
  members_approved = h.members_approved;
  members_domain = h.members_domain;
  bindings_keyed = Every-set _ b.id b d.bindings h.bindings_keyed refl;
  bindings_clear = Every-set _ b.id b d.bindings h.bindings_clear clear;
}

pub add_binding-IsSound :
    (env : Env) (b : Binding) (s : Store) → IsSound s.state → IsSound (add_binding env b s).0.state
unfolding add_binding clear_binding_endpoint default_binding_fields
add_binding-IsSound env b s h = put_binding-IsSound s.state _ h refl

-- A member of an existing domain, saved with the approval of its node
save_membership-IsSound :
    (env : Env) (node_id : String) (n : Node) (before : Option Fields) (m : DomainMember)
    (s : Store)
    → IsSound s.state
    → n.id ≡ node_id
    → m.node_id ≡ node_id
    → has m.domain_id s.state.domains ≡ true
    → IsSound (save_membership env node_id n before m s).0.state
unfolding save_membership clear_node_transient_fields
save_membership-IsSound env node_id n before m s h named own domain = record {
  nodes_keyed = Every-set _ node_id _ s.state.nodes h.nodes_keyed named;
  nodes_clear = Every-set _ node_id _ s.state.nodes h.nodes_clear refl;
  domains_keyed = h.domains_keyed;
  members_keyed =
      Every-set _ _ m s.state.domain_members h.members_keyed
        (ap (domain_member_key m.domain_id) own);
  members_approved =
      Every-set _ _ m s.state.domain_members
        (members_approved-set s.state.nodes s.state.domain_members node_id _ h.members_approved
          (λ _. refl))
        (ground (
          arith,
          is_approved-set s.state.nodes node_id m.node_id
              (clear_node_transient_fields (record n { approved = true })),
          eq_iff node_id m.node_id,
        ));
  members_domain = Every-set _ _ m s.state.domain_members h.members_domain domain;
  bindings_keyed = h.bindings_keyed;
  bindings_clear = h.bindings_clear;
}

-- The defaults leave the member's key alone.
default_member_runtime_fields-key :
    (m : DomainMember)
    → ((default_member_runtime_fields m).node_id ≡ m.node_id)
      × ((default_member_runtime_fields m).domain_id ≡ m.domain_id)
unfolding default_member_runtime_fields
default_member_runtime_fields-key m = ground arith

merged_member-key :
    (domain_id node_id : String) (a : NodeApproval) (m : DomainMember)
    → ((merged_member domain_id node_id a m).node_id ≡ node_id)
      × ((merged_member domain_id node_id a m).domain_id ≡ domain_id)
unfolding merged_member
merged_member-key domain_id node_id a m = ground arith

approved_member-key :
    (env : Env) (domain_id node_id : String) (a : NodeApproval) (m : DomainMember)
    → ((approved_member env domain_id node_id a m).node_id ≡ node_id)
      × ((approved_member env domain_id node_id a m).domain_id ≡ domain_id)
unfolding approved_member
approved_member-key env domain_id node_id a m =
    let merged = merged_member domain_id node_id a m in
    ground
      (arith, default_member_runtime_fields-key merged, merged_member-key domain_id node_id a m)

-- The member that `ApproveNode` saves for the node is its own, in the domain that it found.
save_approved-IsSound :
    (env : Env) (domain_id node_id : String) (a : NodeApproval) (s : Store) (n : Node)
    (before : Option Fields)
    → IsSound s.state
    → get? node_id s.state.nodes ≡ some n
    → has domain_id s.state.domains ≡ true
    → IsSound
        (save_membership env node_id
          (renamed a n)
          before
          (approved_member env domain_id node_id a (old_member domain_id node_id s))
          s).0.state
unfolding renamed
save_approved-IsSound env domain_id node_id a s n before h e there =
    let old = old_member domain_id node_id s in
    let (own, domain) = approved_member-key env domain_id node_id a old in
    save_membership-IsSound env node_id (renamed a n) before
      (approved_member env domain_id node_id a old) s h
      (Every-get? _ node_id n s.state.nodes h.nodes_keyed e) own (rw domain there)

pub approve_node-IsSound :
    (env : Env) (node_id : String) (a : NodeApproval) (s : Store)
    → IsSound s.state
    → IsSound (approve_node env node_id a s).0.state
unfolding approve_node
approve_node-IsSound env node_id a s h = elim (Option-cases (get? node_id s.state.nodes)) [
  | inl e ↦ ground arith
  | inr (n, e) ↦
      let domain_id = approval_domain node_id a s in
      let before = domain_member_audit (old_member domain_id node_id s) in
      ground (arith, save_approved-IsSound env domain_id node_id a s n before h e)
]
