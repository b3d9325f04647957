-- ===== src/Store/Approve/Shared.antt =====
-- `ApproveNode` of internal/store/store.go and identifiers with a slash.
use text.Mathlib.TextLemmas.{append_assoc}
use wireguard_natter_helper.Prelude.{◌<>◌, ok, String, ◌≡◌, sym, ap, ◌∙◌, subst, some}
use wireguard_natter_helper.Map.{get?}
use wireguard_natter_helper.Store.Config.{Node}
use wireguard_natter_helper.Store.State.{Store, Env}
use wireguard_natter_helper.Store.Ids.{domain_member_key}
use wireguard_natter_helper.Store.Approve.{
  NodeApproval, approval_domain, approved_member, old_member, approve_node,
}
use wireguard_natter_helper.Store.Approve.Outcome.{approve_node-IsGranted}

key-shared :
    (domain_id part node_id : String)
    → domain_member_key domain_id (part <> "/" <> node_id)
      ≡ domain_member_key (domain_id <> "/" <> part) node_id
unfolding domain_member_key
key-shared domain_id part node_id =
    ap (λ t. domain_id <> t) (sym (append_assoc "/" part ("/" <> node_id)))
    ∙ sym (append_assoc domain_id ("/" <> part) ("/" <> node_id))

-- When the approval of a node b/c in a domain a succeeds, for any texts a, b and c, its
-- membership is what stands under the key of the node c in the domain a/b.
pub approve_node-shared :
    (env : Env) (domain_id part node_id : String) (a : NodeApproval) (s : Store) (n : Node)
    → approval_domain (part <> "/" <> node_id) a s ≡ domain_id
    → (approve_node env (part <> "/" <> node_id) a s).1 ≡ ok n
    → get?
        (domain_member_key (domain_id <> "/" <> part) node_id)
        (approve_node env (part <> "/" <> node_id) a s).0.state.domain_members
      ≡ some (
          approved_member env domain_id
            (part <> "/" <> node_id)
            a
            (old_member domain_id (part <> "/" <> node_id) s))
approve_node-shared env domain_id part node_id a s n same granted =
    let outcome = approve_node-IsGranted env (part <> "/" <> node_id) a s n granted in
    subst
      (λ k.
        get? k (approve_node env (part <> "/" <> node_id) a s).0.state.domain_members
        ≡ some (
            approved_member env domain_id (part <> "/" <> node_id) a
              (old_member domain_id (part <> "/" <> node_id) s)))
      (key-shared domain_id part node_id)
      (subst
        (λ d.
          get? (domain_member_key d (part <> "/" <> node_id))
            (approve_node env (part <> "/" <> node_id) a s).0.state.domain_members
          ≡ some (
              approved_member env d (part <> "/" <> node_id) a
                (old_member d (part <> "/" <> node_id) s)))
        same outcome.member)
