-- ===== src/Store/Reconcile/Frame.antt =====
-- The parts of the store that `ReconcileAutoBindings` of internal/store/store.go writes, and the
-- other ones.
use wireguard_natter_helper.Prelude.{for_each_keeps, String, ◌≡◌, refl, List, arith}
use wireguard_natter_helper.Map.{delete_if}
use wireguard_natter_helper.Store.Config.{Binding}
use wireguard_natter_helper.Store.State.{Store, Env}
use wireguard_natter_helper.Store.Reconcile.{
  Round, record_binding, is_stale, forget_binding, remove_stale, pair_all, reconcile_auto_bindings,
}
use wireguard_natter_helper.Store.Reconcile.Justified.{Pairing}
use wireguard_natter_helper.Store.Reconcile.Loops.{pair_all-inv}

pub record Untouched (s t : Store) : Type 0 where
  pub nodes : t.state.nodes ≡ s.state.nodes
  pub domains : t.state.domains ≡ s.state.domains
  pub members : t.state.domain_members ≡ s.state.domain_members
  pub node_runtime : t.runtime.node_runtime ≡ s.runtime.node_runtime
  pub pending_domain : t.runtime.pending_domain ≡ s.runtime.pending_domain
  pub wg_interfaces : t.runtime.wg_interfaces ≡ s.runtime.wg_interfaces
  pub endpoint_leases : t.runtime.endpoint_leases ≡ s.runtime.endpoint_leases
  pub commands : t.runtime.commands ≡ s.runtime.commands

record_binding-Untouched :
    (env : Env) (s : Store) (domain_id : String) (b : Binding) (r : Round)
    → Pairing s b
    → Untouched s r.store
    → Untouched s (record_binding env domain_id b r).store
unfolding record_binding
record_binding-Untouched env s domain_id b r _ h = ground arith

pub pair_all-Untouched : (env : Env) (s : Store) → Untouched s (pair_all env s).store
pair_all-Untouched env s =
    pair_all-inv env s (λ r. Untouched s r.store) (record_binding-Untouched env s)
      (record {
        nodes = refl;
        domains = refl;
        members = refl;
        node_runtime = refl;
        pending_domain = refl;
        wg_interfaces = refl;
        endpoint_leases = refl;
        commands = refl;
      })

-- The state after the last loop: the stale bindings are gone.
pub remove_stale-state :
    (env : Env) (valid_auto : List String) (s : Store)
    → (remove_stale env valid_auto s).state ≡ record s.state {
      bindings = delete_if (is_stale valid_auto s.state.domain_members) s.state.bindings;
    }
unfolding remove_stale
remove_stale-state env valid_auto s =
    let rest = delete_if (is_stale valid_auto s.state.domain_members) s.state.bindings in
    for_each_keeps (λ (t : Store). t.state ≡ record s.state { bindings = rest })
      (forget_binding env) (λ e t h. unfold forget_binding in h) _ _ refl

remove_stale-Untouched :
    (env : Env) (valid_auto : List String) (s t : Store)
    → Untouched s t
    → Untouched s (remove_stale env valid_auto t)
unfolding remove_stale
remove_stale-Untouched env valid_auto s t h =
    for_each_keeps (Untouched s) (forget_binding env)
      (λ e t h. unfold forget_binding in ground arith) _ _ (ground arith)

-- A reconciliation changes no node, domain, membership, node runtime entry, pending domain,
-- reported interface, endpoint lease or command queue.
pub reconcile_auto_bindings-Untouched :
    (env : Env) (s : Store) → Untouched s (reconcile_auto_bindings env s).0
unfolding reconcile_auto_bindings
reconcile_auto_bindings-Untouched env s =
    let round = pair_all env s in
    ground
      (arith, remove_stale-Untouched env round.valid_auto s round.store (pair_all-Untouched env s))

-- The configuration that a reconciliation leaves
pub reconcile_auto_bindings-state :
    (env : Env) (s : Store)
    → (reconcile_auto_bindings env s).0.state
      ≡ (remove_stale env (pair_all env s).valid_auto (pair_all env s).store).state
unfolding reconcile_auto_bindings
reconcile_auto_bindings-state env s = ground arith
