-- ===== src/Store/Reconcile/Manual.antt =====
-- `ReconcileAutoBindings` of internal/store/store.go and the bindings that an administrator
-- made.
use wireguard_natter_helper.Store.Reconcile.Frame.{
  remove_stale-state, reconcile_auto_bindings-state,
}
use wireguard_natter_helper.Store.Reconcile.Loops.{pair_all-inv}
use wireguard_natter_helper.Prelude.{String, ◌≡◌, false, some, arith, eq_iff}
use wireguard_natter_helper.Map.{get?}
use wireguard_natter_helper.Map.Lookup.{get?-delete_if, get?-set}
use wireguard_natter_helper.Store.Config.{Binding}
use wireguard_natter_helper.Store.State.{Env}
use wireguard_natter_helper.Store.Reconcile.{
  is_stale, pair_all, reconcile_auto_bindings, is_auto_binding_id, Store, Round, record_binding,
}

record_binding-manual :
    (env : Env) (domain_id id : String) (b manual : Binding) (r : Round)
    → manual.auto ≡ false
    → get? id r.store.state.bindings ≡ some manual
    → get? id (record_binding env domain_id b r).store.state.bindings ≡ some manual
unfolding record_binding
record_binding-manual env domain_id id b manual r hand h =
    ground (arith, get?-set b.id id b r.store.state.bindings, eq_iff b.id id)

-- A reconciliation keeps, unchanged, a binding that is not marked automatic and whose identifier
-- is not the one an automatic binding of its ends would have.
pub reconcile-manual :
    (env : Env) (s : Store) (id : String) (manual : Binding)
    → manual.auto ≡ false
    → is_auto_binding_id manual ≡ false
    → get? id s.state.bindings ≡ some manual
    → get? id (reconcile_auto_bindings env s).0.state.bindings ≡ some manual
reconcile-manual env s id manual hand unnamed h =
    let round = pair_all env s in
    let kept : get? id round.store.state.bindings ≡ some manual =
      pair_all-inv env s (λ r. get? id r.store.state.bindings ≡ some manual)
        (λ domain_id b r _. record_binding-manual env domain_id id b manual r hand) h in
    rw (reconcile_auto_bindings-state env s, remove_stale-state env round.valid_auto round.store)
      (get?-delete_if _ id manual round.store.state.bindings (unfold is_stale in ground arith) kept)
