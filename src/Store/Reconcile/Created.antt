-- ===== src/Store/Reconcile/Created.antt =====
-- The bindings that `ReconcileAutoBindings` of internal/store/store.go returns.
use wireguard_natter_helper.Prelude.{All, All-append, ok, String, ◌≡◌, List, [], ◌∷◌, arith}
use wireguard_natter_helper.Store.Config.{Binding}
use wireguard_natter_helper.Store.State.{Store, Env}
use wireguard_natter_helper.Store.Reconcile.{Round, record_binding, reconcile_auto_bindings}
use wireguard_natter_helper.Store.Reconcile.Justified.{Pairing}
use wireguard_natter_helper.Store.Reconcile.Loops.{pair_all-inv}

record_binding-created :
    (env : Env) (s : Store) (domain_id : String) (b : Binding) (r : Round)
    → Pairing s b
    → All (Pairing s) r.created
    → All (Pairing s) (record_binding env domain_id b r).created
unfolding record_binding
record_binding-created env s domain_id b r pairing h =
    ground (arith, All-append (Pairing s) r.created (b ∷ []) h (pairing, tt))

-- Every binding that a reconciliation reports as created pairs an approved server's reported
-- interface with an approved client's reported interface in the same domain whose peers include
-- the server's public key.
pub created-Pairing :
    (env : Env) (s : Store) (created : List Binding)
    → (reconcile_auto_bindings env s).1 ≡ ok created
    → All (Pairing s) created
unfolding reconcile_auto_bindings
created-Pairing env s created e =
    ground
      (arith, pair_all-inv env s (λ r. All (Pairing s) r.created) (record_binding-created env s) tt)
