-- ===== src/Store/Reconcile/Sound.antt =====
-- `ReconcileAutoBindings` of internal/store/store.go and the well-formedness of the
-- configuration.
use wireguard_natter_helper.Prelude.{String, ◌≡◌, refl, arith}
use wireguard_natter_helper.Map.Entries.{Every-delete_if}
use wireguard_natter_helper.Store.Config.{DomainMember, Binding}
use wireguard_natter_helper.Store.Runtime.{WgInterface}
use wireguard_natter_helper.Store.State.{Store, Env}
use wireguard_natter_helper.Store.Clear.{clear_binding_endpoint, default_binding_fields}
use wireguard_natter_helper.Store.Reconcile.{
  Round, auto_binding, record_binding, pair_all, reconcile_auto_bindings,
}
use wireguard_natter_helper.Store.Reconcile.Justified.{Pairing}
use wireguard_natter_helper.Store.Reconcile.Loops.{pair_all-inv}
use wireguard_natter_helper.Store.Reconcile.Frame.{
  remove_stale-state, reconcile_auto_bindings-state,
}
use wireguard_natter_helper.Store.Sound.{IsSound}
use wireguard_natter_helper.Store.Sound.Members.{put_binding-IsSound}

auto_binding-clear :
    (d : String) (server client : DomainMember) (si ci : WgInterface)
    → clear_binding_endpoint (default_binding_fields (auto_binding d server client si ci))
      ≡ default_binding_fields (auto_binding d server client si ci)
unfolding clear_binding_endpoint default_binding_fields auto_binding
auto_binding-clear d server client si ci = refl

record_binding-IsSound :
    (env : Env) (s : Store) (domain_id : String) (b : Binding) (r : Round)
    → Pairing s b
    → IsSound r.store.state
    → IsSound (record_binding env domain_id b r).store.state
unfolding record_binding
record_binding-IsSound env s domain_id b r p h =
    let clear : clear_binding_endpoint b ≡ b =
      rw p.made (auto_binding-clear p.domain_id p.server p.client p.server_iface p.client_iface) in
    ground (arith, put_binding-IsSound r.store.state b h clear)

pub reconcile_auto_bindings-IsSound :
    (env : Env) (s : Store) → IsSound s.state → IsSound (reconcile_auto_bindings env s).0.state
reconcile_auto_bindings-IsSound env s h =
    let round = pair_all env s in
    let sound : IsSound round.store.state =
      pair_all-inv env s (λ r. IsSound r.store.state) (record_binding-IsSound env s) h in
    rw (reconcile_auto_bindings-state env s, remove_stale-state env round.valid_auto round.store)
      (record {
        nodes_keyed = sound.nodes_keyed;
        nodes_clear = sound.nodes_clear;
        domains_keyed = sound.domains_keyed;
        members_keyed = sound.members_keyed;
        members_approved = sound.members_approved;
        members_domain = sound.members_domain;
        bindings_keyed = Every-delete_if _ _ _ sound.bindings_keyed;
        bindings_clear = Every-delete_if _ _ _ sound.bindings_clear;
      })
