-- ===== src/Store/Reconcile/Settled.antt =====
-- The last loop of `ReconcileAutoBindings` of internal/store/store.go: the bindings that are
-- left.
use wireguard_natter_helper.Store.Reconcile.Frame.{
  remove_stale-state, reconcile_auto_bindings-state, pair_all-Untouched,
}
use wireguard_natter_helper.Store.Reconcile.Loops.{pair_all-inv}
use wireguard_natter_helper.Map.Entries.{delete_if-Every, Every-map, Every}
use wireguard_natter_helper.Prelude.{
  Bool-cases, All, String, ◌≡◌, refl, subst, inl, inr, true, false, ◌||◌, List, [], ◌∷◌, arith,
  ◌==◌, eq_iff,
}
use wireguard_natter_helper.Store.Config.{Binding}
use wireguard_natter_helper.Store.State.{Store, Env}
use wireguard_natter_helper.Store.Ids.{contains_string}
use wireguard_natter_helper.Store.AutoBinding.{is_auto_binding_id, binding_matches_domain_members}
use wireguard_natter_helper.Store.Reconcile.{
  reconcile_auto_bindings, is_stale, pair_all, Round, record_binding,
}
use wireguard_natter_helper.Store.Reconcile.Justified.{Pairing}

contains_string-All {ℓ} :
    (P : String → Type ℓ) (xs : List String) (x : String)
    → All P xs
    → contains_string xs x ≡ true
    → P x
unfolding contains_string
contains_string-All P [] x h e = cc
contains_string-All P (y ∷ xs) x (p, h) e = elim (Bool-cases (y == x)) [
  | inl same ↦ subst P ((eq_iff y x).0 same) p
  | inr other ↦ contains_string-All P xs x h (ground arith)
]

-- A binding identifier that current memberships and inventory give
abbrev Paired : Store → String → Type 0
Paired s id = (b : Binding) × Pairing s b × (b.id ≡ id)

pub record_binding-valid_auto :
    (env : Env) (domain_id : String) (b : Binding) (r : Round)
    → (record_binding env domain_id b r).valid_auto ≡ b.id ∷ r.valid_auto
unfolding record_binding
record_binding-valid_auto env domain_id b r = ground arith

pub valid_auto-Paired : (env : Env) (s : Store) → All (Paired s) (pair_all env s).valid_auto
valid_auto-Paired env s =
    pair_all-inv env s (λ r. All (Paired s) r.valid_auto)
      (λ domain_id b r pairing h.
        rw (record_binding-valid_auto env domain_id b r) ((b, pairing, refl), h))
      tt

-- Why a binding may stay: it is not automatic, it was found again, or its members still fit.
pub data MayStay (s : Store) (id : String) (b : Binding) : Type 0 where
  by_hand : (b.auto || is_auto_binding_id b) ≡ false → MayStay s id b
  found : Paired s id → MayStay s id b
  fits : binding_matches_domain_members b s.state.domain_members ≡ true → MayStay s id b

not_stale-MayStay :
    (s : Store) (valid_auto : List String) (id : String) (b : Binding)
    → All (Paired s) valid_auto
    → is_stale valid_auto s.state.domain_members id b ≡ false
    → MayStay s id b
unfolding is_stale
not_stale-MayStay s valid_auto id b paired e = elim (Bool-cases (b.auto || is_auto_binding_id b)) [
  | inr hand ↦ by_hand hand
  | inl auto ↦ elim (Bool-cases (contains_string valid_auto id)) [
    | inl named ↦ found (contains_string-All (Paired s) valid_auto id paired named)
    | inr unnamed ↦ fits (ground arith)
  ]
]

-- After a reconciliation every binding is neither marked automatic nor named like an automatic
-- one, or has the identifier of a pair of current memberships and inventory, or its ends have
-- the roles and interfaces of current memberships.
pub reconcile-MayStay :
    (env : Env) (s : Store) → Every (MayStay s) (reconcile_auto_bindings env s).0.state.bindings
reconcile-MayStay env s =
    let round = pair_all env s in
    let members : round.store.state.domain_members ≡ s.state.domain_members =
      (pair_all-Untouched env s).members in
    rw
      (
        reconcile_auto_bindings-state env s,
        remove_stale-state env round.valid_auto round.store,
        members,
      )
      (Every-map _ _ _ (delete_if-Every _ round.store.state.bindings)
        (λ id b e. not_stale-MayStay s round.valid_auto id b (valid_auto-Paired env s) e))
