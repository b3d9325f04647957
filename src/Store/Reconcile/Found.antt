-- ===== src/Store/Reconcile/Found.antt =====
-- `ReconcileAutoBindings` of internal/store/store.go and the pairs of current memberships and
-- inventory.
use wireguard_natter_helper.Prelude.{
  Bool-cases, Option-cases, String, ◌≡◌, refl, sym, ap, ◌∙◌, subst, ◌⊎◌, inl, inr, Bool, true,
  false, ◌&&◌, ◌||◌, not, List, [], ◌∷◌, arith, ◌==◌, eq_iff, eq_refl,
}
use wireguard_natter_helper.Map.{Map, get?, has, set, delete_if, values}
use wireguard_natter_helper.Map.Lookup.{get?-set, get?-delete_if}
use wireguard_natter_helper.Store.Config.{DomainMember, Binding}
use wireguard_natter_helper.Store.State.{Store, Env}
use wireguard_natter_helper.Store.Ids.{contains_string, auto_binding_id}
use wireguard_natter_helper.Store.Clear.{default_binding_fields}
use wireguard_natter_helper.Store.AutoBinding.{binding_exists}
use wireguard_natter_helper.Store.Reconcile.{
  Round, auto_binding, record_binding, is_stale, pair_all, reconcile_auto_bindings,
}
use wireguard_natter_helper.Store.Reconcile.Frame.{
  remove_stale-state, reconcile_auto_bindings-state,
}
use wireguard_natter_helper.Store.Reconcile.Settled.{record_binding-valid_auto}
use wireguard_natter_helper.Store.Reconcile.Justified.{Pairing}
use wireguard_natter_helper.Store.Reconcile.Complete.{pair_all-reaches}

-- A binding has the domain, ends and key of the first.
abbrev same_ends : Binding → Binding → Bool
same_ends b c =
    c.domain_id == b.domain_id
    && c.server_node_id == b.server_node_id
    && c.server_interface == b.server_interface
    && c.client_node_id == b.client_node_id
    && c.client_interface == b.client_interface
    && c.peer_public_key == b.peer_public_key

-- The test of `bindingExistsLocked` for the ends of a binding
abbrev pub is_bound : Binding → Map Binding → Bool
is_bound b m =
    binding_exists b.domain_id b.server_node_id b.server_interface b.client_node_id
      b.client_interface b.peer_public_key (values m)

is_bound-set :
    (b c : Binding) (k : String) (m : Map Binding)
    → same_ends b c ≡ false
    → is_bound b m ≡ false
    → is_bound b (set k c m) ≡ false
unfolding binding_exists values set
is_bound-set b c k [] other h = rw (binding_exists, other) refl
is_bound-set b c k ((j, d) ∷ m) other h = ground (arith, is_bound-set b c k m)

Pairing-id :
    (s : Store) (b : Binding)
    → Pairing s b
    → b.id
      ≡ auto_binding_id b.domain_id b.server_node_id b.server_interface b.client_node_id
          b.client_interface
Pairing-id s b p =
    subst
      (λ (c : Binding).
        c.id
        ≡ auto_binding_id c.domain_id c.server_node_id c.server_interface c.client_node_id
            c.client_interface)
      (sym p.made) (unfold default_binding_fields auto_binding in refl)

Pairing-domain : (s : Store) (b : Binding) (p : Pairing s b) → b.domain_id ≡ p.domain_id
Pairing-domain s b p =
    ap (λ (c : Binding). c.domain_id) p.made ∙ unfold default_binding_fields auto_binding in refl

same_ends-id :
    (s : Store) (b c : Binding) → Pairing s b → Pairing s c → same_ends b c ≡ true → c.id ≡ b.id
same_ends-id s b c p q e = ground (
  arith,
  Pairing-id s b p,
  Pairing-id s c q,
  eq_iff c.domain_id b.domain_id,
  eq_iff c.server_node_id b.server_node_id,
  eq_iff c.server_interface b.server_interface,
  eq_iff c.client_node_id b.client_node_id,
  eq_iff c.client_interface b.client_interface,
)

-- What recording does to the bindings
record_binding-bindings :
    (env : Env) (domain_id : String) (c : Binding) (r : Round)
    → ((record_binding env domain_id c r).store.state.bindings ≡ r.store.state.bindings)
      ⊎ ((record_binding env domain_id c r).store.state.bindings
          ≡ set c.id c r.store.state.bindings)
unfolding record_binding
record_binding-bindings env domain_id c r = ground arith

module _ (env : Env) (s : Store) (b : Binding) (p : Pairing s b) where
  -- The binding is there, or no other one is in its place.
  abbrev IsOpen : Round → Type 0
  IsOpen r = (has b.id r.store.state.bindings || not (is_bound b r.store.state.bindings)) ≡ true

  abbrev IsFound : Round → Type 0
  IsFound r = (has b.id r.store.state.bindings ≡ true) × (contains_string r.valid_auto b.id ≡ true)

  set-IsOpen :
      (c : Binding) (m : Map Binding)
      → Pairing s c
      → (has b.id m || not (is_bound b m)) ≡ true
      → (has b.id (set c.id c m) || not (is_bound b (set c.id c m))) ≡ true
  set-IsOpen c m q h = elim (Bool-cases (same_ends b c)) [
    | inl e ↦ ground (arith, same_ends-id s b c p q e, get?-set c.id b.id c m, eq_refl b.id)
    | inr e ↦ ground (arith, is_bound-set b c c.id m e, get?-set c.id b.id c m)
  ]

  keep-IsOpen :
      (domain_id : String) (c : Binding) (r : Round)
      → Pairing s c
      → IsOpen r
      → IsOpen (record_binding env domain_id c r)
  keep-IsOpen domain_id c r q h = elim (record_binding-bindings env domain_id c r) [
    | inl e ↦ rw e h
    | inr e ↦ rw e (set-IsOpen c r.store.state.bindings q h)
  ]

  keep-IsFound :
      (domain_id : String) (c : Binding) (r : Round)
      → Pairing s c
      → IsFound r
      → IsFound (record_binding env domain_id c r)
  unfolding contains_string
  keep-IsFound domain_id c r q (there, valid) =
      let still : contains_string (record_binding env domain_id c r).valid_auto b.id ≡ true =
        rw (record_binding-valid_auto env domain_id c r) (ground arith) in
      elim (record_binding-bindings env domain_id c r) [
        | inl e ↦ (rw e there, still)
        | inr e ↦ (ground (arith, e, get?-set c.id b.id c r.store.state.bindings), still)
      ]

  hit-IsFound : (r : Round) → IsOpen r → IsFound (record_binding env p.domain_id b r)
  unfolding record_binding contains_string
  hit-IsFound r h =
      ground
        (arith, Pairing-domain s b p, get?-set b.id b.id b r.store.state.bindings, eq_refl b.id)

  pair_all-IsFound :
      (has b.id s.state.bindings || not (is_bound b s.state.bindings)) ≡ true
      → IsFound (pair_all env s)
  pair_all-IsFound h =
      pair_all-reaches env s IsOpen IsFound keep-IsOpen keep-IsFound b p hit-IsFound h

-- A binding that was found is not stale.
kept-found :
    (valid_auto : List String) (id : String) (m : Map Binding) (members : Map DomainMember)
    → contains_string valid_auto id ≡ true
    → has id m ≡ true
    → has id (delete_if (is_stale valid_auto members) m) ≡ true
unfolding is_stale
kept-found valid_auto id m members valid there = elim (Option-cases (get? id m)) [
  | inl e ↦ ground arith
  | inr (c, e) ↦
      let fresh : is_stale valid_auto members id c ≡ false = ground arith in
      rw (get?-delete_if (is_stale valid_auto members) id c m fresh e) refl
]

-- Every pair of current memberships and inventory has, after a reconciliation, a binding under
-- the identifier that is generated for it, provided that before there was one under that
-- identifier or none with the same domain, ends and key.
pub reconcile-finds :
    (env : Env) (s : Store) (b : Binding)
    → Pairing s b
    → (has b.id s.state.bindings || not (is_bound b s.state.bindings)) ≡ true
    → has b.id (reconcile_auto_bindings env s).0.state.bindings ≡ true
reconcile-finds env s b p h =
    let round = pair_all env s in
    let (there, valid) = pair_all-IsFound env s b p h in
    rw (reconcile_auto_bindings-state env s, remove_stale-state env round.valid_auto round.store)
      (kept-found round.valid_auto b.id round.store.state.bindings round.store.state.domain_members
        valid there)
