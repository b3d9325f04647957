-- ===== src/Store/Open/RoundTrip.antt =====
-- `Open` of internal/store/store.go on the files that the store's saves write.
use wireguard_natter_helper.Prelude.{
  if◌then◌else◌, for_each, ok, String, ◌≡◌, refl, sym, ap, ◌∙◌, false, none, [], ◌∷◌, arith,
}
use wireguard_natter_helper.Map.{Map, update_all, values}
use wireguard_natter_helper.Map.Entries.{Every, Every-map}
use wireguard_natter_helper.Store.Config.{Node, DomainMember, Binding}
use wireguard_natter_helper.Store.Runtime.{NodeRuntime, BindingEndpoint}
use wireguard_natter_helper.Store.State.{Data, holds, Store, Env}
use wireguard_natter_helper.Store.Clear.{
  clear_node_transient_fields, clear_binding_endpoint, clear_deprecated,
}
use wireguard_natter_helper.Store.Save.{saved_data, write_both, save, load_runtime, IsPersisted}
use wireguard_natter_helper.Store.Domains.{nodes}
use wireguard_natter_helper.Store.Open.{
  migrate_member, migrate_runtime, has_endpoint, migrate_endpoint, copy_entries, append_events,
  migrated, ensure_maps, open_with, open_store,
}
use wireguard_natter_helper.Store.Sound.{IsSound}

-- No field that is only read for migration is in use.
pub record IsCurrent (d : Data) : Type 0 where
  pub wg_interfaces : d.wg_interfaces ≡ []
  pub endpoint_leases : d.endpoint_leases ≡ []
  pub commands : d.commands ≡ []
  pub events : d.events ≡ []

update_all-same {ℓ} :
    {V : Type ℓ} (f : String → V → V) (m : Map V) → Every (λ k v. f k v ≡ v) m → update_all f m ≡ m
unfolding update_all
update_all-same f [] h = refl
update_all-same f ((k, v) ∷ m) (e, h) = ground (arith, e, update_all-same f m h)

pub saved_data-same : (d : Data) → IsSound d → IsCurrent d → saved_data d ≡ d
unfolding saved_data clear_deprecated
saved_data-same d h c =
    let nodes = update_all-same (λ _ n. clear_node_transient_fields n) d.nodes h.nodes_clear in
    let bindings = update_all-same (λ _ b. clear_binding_endpoint b) d.bindings h.bindings_clear in
    ground (arith, nodes, bindings, c.wg_interfaces, c.endpoint_leases, c.commands, c.events)

-- Migration finds nothing to move in what is clear.
migrate_member-clear :
    (n : Node) (members : Map DomainMember)
    → clear_node_transient_fields n ≡ n
    → migrate_member n members ≡ members
unfolding migrate_member clear_node_transient_fields
migrate_member-clear n members e =
    let blank : n.domain_id ≡ "" = sym (ap (λ (m : Node). m.domain_id) e) in
    rw (migrate_member, blank) refl

migrate_runtime-clear :
    (id : String) (n : Node) (runtimes : Map NodeRuntime)
    → clear_node_transient_fields n ≡ n
    → migrate_runtime (id, n) runtimes ≡ runtimes
unfolding migrate_runtime clear_node_transient_fields
migrate_runtime-clear id n runtimes e =
    let a : n.status ≡ "" = sym (ap (λ (m : Node). m.status) e) in
    let b : n.last_seen_at ≡ "" = sym (ap (λ (m : Node). m.last_seen_at) e) in
    let c : n.platform ≡ "" = sym (ap (λ (m : Node). m.platform) e) in
    let d : n.agent_version ≡ "" = sym (ap (λ (m : Node). m.agent_version) e) in
    rw (migrate_runtime, a, b, c, d) refl

no_endpoint : (b : Binding) → clear_binding_endpoint b ≡ b → has_endpoint b ≡ false
unfolding clear_binding_endpoint
no_endpoint b e =
    let a : b.endpoint_host ≡ "" = sym (ap (λ (c : Binding). c.endpoint_host) e) in
    rw (has_endpoint, a) refl

members-clear :
    (nodes : Map Node) (members : Map DomainMember)
    → Every (λ k n. clear_node_transient_fields n ≡ n) nodes
    → for_each migrate_member (values nodes) members ≡ members
unfolding for_each values
members-clear [] members h = refl
members-clear ((k, n) ∷ nodes) members (e, h) =
    ap (for_each migrate_member (values nodes)) (migrate_member-clear n members e)
    ∙ members-clear nodes members h

runtimes-clear :
    (nodes : Map Node) (runtimes : Map NodeRuntime)
    → Every (λ k n. clear_node_transient_fields n ≡ n) nodes
    → for_each migrate_runtime nodes runtimes ≡ runtimes
unfolding for_each
runtimes-clear [] runtimes h = refl
runtimes-clear ((k, n) ∷ nodes) runtimes (e, h) =
    ap (for_each migrate_runtime nodes) (migrate_runtime-clear k n runtimes e)
    ∙ runtimes-clear nodes runtimes h

endpoints-clear :
    (now : String) (m : Map Binding) (endpoints : Map BindingEndpoint)
    → Every (λ k b. clear_binding_endpoint b ≡ b) m
    → for_each (migrate_endpoint now) m endpoints ≡ endpoints
unfolding for_each migrate_endpoint
endpoints-clear now [] endpoints h = refl
endpoints-clear now ((k, b) ∷ m) endpoints (e, h) =
    ground (arith, no_endpoint b e, endpoints-clear now m endpoints h)

bindings-clear :
    (m : Map Binding)
    → Every (λ k b. clear_binding_endpoint b ≡ b) m
    → update_all (λ _ b. if has_endpoint b then clear_binding_endpoint b else b) m ≡ m
bindings-clear m h =
    update_all-same _ m (Every-map _ _ m h (λ k b e. ground (arith, no_endpoint b e)))

migrated-same :
    (now : String) (s : Store) → IsSound s.state → IsCurrent s.state → migrated now s ≡ s
unfolding migrated copy_entries for_each
migrated-same now s h c = ground (
  arith,
  update_all-same (λ _ n. clear_node_transient_fields n) s.state.nodes h.nodes_clear,
  members-clear s.state.nodes s.state.domain_members h.nodes_clear,
  runtimes-clear s.state.nodes s.runtime.node_runtime h.nodes_clear,
  endpoints-clear now s.state.bindings s.runtime.binding_endpoint h.bindings_clear,
  bindings-clear s.state.bindings h.bindings_clear,
  c.wg_interfaces,
  c.endpoint_leases,
  c.commands,
)

ensure_maps-same :
    (env : Env) (s : Store) → IsSound s.state → IsCurrent s.state → ensure_maps env s ≡ (s, none)
unfolding ensure_maps append_events clear_deprecated
ensure_maps-same env s h c =
    let none_left : append_events env s.state.events (migrated env.now s)
        ≡ (migrated env.now s, none) =
      rw c.events refl in
    ground (
      arith,
      none_left,
      migrated-same env.now s h c,
      c.wg_interfaces,
      c.endpoint_leases,
      c.commands,
      c.events,
    )

-- The store with its files written
abbrev pub written : Store → Store
written s = record {
  state = s.state;
  runtime = s.runtime;
  disk = record { state = holds s.state; runtime = holds s.runtime; events = s.disk.events };
}

pub save-written :
    (env : Env) (s : Store)
    → IsSound s.state
    → IsCurrent s.state
    → env.state_fault ≡ none
    → env.runtime_fault ≡ none
    → save env s ≡ (written s, none)
unfolding save write_both
save-written env s h c state_saved runtime_saved = ground (arith, saved_data-same s.state h c)

open_store-written :
    (env : Env) (s : Store)
    → IsSound s.state
    → IsCurrent s.state
    → env.state_fault ≡ none
    → env.runtime_fault ≡ none
    → open_store env (written s).disk ≡ ok (written s)
unfolding open_store open_with load_runtime
open_store-written env s h c state_saved runtime_saved = ground (
  arith,
  ensure_maps-same env (written s) h c,
  save-written env (written s) h c state_saved runtime_saved,
)

-- Opening files that hold what a store holds gives back that store, for a sound configuration
-- without deprecated fields and where no save fails.
pub open_store-IsPersisted :
    (env : Env) (s : Store)
    → IsPersisted s
    → IsSound s.state
    → IsCurrent s.state
    → env.state_fault ≡ none
    → env.runtime_fault ≡ none
    → open_store env s.disk ≡ ok s
open_store-IsPersisted env s p h c state_saved runtime_saved =
    let same : written s ≡ s = ground (arith, p.state, p.runtime, saved_data-same s.state h c) in
    ap (λ (t : Store). open_store env t.disk) (sym same)
    ∙ open_store-written env s h c state_saved runtime_saved
    ∙ ap ok same
