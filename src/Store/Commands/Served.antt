-- ===== src/Store/Commands/Served.antt =====
-- `SaveEndpointLease` of internal/store/store.go and the bindings of the server's interface.
use wireguard_natter_helper.Prelude.{
  if◌then◌else◌, ok, String, ◌≡◌, refl, ap, Bool, true, none, some, List, [], ◌∷◌, arith, eq_refl,
}
use wireguard_natter_helper.Map.{Map, get?, set}
use wireguard_natter_helper.Map.Lookup.{get?-set}
use wireguard_natter_helper.Map.Entries.{Every, Every-get?}
use wireguard_natter_helper.Store.Config.{Binding}
use wireguard_natter_helper.Store.Runtime.{EndpointLease, BindingEndpoint}
use wireguard_natter_helper.Store.State.{RuntimeData, Store, Env}
use wireguard_natter_helper.Store.Clear.{binding_with_endpoint}
use wireguard_natter_helper.Store.Commands.{is_served_by, serve_bindings, save_endpoint_lease}

-- The bindings that pass a test, each with an endpoint.
unfoldable pub served_bindings : BindingEndpoint → (Binding → Bool) → Map Binding → List Binding
served_bindings endpoint served [] = []
served_bindings endpoint served ((id, b) ∷ m) =
    let rest = served_bindings endpoint served m in
    if served b
    then record b { endpoint_host = endpoint.host; endpoint_port = endpoint.port } ∷ rest
    else rest

module _ (endpoint : BindingEndpoint) (served : Binding → Bool) where
  -- An endpoint once written stays: the loop writes the same one everywhere.
  stays :
      (m : Map Binding) (r : RuntimeData) (k : String)
      → get? k r.binding_endpoint ≡ some endpoint
      → get? k (serve_bindings endpoint served m r).0.binding_endpoint ≡ some endpoint
  unfolding serve_bindings
  stays [] r k h = h
  stays ((id, b) ∷ m) r k h =
      let r1 : RuntimeData =
        if served b
        then record r { binding_endpoint = set id endpoint r.binding_endpoint }
        else r in
      stays m r1 k (ground (arith, get?-set id k endpoint r.binding_endpoint))

  pub serve_bindings-endpoints :
      (m : Map Binding) (r : RuntimeData)
      → Every
          (λ k b.
            served b ≡ true
            → get? k (serve_bindings endpoint served m r).0.binding_endpoint ≡ some endpoint)
          m
  unfolding serve_bindings
  serve_bindings-endpoints [] r = tt
  serve_bindings-endpoints ((id, b) ∷ m) r =
      let r1 : RuntimeData =
        if served b
        then record r { binding_endpoint = set id endpoint r.binding_endpoint }
        else r in
      (
        λ e. stays m r1 id (ground (arith, get?-set id id endpoint r.binding_endpoint, eq_refl id)),
        serve_bindings-endpoints m r1,
      )

  pub serve_bindings-matched :
      (m : Map Binding) (r : RuntimeData)
      → (serve_bindings endpoint served m r).1 ≡ served_bindings endpoint served m
  unfolding serve_bindings served_bindings binding_with_endpoint
  serve_bindings-matched [] r = refl
  serve_bindings-matched ((id, b) ∷ m) r =
      let r1 : RuntimeData =
        if served b
        then record r { binding_endpoint = set id endpoint r.binding_endpoint }
        else r in
      ground
        (arith, serve_bindings-matched m r1, get?-set id id endpoint r.binding_endpoint, eq_refl id)

  -- The queues stay as they are.
  pub serve_bindings-commands :
      (m : Map Binding) (r : RuntimeData)
      → (serve_bindings endpoint served m r).0.commands ≡ r.commands
  unfolding serve_bindings
  serve_bindings-commands [] r = refl
  serve_bindings-commands ((id, b) ∷ m) r =
      let r1 : RuntimeData =
        if served b
        then record r { binding_endpoint = set id endpoint r.binding_endpoint }
        else r in
      ground (arith, serve_bindings-commands m r1)

-- The endpoint of a lease that the store keeps now
abbrev pub endpoint_of : Env → EndpointLease → BindingEndpoint
endpoint_of env lease = record {
  host = lease.public_ip;
  port = lease.public_port;
  updated_at = env.now;
}

pub save_endpoint_lease-commands :
    (env : Env) (node_id : String) (lease : EndpointLease) (s : Store)
    → (save_endpoint_lease env node_id lease s).0.runtime.commands ≡ s.runtime.commands
unfolding save_endpoint_lease
save_endpoint_lease-commands env node_id lease s =
    serve_bindings-commands (endpoint_of env lease) (is_served_by node_id lease.server_interface)
      s.state.bindings _

pub save_endpoint_lease-matched :
    (env : Env) (node_id : String) (lease : EndpointLease) (s : Store)
    → env.runtime_fault ≡ none
    → (save_endpoint_lease env node_id lease s).1
      ≡ ok (
          served_bindings
            (endpoint_of env lease)
            (is_served_by node_id lease.server_interface)
            s.state.bindings)
unfolding save_endpoint_lease
save_endpoint_lease-matched env node_id lease s saved = rw saved (
    ap ok (
      serve_bindings-matched (endpoint_of env lease) (is_served_by node_id lease.server_interface)
        s.state.bindings _))

-- Saving an endpoint lease gives every enabled binding to that interface of the node the lease's
-- public address and port.
pub save_endpoint_lease-endpoints :
    (env : Env) (node_id : String) (lease : EndpointLease) (s : Store) (id : String) (b : Binding)
    → get? id s.state.bindings ≡ some b
    → is_served_by node_id lease.server_interface b ≡ true
    → get? id (save_endpoint_lease env node_id lease s).0.runtime.binding_endpoint
      ≡ some (endpoint_of env lease)
unfolding save_endpoint_lease
save_endpoint_lease-endpoints env node_id lease s id b there served =
    Every-get? _ id b s.state.bindings
      (serve_bindings-endpoints (endpoint_of env lease)
        (is_served_by node_id lease.server_interface) s.state.bindings _)
      there served
