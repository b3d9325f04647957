-- ===== src/Store/Reconcile/Loops.antt =====
-- An invariant rule for the five nested loops of `ReconcileAutoBindings` of
-- internal/store/store.go.
use wireguard_natter_helper.Prelude.{
  Bool-cases, All, All-mem, for_each_inv, String, ◌≡◌, refl, inl, inr, true, false, ◌||◌, not, List,
  [], arith, ◌==◌,
}
use wireguard_natter_helper.Map.{Map, values}
use wireguard_natter_helper.Map.Entries.{Every-All}
use wireguard_natter_helper.Store.Config.{DomainMember, Binding}
use wireguard_natter_helper.Store.Runtime.{WgInterface}
use wireguard_natter_helper.Store.State.{Store, Env}
use wireguard_natter_helper.Store.Ids.{contains_string}
use wireguard_natter_helper.Store.Reconcile.{
  Round, members_by_domain, record_binding, pair_interface, pair_server_interface, pair_client,
  pair_server, pair_domain, pair_all,
}
use wireguard_natter_helper.Store.Reconcile.Justified.{
  candidates-Every, Reported-All, IsCandidate, Reported, Pairing,
}

module _ {ℓ} (env : Env) (s : Store) (P : Round → Type ℓ)
    (step : (domain_id : String) (b : Binding) (r : Round)
      → Pairing s b
      → P r
      → P (record_binding env domain_id b r)) where
  abbrev pub known_interfaces : Map WgInterface
  known_interfaces = s.runtime.wg_interfaces

  module _ (domain_id : String) (server client : DomainMember)
      (server_in : IsCandidate s domain_id server) (client_in : IsCandidate s domain_id client)
      (server_role : (server.role == "server") ≡ true)
      (client_role : (client.role == "client") ≡ true)
      (other_node : (client.node_id == server.node_id) ≡ false) where
    pub pair_interface-inv :
        (server_iface client_iface : WgInterface)
        → Reported s server server_iface
        → (server_iface.public_key == "") ≡ false
        → (r : Round) → Reported s client client_iface
        → P r
        → P (
            pair_interface env known_interfaces domain_id server client server_iface client_iface r)
    unfolding pair_interface
    pair_interface-inv si ci server_reported has_key r client_reported h =
        elim (Bool-cases (contains_string ci.peers si.public_key)) [
          | inl e ↦
              rw (pair_interface, e)
                (step domain_id _ r
                  (record {
                    domain_id = domain_id;
                    server = server;
                    client = client;
                    server_iface = si;
                    client_iface = ci;
                    server_in = server_in;
                    client_in = client_in;
                    server_role = server_role;
                    client_role = client_role;
                    other_node = other_node;
                    server_reported = server_reported;
                    client_reported = client_reported;
                    has_key = has_key;
                    is_peer = e;
                    made = refl;
                  })
                  h)
          | inr e ↦ rw (pair_interface, e) h
        ]

    pub pair_server_interface-inv :
        (server_iface : WgInterface) (r : Round)
        → Reported s server server_iface
        → P r
        → P (pair_server_interface env known_interfaces domain_id server client server_iface r)
    unfolding pair_server_interface
    pair_server_interface-inv si r reported h = elim (Bool-cases (si.public_key == "")) [
      | inl e ↦ rw (pair_server_interface, e) h
      | inr e ↦
          rw (pair_server_interface, e)
            (for_each_inv (Reported s client) P _ (λ ci q. pair_interface-inv si ci reported e q) _
              r (Reported-All s client) h)
    ]

  module _ (domain_id : String) (members : List DomainMember)
      (candidates : All (IsCandidate s domain_id) members) where
    pub pair_client-inv :
        (server : DomainMember)
        → IsCandidate s domain_id server
        → (server.role == "server") ≡ true
        → (client : DomainMember) (r : Round) → IsCandidate s domain_id client
        → P r
        → P (pair_client env known_interfaces domain_id server client r)
    unfolding pair_client
    pair_client-inv server server_in role client r client_in h =
        elim (Bool-cases (client.node_id == server.node_id || not (client.role == "client"))) [
          | inl e ↦ rw (pair_client, e) h
          | inr e ↦
              rw (pair_client, e)
                (for_each_inv (Reported s server) P _
                  (pair_server_interface-inv domain_id server client server_in client_in role
                    (ground arith) (ground arith))
                  _ r (Reported-All s server) h)
        ]

    pub pair_server-inv :
        (server : DomainMember) (r : Round)
        → IsCandidate s domain_id server
        → P r
        → P (pair_server env known_interfaces domain_id members server r)
    unfolding pair_server
    pair_server-inv server r server_in h = elim (Bool-cases (server.role == "server")) [
      | inl e ↦
          rw (pair_server, e)
            (for_each_inv (IsCandidate s domain_id) P _ (pair_client-inv server server_in e) members
              r candidates h)
      | inr e ↦ rw (pair_server, e) h
    ]

  pub pair_domain-inv :
      (group : String × List DomainMember) (r : Round)
      → All (IsCandidate s group.0) group.1
      → P r
      → P (pair_domain env known_interfaces group r)
  unfolding pair_domain
  pair_domain-inv (domain_id, members) r candidates h =
      for_each_inv (IsCandidate s domain_id) P _ (pair_server-inv domain_id members candidates)
        members r candidates h

  pub pair_all-inv :
      P (record { store = s; created = []; updated = 0; valid_auto = [] }) → P (pair_all env s)
  unfolding pair_all members_by_domain
  pair_all-inv h =
      for_each_inv (λ (g : String × List DomainMember). All (IsCandidate s g.0) g.1) P _
        pair_domain-inv _ _
        (Every-All _ _ (
          candidates-Every s (values s.state.domain_members) []
            (All-mem (values s.state.domain_members)) tt))
        h
