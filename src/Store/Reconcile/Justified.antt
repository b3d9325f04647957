-- ===== src/Store/Reconcile/Justified.antt =====
-- The pairs that `ReconcileAutoBindings` of internal/store/store.go looks for, and the members
-- and interfaces that its loops run over.
use wireguard_natter_helper.Prelude.{
  refl, inr, ◌∷◌, [], All-append, inl, for_each_inv, Bool-cases, All, keep_if-All, All-map, All-mem,
  for_each, String, ◌≡◌, true, false, ◌&&◌, ◌||◌, List, Memᴰ, ◌==◌,
}
use wireguard_natter_helper.Map.{get_or, Map, values}
use wireguard_natter_helper.Map.Entries.{get_or-Every, Every-set, Every}
use wireguard_natter_helper.Store.Config.{DomainMember, Binding}
use wireguard_natter_helper.Store.Runtime.{WgInterface}
use wireguard_natter_helper.Store.State.{Store}
use wireguard_natter_helper.Store.Ids.{contains_string}
use wireguard_natter_helper.Store.Clear.{default_binding_fields}
use wireguard_natter_helper.Store.AutoBinding.{interfaces_for_node}
use wireguard_natter_helper.Store.Reconcile.{is_candidate, add_candidate, auto_binding}

-- A member that the loops look at
pub record IsCandidate (s : Store) (domain_id : String) (m : DomainMember) : Type 0 where
  pub listed : Memᴰ m (values s.state.domain_members)
  pub candidate : is_candidate s.state.nodes m ≡ true
  pub domain : m.domain_id ≡ domain_id

-- An interface that the node has reported, and that its membership names if it names one
pub record Reported (s : Store) (m : DomainMember) (i : WgInterface) : Type 0 where
  pub listed : Memᴰ i (values s.runtime.wg_interfaces)
  pub matches : (i.node_id == m.node_id && (m.interface == "" || i.name == m.interface)) ≡ true

-- A server and another node as client, members of one domain, such that an interface of the client
-- has the public key of an interface of the server among its peers.
pub record Pairing (s : Store) (b : Binding) : Type 0 where
  pub domain_id : String
  pub server : DomainMember
  pub client : DomainMember
  pub server_iface : WgInterface
  pub client_iface : WgInterface
  pub server_in : IsCandidate s domain_id server
  pub client_in : IsCandidate s domain_id client
  pub server_role : (server.role == "server") ≡ true
  pub client_role : (client.role == "client") ≡ true
  pub other_node : (client.node_id == server.node_id) ≡ false
  pub server_reported : Reported s server server_iface
  pub client_reported : Reported s client client_iface
  pub has_key : (server_iface.public_key == "") ≡ false
  pub is_peer : contains_string client_iface.peers server_iface.public_key ≡ true
  pub made :
      b ≡ default_binding_fields (auto_binding domain_id server client server_iface client_iface)

module _ (s : Store) where
  add_one :
      (m : DomainMember) (groups : Map (List DomainMember))
      → Memᴰ m (values s.state.domain_members)
      → Every (λ d ms. All (IsCandidate s d) ms) groups
      → Every (λ d ms. All (IsCandidate s d) ms) (add_candidate s.state.nodes m groups)
  unfolding add_candidate
  add_one m groups listed h = elim (Bool-cases (is_candidate s.state.nodes m)) [
    | inl e ↦
        rw (add_candidate, e)
          (Every-set _ _ _ groups h (
            All-append _ (get_or m.domain_id [] groups) (m ∷ [])
              (get_or-Every (λ d ms. All (IsCandidate s d) ms) m.domain_id [] groups h tt)
              (record { listed = listed; candidate = e; domain = refl }, tt)))
    | inr e ↦ rw (add_candidate, e) h
  ]

  pub candidates-Every :
      (members : List DomainMember) (groups : Map (List DomainMember))
      → All (λ m. Memᴰ m (values s.state.domain_members)) members
      → Every (λ d ms. All (IsCandidate s d) ms) groups
      → Every
          (λ d ms. All (IsCandidate s d) ms)
          (for_each (add_candidate s.state.nodes) members groups)
  candidates-Every members groups listed h =
      for_each_inv (λ m. Memᴰ m (values s.state.domain_members))
        (Every (λ d ms. All (IsCandidate s d) ms)) (add_candidate s.state.nodes) add_one members
        groups listed h

  pub Reported-All :
      (m : DomainMember)
      → All (Reported s m) (interfaces_for_node s.runtime.wg_interfaces m.node_id m.interface)
  unfolding interfaces_for_node
  Reported-All m =
      All-map _ _ _
        (keep_if-All _ _ (values s.runtime.wg_interfaces)
          (All-mem (values s.runtime.wg_interfaces)))
        (λ i h. record { listed = h.0; matches = h.1 })
