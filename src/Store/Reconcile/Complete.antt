-- ===== src/Store/Reconcile/Complete.antt =====
-- A rule for the loops of `ReconcileAutoBindings` of internal/store/store.go: from the innermost
-- body for one pair to the whole round.
use wireguard_natter_helper.Store.Reconcile.Loops
use wireguard_natter_helper.Prelude.{All, All-mem, String, subst, List, [], Memᴰ}
use wireguard_natter_helper.Map.{get_or, values}
use wireguard_natter_helper.Map.Entries.{Every, get_or-Every, Every-All}
use wireguard_natter_helper.Store.Config.{DomainMember, Binding}
use wireguard_natter_helper.Store.State.{Store, Env}
use wireguard_natter_helper.Store.AutoBinding.{interfaces_for_node}
use wireguard_natter_helper.Store.Reconcile.{
  Round, members_by_domain, record_binding, pair_interface, pair_server_interface, pair_client,
  pair_server, pair_domain, pair_all,
}
use wireguard_natter_helper.Store.Reconcile.Justified.{
  IsCandidate, Reported, Pairing, candidates-Every, Reported-All,
}
use wireguard_natter_helper.Store.Reconcile.Reach.{
  for_each-reaches, Mem-keep_if, grouped, group-Mem,
}

module _ {ℓ κ} (env : Env) (s : Store) (P : Round → Type ℓ) (Q : Round → Type κ)
    (step_p : (domain_id : String) (c : Binding) (r : Round)
      → Pairing s c
      → P r
      → P (record_binding env domain_id c r))
    (step_q : (domain_id : String) (c : Binding) (r : Round)
      → Pairing s c
      → Q r
      → Q (record_binding env domain_id c r))
    (b : Binding) (p : Pairing s b)
    (hit : (r : Round) → P r → Q (record_binding env p.domain_id b r)) where
  at_interface :
      (r : Round)
      → P r
      → Q (
          pair_interface env s.runtime.wg_interfaces p.domain_id p.server p.client p.server_iface
            p.client_iface r)
  unfolding pair_interface
  at_interface r h =
      rw (pair_interface, p.is_peer)
        (subst (λ c. Q (record_binding env p.domain_id c r)) p.made (hit r h))

  at_server_interface :
      (r : Round)
      → P r
      → Q (
          pair_server_interface env s.runtime.wg_interfaces p.domain_id p.server p.client
            p.server_iface r)
  unfolding pair_server_interface interfaces_for_node
  at_server_interface r h =
      rw (pair_server_interface, p.has_key)
        (for_each-reaches (Reported s p.client) P Q _
          (λ ci q.
            Loops.pair_interface-inv env s P step_p p.domain_id p.server p.client p.server_in
              p.client_in p.server_role p.client_role p.other_node p.server_iface ci
              p.server_reported p.has_key q)
          (λ ci q.
            Loops.pair_interface-inv env s Q step_q p.domain_id p.server p.client p.server_in
              p.client_in p.server_role p.client_role p.other_node p.server_iface ci
              p.server_reported p.has_key q)
          p.client_iface at_interface _ r (Reported-All s p.client)
          (Mem-keep_if _ p.client_iface _ p.client_reported.matches p.client_reported.listed) h)

  at_client :
      (r : Round)
      → P r
      → Q (pair_client env s.runtime.wg_interfaces p.domain_id p.server p.client r)
  unfolding pair_client interfaces_for_node
  at_client r h =
      rw (pair_client, p.other_node, p.client_role)
        (for_each-reaches (Reported s p.server) P Q _
          (Loops.pair_server_interface-inv env s P step_p p.domain_id p.server p.client p.server_in
            p.client_in p.server_role p.client_role p.other_node)
          (Loops.pair_server_interface-inv env s Q step_q p.domain_id p.server p.client p.server_in
            p.client_in p.server_role p.client_role p.other_node)
          p.server_iface at_server_interface _ r (Reported-All s p.server)
          (Mem-keep_if _ p.server_iface _ p.server_reported.matches p.server_reported.listed) h)

  module _ (members : List DomainMember) (candidates : All (IsCandidate s p.domain_id) members)
      (server_there : Memᴰ p.server members) (client_there : Memᴰ p.client members) where
    at_server :
        (r : Round)
        → P r
        → Q (pair_server env s.runtime.wg_interfaces p.domain_id members p.server r)
    unfolding pair_server
    at_server r h =
        rw (pair_server, p.server_role)
          (for_each-reaches (IsCandidate s p.domain_id) P Q _
            (Loops.pair_client-inv env s P step_p p.domain_id members candidates p.server
              p.server_in p.server_role)
            (Loops.pair_client-inv env s Q step_q p.domain_id members candidates p.server
              p.server_in p.server_role)
            p.client at_client members r candidates client_there h)

    at_domain :
        (r : Round) → P r → Q (pair_domain env s.runtime.wg_interfaces (p.domain_id, members) r)
    unfolding pair_domain
    at_domain r h =
        for_each-reaches (IsCandidate s p.domain_id) P Q _
          (Loops.pair_server-inv env s P step_p p.domain_id members candidates)
          (Loops.pair_server-inv env s Q step_q p.domain_id members candidates) p.server at_server
          members r candidates server_there h

  pub pair_all-reaches :
      P (record { store = s; created = []; updated = 0; valid_auto = [] }) → Q (pair_all env s)
  unfolding pair_all members_by_domain
  pair_all-reaches h =
      let listed = values s.state.domain_members in
      let groups = members_by_domain s.state.nodes listed in
      let members = get_or p.domain_id [] groups in
      let sorted : Every (λ d ms. All (IsCandidate s d) ms) groups =
        candidates-Every s listed [] (All-mem listed) tt in
      let candidates : All (IsCandidate s p.domain_id) members =
        get_or-Every (λ d ms. All (IsCandidate s d) ms) p.domain_id [] groups sorted tt in
      let server_there : Memᴰ p.server members =
        subst (λ d. Memᴰ p.server (get_or d [] groups)) p.server_in.domain
          (grouped s.state.nodes listed p.server p.server_in.listed p.server_in.candidate) in
      let client_there : Memᴰ p.client members =
        subst (λ d. Memᴰ p.client (get_or d [] groups)) p.client_in.domain
          (grouped s.state.nodes listed p.client p.client_in.listed p.client_in.candidate) in
      for_each-reaches (λ (g : String × List DomainMember). All (IsCandidate s g.0) g.1) P Q _
        (Loops.pair_domain-inv env s P step_p) (Loops.pair_domain-inv env s Q step_q)
        (p.domain_id, members) (at_domain members candidates server_there client_there) groups _
        (Every-All _ _ sorted) (group-Mem p.domain_id p.server groups server_there) h
