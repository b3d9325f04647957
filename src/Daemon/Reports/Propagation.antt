-- ===== src/Daemon/Reports/Propagation.antt =====
-- The case "natter.result" of `agentReport` of internal/daemon/daemon.go, as seen by the
-- clients.
use mathlib.Core.List.{append-nil, append_assoc}
use wireguard_natter_helper.Prelude.{
  if◌then◌else◌, length, ok, ℕ, ◌+◌, String, ◌≡◌, refl, sym, ◌∙◌, none, List, [], ◌∷◌, ◌++◌, arith,
  ◌==◌,
}
use wireguard_natter_helper.Json.{Fields}
use wireguard_natter_helper.Protocol.{Command}
use wireguard_natter_helper.Rpc.{success}
use wireguard_natter_helper.Store.Config.{Binding}
use wireguard_natter_helper.Store.Runtime.{EndpointLease}
use wireguard_natter_helper.Store.State.{Store, Env}
use wireguard_natter_helper.Store.Commands.{queue_command, is_served_by, save_endpoint_lease}
use wireguard_natter_helper.Store.Commands.Queue.{pending, queue_command-pending}
use wireguard_natter_helper.Store.Commands.Served.{
  served_bindings, endpoint_of, save_endpoint_lease-commands, save_endpoint_lease-matched,
}
use wireguard_natter_helper.Daemon.Server.{Server}
use wireguard_natter_helper.Daemon.Inventory.{lease_from_payload}
use wireguard_natter_helper.Daemon.Reports.{apply_command, queue_applies, natter_result}

-- The commands for a client among those for all bindings
unfoldable pub applies_for : Env → EndpointLease → String → ℕ → List Binding → List Command
applies_for env lease client k [] = []
applies_for env lease client k (b ∷ bs) =
    let rest = applies_for env lease client (k + 1) bs in
    if b.client_node_id == client then apply_command env lease k b ∷ rest else rest

module _ (env : Env) (lease : EndpointLease) (client : String)
    (saved : env.runtime_fault ≡ none) where
  queue_applies-ok :
      (k : ℕ) (bs : List Binding) (s : Store) → (queue_applies env lease k bs s).1 ≡ none
  unfolding queue_applies queue_command
  queue_applies-ok k [] s = refl
  queue_applies-ok k (b ∷ bs) s =
      rw (queue_applies, saved)
        (queue_applies-ok (k + 1) bs
          (queue_command env b.client_node_id (apply_command env lease k b) s).0)

  queue_applies-pending :
      (k : ℕ) (bs : List Binding) (s : Store)
      → pending client (queue_applies env lease k bs s).0.runtime.commands
        ≡ pending client s.runtime.commands ++ applies_for env lease client k bs
  unfolding queue_applies applies_for apply_command queue_command pending
  queue_applies-pending k [] s = sym (append-nil (pending client s.runtime.commands))
  queue_applies-pending k (b ∷ bs) s =
      let cmd = apply_command env lease k b in
      let s1 = (queue_command env b.client_node_id cmd s).0 in
      let q = queue_command-pending env b.client_node_id client cmd s in
      let rest = queue_applies-pending (k + 1) bs s1 in
      let tail = applies_for env lease client (k + 1) bs in
      rw (queue_applies, saved)
        (rest ∙ ground (arith, q, append_assoc (pending client s.runtime.commands) (cmd ∷ []) tail))

-- An accepted endpoint, where saving succeeds, queues for each client exactly one endpoint.apply
-- command for each of its enabled bindings to that server's interface, in order and behind what
-- waited there, and the answer counts all bindings served.
pub natter_result-propagates :
    (env : Env) (node_id client : String) (payload : Fields) (lease : EndpointLease) (srv : Server)
    → lease_from_payload payload ≡ ok lease
    → env.runtime_fault ≡ none
    → let served =
        served_bindings
          (endpoint_of env lease)
          (is_served_by node_id lease.server_interface)
          srv.store.state.bindings in
      ((natter_result env node_id payload srv).1 ≡ record success { queued = length served })
      × (pending client (natter_result env node_id payload srv).0.store.runtime.commands
          ≡ pending client srv.store.runtime.commands ++ applies_for env lease client 0 served)
unfolding natter_result
natter_result-propagates env node_id client payload lease srv e saved =
    let served =
      served_bindings (endpoint_of env lease) (is_served_by node_id lease.server_interface)
        srv.store.state.bindings in
    let s1 = (save_endpoint_lease env node_id lease srv.store).0 in
    let same = save_endpoint_lease-commands env node_id lease srv.store in
    ground (
      arith,
      same,
      save_endpoint_lease-matched env node_id lease srv.store saved,
      queue_applies-ok env lease client saved 0 served s1,
      queue_applies-pending env lease client saved 0 served s1,
    )
