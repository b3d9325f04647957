-- ===== src/Store/Steps/Restart.antt =====
-- Restarting the daemon of internal/store/store.go between two of the store's steps.
use wireguard_natter_helper.Prelude.{
  ok, String, ◌≡◌, refl, sym, ap, subst, Bool, Option, none, arith,
}
use wireguard_natter_helper.Json.{Fields}
use wireguard_natter_helper.Store.State.{
  new_data, new_runtime_data, missing, holds, Disk, Store, Env,
}
use wireguard_natter_helper.Store.Events.{add_event}
use wireguard_natter_helper.Store.Save.{IsPersisted}
use wireguard_natter_helper.Store.Nodes.{
  create_node, mark_seen, upsert_joined_node, upsert_pending_node,
}
use wireguard_natter_helper.Store.Domains.{create_domain}
use wireguard_natter_helper.Store.Approve.{NodeApproval, save_membership, approve_node}
use wireguard_natter_helper.Store.Remove.{without_node, delete_node, add_binding}
use wireguard_natter_helper.Store.Open.{open_store}
use wireguard_natter_helper.Store.Open.RoundTrip.{
  IsCurrent, saved_data-same, written, save-written, open_store-IsPersisted,
}
use wireguard_natter_helper.Store.Sound.{IsSound}
use wireguard_natter_helper.Store.Reconcile.{record_binding, pair_all, reconcile_auto_bindings}
use wireguard_natter_helper.Store.Reconcile.Frame.{
  remove_stale-state, reconcile_auto_bindings-state,
}
use wireguard_natter_helper.Store.Reconcile.Loops.{pair_all-inv}
use wireguard_natter_helper.Store.Commands.{queue_command, complete_command, save_endpoint_lease}
use wireguard_natter_helper.Store.Steps.{
  Step, register, join, seen, inventory, reconciled, queued, delivered, completed, leased, logged,
  domain_created, approved, deleted, node_created, binding_added,
}
use wireguard_natter_helper.Store.Steps.Soundness.{
  update_wg_interfaces-state, next_command-state, Step-IsSound,
}
use wireguard_natter_helper.Store.Steps.Durable.{env_of, Step-IsPersisted}

module _ (env : Env) (s : Store) (h : IsCurrent s.state) where
  upsert_pending_node-IsCurrent :
      (node_id name token : String) (meta : Option Fields)
      → IsCurrent (upsert_pending_node env node_id name token meta s).0.state
  unfolding upsert_pending_node
  upsert_pending_node-IsCurrent node_id name token meta = ground arith

  upsert_joined_node-IsCurrent :
      (domain_id node_id name token : String) (meta : Option Fields)
      → IsCurrent (upsert_joined_node env domain_id node_id name token meta s).0.state
  unfolding upsert_joined_node
  upsert_joined_node-IsCurrent domain_id node_id name token meta = ground arith

  create_domain-IsCurrent :
      (id name join_code description : String)
      → IsCurrent (create_domain env id name join_code description s).0.state
  unfolding create_domain
  create_domain-IsCurrent id name join_code description = ground arith

  approve_node-IsCurrent :
      (node_id : String) (approval : NodeApproval)
      → IsCurrent (approve_node env node_id approval s).0.state
  unfolding approve_node save_membership
  approve_node-IsCurrent node_id approval = ground arith

  delete_node-IsCurrent : (node_id : String) → IsCurrent (delete_node env node_id s).0.state
  unfolding delete_node without_node
  delete_node-IsCurrent node_id = ground arith

  reconcile_auto_bindings-IsCurrent : IsCurrent (reconcile_auto_bindings env s).0.state
  reconcile_auto_bindings-IsCurrent =
      let round = pair_all env s in
      let current : IsCurrent round.store.state =
        pair_all-inv env s (λ r. IsCurrent r.store.state)
          (λ domain_id b r _ k. unfold record_binding in ground arith) h in
      rw (reconcile_auto_bindings-state env s, remove_stale-state env round.valid_auto round.store)
        (record {
          wg_interfaces = current.wg_interfaces;
          endpoint_leases = current.endpoint_leases;
          commands = current.commands;
          events = current.events;
        })

Step-IsCurrent :
    (admin : Bool) (s t : Store) → Step admin s t → IsCurrent s.state → IsCurrent t.state
unfolding mark_seen queue_command complete_command save_endpoint_lease add_event create_node
    add_binding
Step-IsCurrent admin s _ (register env node_id name token meta) h =
    upsert_pending_node-IsCurrent env s h node_id name token meta
Step-IsCurrent admin s _ (join env domain_id node_id name token meta) h =
    upsert_joined_node-IsCurrent env s h domain_id node_id name token meta
Step-IsCurrent admin s _ (seen env node_id meta) h = h
Step-IsCurrent admin s _ (inventory env node_id interfaces) h =
    rw (update_wg_interfaces-state env node_id interfaces s) h
Step-IsCurrent admin s _ (reconciled env) h = reconcile_auto_bindings-IsCurrent env s h
Step-IsCurrent admin s _ (queued env node_id cmd) h = h
Step-IsCurrent admin s _ (delivered env node_id) h = rw (next_command-state env node_id s) h
Step-IsCurrent admin s _ (completed env node_id command_id result) h = h
Step-IsCurrent admin s _ (leased env node_id lease) h = h
Step-IsCurrent admin s _ (logged env type severity node_id binding_id message payload) h = h
Step-IsCurrent admin s _ (domain_created env id name join_code description _) h =
    create_domain-IsCurrent env s h id name join_code description
Step-IsCurrent admin s _ (approved env node_id approval _) h =
    approve_node-IsCurrent env s h node_id approval
Step-IsCurrent admin s _ (deleted env node_id _) h = delete_node-IsCurrent env s h node_id
Step-IsCurrent admin s _ (node_created env id name token _) h = record {
  wg_interfaces = h.wg_interfaces;
  endpoint_leases = h.endpoint_leases;
  commands = h.commands;
  events = h.events;
}
Step-IsCurrent admin s _ (binding_added env b _) h = record {
  wg_interfaces = h.wg_interfaces;
  endpoint_leases = h.endpoint_leases;
  commands = h.commands;
  events = h.events;
}

-- What a running daemon's store is between two steps
pub record IsRunning (s : Store) : Type 0 where
  pub sound : IsSound s.state
  pub current : IsCurrent s.state
  pub persisted : IsPersisted s

pub Step-IsRunning :
    (admin : Bool) (s t : Store) (step : Step admin s t)
    → (env_of step).state_fault ≡ none
    → (env_of step).runtime_fault ≡ none
    → IsRunning s
    → IsRunning t
Step-IsRunning admin s t step a b h = record {
  sound = Step-IsSound s t step h.sound;
  current = Step-IsCurrent admin s t step h.current;
  persisted = Step-IsPersisted admin s t step a b h.persisted;
}

-- Restarting the daemon right after any call of a store's method gives back the store that the
-- call left, for a running store (sound, without deprecated fields, its files holding what it
-- holds) and where the writes of the call and of the restart succeed.
pub Step-reopens :
    (later : Env) (admin : Bool) (s t : Store) (step : Step admin s t)
    → (env_of step).state_fault ≡ none
    → (env_of step).runtime_fault ≡ none
    → later.state_fault ≡ none
    → later.runtime_fault ≡ none
    → IsRunning s
    → open_store later t.disk ≡ ok t
Step-reopens later admin s t step a b x y h =
    let running = Step-IsRunning admin s t step a b h in
    open_store-IsPersisted later t running.persisted running.sound running.current x y

new_data-IsSound : IsSound new_data
unfolding new_data
new_data-IsSound = record {
  nodes_keyed = tt;
  nodes_clear = tt;
  domains_keyed = tt;
  members_keyed = tt;
  members_approved = tt;
  members_domain = tt;
  bindings_keyed = tt;
  bindings_clear = tt;
}

new_data-IsCurrent : IsCurrent new_data
unfolding new_data
new_data-IsCurrent = record {
  wg_interfaces = refl;
  endpoint_leases = refl;
  commands = refl;
  events = refl;
}

-- Opening a path without a state file, where both saves succeed, gives a running store: a sound
-- configuration without deprecated fields, and files that hold what the store holds.
pub open_store-IsRunning :
    (env : Env) (disk : Disk) (s : Store)
    → disk.state ≡ missing
    → env.state_fault ≡ none
    → env.runtime_fault ≡ none
    → open_store env disk ≡ ok s
    → IsRunning s
unfolding open_store
open_store-IsRunning env disk s absent state_saved runtime_saved e =
    let fresh : Store = record { state = new_data; runtime = new_runtime_data; disk = disk } in
    let saved =
      save-written env fresh new_data-IsSound new_data-IsCurrent state_saved runtime_saved in
    let same : written fresh ≡ s = ground (arith, saved) in
    subst IsRunning same (record {
      sound = new_data-IsSound;
      current = new_data-IsCurrent;
      persisted = record {
        state = ap holds (sym (saved_data-same new_data new_data-IsSound new_data-IsCurrent));
        runtime = refl;
      };
    })
