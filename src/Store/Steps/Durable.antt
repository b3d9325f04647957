-- ===== src/Store/Steps/Durable.antt =====
-- The two JSON files of internal/store/store.go after each of the store's methods.
use wireguard_natter_helper.Prelude.{
  nat_eq, keep_if, for_each, String, ◌≡◌, refl, Bool, true, false, ◌&&◌, Option, none, List, [],
  ◌∷◌, ◌++◌, arith,
}
use wireguard_natter_helper.Map.{Map, delete_if}
use wireguard_natter_helper.Json.{Fields}
use wireguard_natter_helper.Protocol.{Command}
use wireguard_natter_helper.Store.Config.{Binding}
use wireguard_natter_helper.Store.Runtime.{WgInterface, EndpointLease}
use wireguard_natter_helper.Store.State.{Store, Env}
use wireguard_natter_helper.Store.Events.{add_audit_event_locked, add_event}
use wireguard_natter_helper.Store.Save.{write_state, write_runtime, write_both, IsPersisted}
use wireguard_natter_helper.Store.Nodes.{
  create_node, mark_seen, upsert_joined_node, upsert_pending_node,
}
use wireguard_natter_helper.Store.Domains.{create_domain}
use wireguard_natter_helper.Store.Approve.{NodeApproval, save_membership, approve_node}
use wireguard_natter_helper.Store.Remove.{delete_node, update_wg_interfaces, add_binding}
use wireguard_natter_helper.Store.Reconcile.{
  Round, record_binding, is_stale, entries_if, remove_stale, pair_all, is_nil,
  reconcile_auto_bindings,
}
use wireguard_natter_helper.Store.Reconcile.Justified.{Pairing}
use wireguard_natter_helper.Store.Reconcile.Loops.{pair_all-inv}
use wireguard_natter_helper.Store.Commands.{
  queue_command, next_command, complete_command, save_endpoint_lease,
}
use wireguard_natter_helper.Store.Steps.{
  Step, register, join, seen, inventory, reconciled, queued, delivered, completed, leased, logged,
  domain_created, approved, deleted, node_created, binding_added,
}

-- The environment of a step
unfoldable pub env_of : {admin : Bool} {s t : Store} → Step admin s t → Env
env_of (register env node_id name token meta) = env
env_of (join env domain_id node_id name token meta) = env
env_of (seen env node_id meta) = env
env_of (inventory env node_id interfaces) = env
env_of (reconciled env) = env
env_of (queued env node_id cmd) = env
env_of (delivered env node_id) = env
env_of (completed env node_id command_id result) = env
env_of (leased env node_id lease) = env
env_of (logged env type severity node_id binding_id message payload) = env
env_of (domain_created env id name join_code description admin) = env
env_of (approved env node_id approval admin) = env
env_of (deleted env node_id admin) = env
env_of (node_created env id name token admin) = env
env_of (binding_added env b admin) = env

module _ (env : Env) (s : Store) (state_saved : env.state_fault ≡ none)
    (runtime_saved : env.runtime_fault ≡ none) (h : IsPersisted s) where
  mark_seen-IsPersisted :
      (id : String) (meta : Option Fields) → IsPersisted (mark_seen env id meta s).0
  unfolding mark_seen write_runtime
  mark_seen-IsPersisted id meta = ground arith

  upsert_pending_node-IsPersisted :
      (node_id name token : String) (meta : Option Fields)
      → IsPersisted (upsert_pending_node env node_id name token meta s).0
  unfolding upsert_pending_node write_runtime write_both
  upsert_pending_node-IsPersisted node_id name token meta = ground arith

  upsert_joined_node-IsPersisted :
      (domain_id node_id name token : String) (meta : Option Fields)
      → IsPersisted (upsert_joined_node env domain_id node_id name token meta s).0
  unfolding upsert_joined_node write_runtime write_both
  upsert_joined_node-IsPersisted domain_id node_id name token meta = ground arith

  update_wg_interfaces-IsPersisted :
      (node_id : String) (interfaces : List WgInterface)
      → IsPersisted (update_wg_interfaces env node_id interfaces s).0
  unfolding update_wg_interfaces write_runtime
  update_wg_interfaces-IsPersisted node_id interfaces = ground arith

  queue_command-IsPersisted :
      (node_id : String) (cmd : Command) → IsPersisted (queue_command env node_id cmd s).0
  unfolding queue_command write_runtime
  queue_command-IsPersisted node_id cmd = ground arith

  next_command-IsPersisted : (node_id : String) → IsPersisted (next_command env node_id s).0
  unfolding next_command write_runtime
  next_command-IsPersisted node_id = ground arith

  complete_command-IsPersisted :
      (node_id command_id : String) (result : Fields)
      → IsPersisted (complete_command env node_id command_id result s).0
  unfolding complete_command write_runtime
  complete_command-IsPersisted node_id command_id result = ground arith

  save_endpoint_lease-IsPersisted :
      (node_id : String) (lease : EndpointLease)
      → IsPersisted (save_endpoint_lease env node_id lease s).0
  unfolding save_endpoint_lease write_runtime
  save_endpoint_lease-IsPersisted node_id lease = ground arith

  create_domain-IsPersisted :
      (id name join_code description : String)
      → IsPersisted (create_domain env id name join_code description s).0
  unfolding create_domain write_state
  create_domain-IsPersisted id name join_code description = ground arith

  approve_node-IsPersisted :
      (node_id : String) (approval : NodeApproval)
      → IsPersisted (approve_node env node_id approval s).0
  unfolding approve_node save_membership write_both
  approve_node-IsPersisted node_id approval = ground arith

  delete_node-IsPersisted : (node_id : String) → IsPersisted (delete_node env node_id s).0
  unfolding delete_node write_both
  delete_node-IsPersisted node_id = ground arith

  create_node-IsPersisted :
      (id name token : String) → IsPersisted (create_node env id name token s).0
  unfolding create_node write_both
  create_node-IsPersisted id name token = ground arith

  add_binding-IsPersisted : (b : Binding) → IsPersisted (add_binding env b s).0
  unfolding add_binding write_both
  add_binding-IsPersisted b = ground arith

  add_event-IsPersisted :
      (type severity node_id binding_id message : String) (payload : Fields)
      → IsPersisted (add_event env type severity node_id binding_id message payload s)
  unfolding add_event add_audit_event_locked
  add_event-IsPersisted type severity node_id binding_id message payload = record {
    state = h.state;
    runtime = h.runtime;
  }

is_nil-append {ℓ} : {A : Type ℓ} (xs : List A) (x : A) → is_nil (xs ++ x ∷ []) ≡ false
is_nil-append [] x = refl
is_nil-append (y ∷ xs) x = refl

-- A round that counts no change has made none.
record_binding-quiet :
    (env : Env) (s : Store) (domain_id : String) (b : Binding) (r : Round)
    → Pairing s b
    → ((is_nil r.created && nat_eq r.updated 0) ≡ true → r.store ≡ s)
    → (is_nil (record_binding env domain_id b r).created
        && nat_eq (record_binding env domain_id b r).updated 0)
      ≡ true
    → (record_binding env domain_id b r).store ≡ s
unfolding record_binding
record_binding-quiet env s domain_id b r _ h e = ground (arith, is_nil-append r.created b)

pair_all-quiet :
    (env : Env) (s : Store)
    → (is_nil (pair_all env s).created && nat_eq (pair_all env s).updated 0) ≡ true
    → (pair_all env s).store ≡ s
pair_all-quiet env s =
    pair_all-inv env s (λ r. (is_nil r.created && nat_eq r.updated 0) ≡ true → r.store ≡ s)
      (record_binding-quiet env s) (λ _. refl)

delete_if-none :
    (p : String → Binding → Bool) (m : Map Binding)
    → is_nil (entries_if p m) ≡ true
    → delete_if p m ≡ m
unfolding entries_if keep_if delete_if
delete_if-none p [] e = refl
delete_if-none p ((k, b) ∷ m) e = ground (arith, delete_if-none p m)

remove_stale-none :
    (env : Env) (valid_auto : List String) (s : Store)
    → is_nil (entries_if (is_stale valid_auto s.state.domain_members) s.state.bindings) ≡ true
    → remove_stale env valid_auto s ≡ s
unfolding remove_stale for_each
remove_stale-none env valid_auto s e =
    let stale = is_stale valid_auto s.state.domain_members in
    ground (arith, delete_if-none stale s.state.bindings e)

reconcile_auto_bindings-IsPersisted :
    (env : Env) (s : Store)
    → env.state_fault ≡ none
    → env.runtime_fault ≡ none
    → IsPersisted s
    → IsPersisted (reconcile_auto_bindings env s).0
unfolding reconcile_auto_bindings write_both
reconcile_auto_bindings-IsPersisted env s state_saved runtime_saved h =
    let round = pair_all env s in
    ground (arith, pair_all-quiet env s, remove_stale-none env round.valid_auto round.store)

-- Where the two JSON files held what the store holds, they do so after any call of a store's
-- method whose writes of them succeed, whatever the method returns.
pub Step-IsPersisted :
    (admin : Bool) (s t : Store) (step : Step admin s t)
    → (env_of step).state_fault ≡ none
    → (env_of step).runtime_fault ≡ none
    → IsPersisted s
    → IsPersisted t
unfolding env_of
Step-IsPersisted admin s _ (register env node_id name token meta) a b h =
    upsert_pending_node-IsPersisted env s a b h node_id name token meta
Step-IsPersisted admin s _ (join env domain_id node_id name token meta) a b h =
    upsert_joined_node-IsPersisted env s a b h domain_id node_id name token meta
Step-IsPersisted admin s _ (seen env node_id meta) a b h =
    mark_seen-IsPersisted env s a b h node_id meta
Step-IsPersisted admin s _ (inventory env node_id interfaces) a b h =
    update_wg_interfaces-IsPersisted env s a b h node_id interfaces
Step-IsPersisted admin s _ (reconciled env) a b h = reconcile_auto_bindings-IsPersisted env s a b h
Step-IsPersisted admin s _ (queued env node_id cmd) a b h =
    queue_command-IsPersisted env s a b h node_id cmd
Step-IsPersisted admin s _ (delivered env node_id) a b h =
    next_command-IsPersisted env s a b h node_id
Step-IsPersisted admin s _ (completed env node_id command_id result) a b h =
    complete_command-IsPersisted env s a b h node_id command_id result
Step-IsPersisted admin s _ (leased env node_id lease) a b h =
    save_endpoint_lease-IsPersisted env s a b h node_id lease
Step-IsPersisted admin s _ (logged env type severity node_id binding_id message payload) a b h =
    add_event-IsPersisted env s a b h type severity node_id binding_id message payload
Step-IsPersisted admin s _ (domain_created env id name join_code description _) a b h =
    create_domain-IsPersisted env s a b h id name join_code description
Step-IsPersisted admin s _ (approved env node_id approval _) a b h =
    approve_node-IsPersisted env s a b h node_id approval
Step-IsPersisted admin s _ (deleted env node_id _) a b h =
    delete_node-IsPersisted env s a b h node_id
Step-IsPersisted admin s _ (node_created env id name token _) a b h =
    create_node-IsPersisted env s a b h id name token
Step-IsPersisted admin s _ (binding_added env c _) a b h = add_binding-IsPersisted env s a b h c
