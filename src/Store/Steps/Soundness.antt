-- ===== src/Store/Steps/Soundness.antt =====
-- The well-formedness of the configuration along the steps of the store.
use wireguard_natter_helper.Prelude.{String, ◌≡◌, Bool, List, arith}
use wireguard_natter_helper.Store.Runtime.{WgInterface}
use wireguard_natter_helper.Store.State.{Store, Env}
use wireguard_natter_helper.Store.Nodes.{mark_seen}
use wireguard_natter_helper.Store.Remove.{update_wg_interfaces}
use wireguard_natter_helper.Store.Commands.{
  queue_command, next_command, complete_command, save_endpoint_lease,
}
use wireguard_natter_helper.Store.Events.{add_event}
use wireguard_natter_helper.Store.Sound.{IsSound}
use wireguard_natter_helper.Store.Sound.Nodes.{
  create_node-IsSound, upsert_joined_node-IsSound, upsert_pending_node-IsSound,
}
use wireguard_natter_helper.Store.Sound.Members.{
  create_domain-IsSound, delete_node-IsSound, add_binding-IsSound, approve_node-IsSound,
}
use wireguard_natter_helper.Store.Reconcile.Sound.{reconcile_auto_bindings-IsSound}
use wireguard_natter_helper.Store.Steps.{
  binding_added, node_created, deleted, approved, domain_created, logged, leased, completed, queued,
  inventory, seen, join, register, Step, reconciled, delivered, Reach, Reach-keeps,
}

-- The methods that write only the runtime state leave the configuration.
pub update_wg_interfaces-state :
    (env : Env) (node_id : String) (interfaces : List WgInterface) (s : Store)
    → (update_wg_interfaces env node_id interfaces s).0.state ≡ s.state
unfolding update_wg_interfaces
update_wg_interfaces-state env node_id interfaces s = ground arith

pub next_command-state :
    (env : Env) (node_id : String) (s : Store) → (next_command env node_id s).0.state ≡ s.state
unfolding next_command
next_command-state env node_id s = ground arith

pub Step-IsSound : {admin : Bool} (s t : Store) → Step admin s t → IsSound s.state → IsSound t.state
unfolding mark_seen queue_command complete_command save_endpoint_lease add_event
Step-IsSound s _ (register env node_id name token meta) h =
    upsert_pending_node-IsSound env node_id name token meta s h
Step-IsSound s _ (join env domain_id node_id name token meta) h =
    upsert_joined_node-IsSound env domain_id node_id name token meta s h
Step-IsSound s _ (seen env node_id meta) h = h
Step-IsSound s _ (inventory env node_id interfaces) h =
    rw (update_wg_interfaces-state env node_id interfaces s) h
Step-IsSound s _ (reconciled env) h = reconcile_auto_bindings-IsSound env s h
Step-IsSound s _ (queued env node_id cmd) h = h
Step-IsSound s _ (delivered env node_id) h = rw (next_command-state env node_id s) h
Step-IsSound s _ (completed env node_id command_id result) h = h
Step-IsSound s _ (leased env node_id lease) h = h
Step-IsSound s _ (logged env type severity node_id binding_id message payload) h = h
Step-IsSound s _ (domain_created env id name join_code description _) h =
    create_domain-IsSound env id name join_code description s h
Step-IsSound s _ (approved env node_id approval _) h = approve_node-IsSound env node_id approval s h
Step-IsSound s _ (deleted env node_id _) h = delete_node-IsSound env node_id s h
Step-IsSound s _ (node_created env id name token _) h = create_node-IsSound env id name token s h
Step-IsSound s _ (binding_added env b _) h = add_binding-IsSound env b s h

-- Any sequence of calls of the store's methods leaves a sound configuration sound.
pub Reach-IsSound :
    (admin : Bool) (s t : Store) → IsSound s.state → Reach admin s t → IsSound t.state
Reach-IsSound admin s t h r = Reach-keeps (λ u. IsSound u.state) Step-IsSound r h
