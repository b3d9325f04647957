-- ===== src/Store/Steps.antt =====
-- The store as a transition system: a step is one call of a method that may write, each of which
-- holds the mutex throughout. Some steps are an administrator's.
pub mod Restart
pub mod Durable
pub mod Identity
pub mod Approvals
pub mod Soundness
use wireguard_natter_helper.Prelude.{String, ◌≡◌, Bool, true, Option, List}
use wireguard_natter_helper.Json.{Fields}
use wireguard_natter_helper.Protocol.{Command}
use wireguard_natter_helper.Store.Config.{Binding}
use wireguard_natter_helper.Store.Runtime.{WgInterface, EndpointLease}
use wireguard_natter_helper.Store.State.{Store, Env}
use wireguard_natter_helper.Store.Nodes.{
  create_node, mark_seen, upsert_joined_node, upsert_pending_node,
}
use wireguard_natter_helper.Store.Domains.{create_domain}
use wireguard_natter_helper.Store.Approve.{NodeApproval, approve_node}
use wireguard_natter_helper.Store.Remove.{delete_node, update_wg_interfaces, add_binding}
use wireguard_natter_helper.Store.Commands.{
  queue_command, next_command, complete_command, save_endpoint_lease,
}
use wireguard_natter_helper.Store.Reconcile.{reconcile_auto_bindings}
use wireguard_natter_helper.Store.Events.{add_event}

-- The flag says whether an administrator's methods are among the steps.
pub data Step (admin : Bool) (s : Store) : Store → Type 0 where
  register :
      (env : Env) (node_id name token : String) (meta : Option Fields)
      → Step admin s (upsert_pending_node env node_id name token meta s).0
  join :
      (env : Env) (domain_id node_id name token : String) (meta : Option Fields)
      → Step admin s (upsert_joined_node env domain_id node_id name token meta s).0
  seen :
      (env : Env) (node_id : String) (meta : Option Fields)
      → Step admin s (mark_seen env node_id meta s).0
  inventory :
      (env : Env) (node_id : String) (interfaces : List WgInterface)
      → Step admin s (update_wg_interfaces env node_id interfaces s).0
  reconciled : (env : Env) → Step admin s (reconcile_auto_bindings env s).0
  queued :
      (env : Env) (node_id : String) (cmd : Command)
      → Step admin s (queue_command env node_id cmd s).0
  delivered : (env : Env) (node_id : String) → Step admin s (next_command env node_id s).0
  completed :
      (env : Env) (node_id command_id : String) (result : Fields)
      → Step admin s (complete_command env node_id command_id result s).0
  leased :
      (env : Env) (node_id : String) (lease : EndpointLease)
      → Step admin s (save_endpoint_lease env node_id lease s).0
  logged :
      (env : Env) (type severity node_id binding_id message : String) (payload : Fields)
      → Step admin s (add_event env type severity node_id binding_id message payload s)
  domain_created :
      (env : Env) (id name join_code description : String)
      → admin ≡ true
      → Step admin s (create_domain env id name join_code description s).0
  approved :
      (env : Env) (node_id : String) (approval : NodeApproval)
      → admin ≡ true
      → Step admin s (approve_node env node_id approval s).0
  deleted :
      (env : Env) (node_id : String) → admin ≡ true → Step admin s (delete_node env node_id s).0
  node_created :
      (env : Env) (id name token : String)
      → admin ≡ true
      → Step admin s (create_node env id name token s).0
  binding_added : (env : Env) (b : Binding) → admin ≡ true → Step admin s (add_binding env b s).0

-- Any number of steps, in any order
pub data Reach (admin : Bool) (s : Store) : Store → Type 0 where
  here : Reach admin s s
  next : {t u : Store} → Reach admin s t → Step admin t u → Reach admin s u

pub Reach-trans :
    {admin : Bool} {s t u : Store} → Reach admin s t → Reach admin t u → Reach admin s u
Reach-trans r here = r
Reach-trans r (next q st) = next (Reach-trans r q) st

-- A property that each step keeps
pub Reach-keeps {ℓ} :
    {admin : Bool} (P : Store → Type ℓ)
    → ((t u : Store) → Step admin t u → P t → P u)
    → {s t : Store} → Reach admin s t
    → P s
    → P t
Reach-keeps P keep here h = h
Reach-keeps P keep (next {t} {u} r st) h = keep t u st (Reach-keeps P keep r h)
