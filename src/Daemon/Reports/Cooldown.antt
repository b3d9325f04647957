-- ===== src/Daemon/Reports/Cooldown.antt =====
-- The cooldown of `peerUnreachable` of internal/daemon/daemon.go.
use wireguard_natter_helper.Prelude.{
  ltb, ◌<>◌, ◌-◌, String, ◌≡◌, refl, true, false, none, some, [], ◌∷◌, ◌++◌, arith, ◌==◌, eq_refl,
}
use wireguard_natter_helper.Map.{get?}
use wireguard_natter_helper.Map.Lookup.{get?-set}
use wireguard_natter_helper.Json.{Fields, lookup, string_value}
use wireguard_natter_helper.Protocol.{Command}
use wireguard_natter_helper.Rpc.{success}
use wireguard_natter_helper.Store.State.{Store, Env}
use wireguard_natter_helper.Store.Events.{add_audit_event_locked, add_event}
use wireguard_natter_helper.Store.Commands.{queue_command}
use wireguard_natter_helper.Store.Commands.Queue.{pending, queue_command-pending}
use wireguard_natter_helper.Daemon.Server.{Server}
use wireguard_natter_helper.Daemon.Reports.{run_command, is_cooling, peer_unreachable}

-- The two fields that a report of a lost peer is about.
abbrev pub Names : String → String → Fields → Type 0
Names server_node_id server_interface payload =
    (string_value (lookup "server_node_id" payload) ≡ server_node_id)
    × (string_value (lookup "server_interface" payload) ≡ server_interface)

-- A report that comes too early asks for nothing.
cooling :
    (env : Env) (id node interface : String) (p : Fields) (srv : Server)
    → Names node interface p
    → (node == "") ≡ false
    → (interface == "") ≡ false
    → is_cooling srv (node <> "/" <> interface) env.time ≡ true
    → ((peer_unreachable env id p srv).1 ≡ success)
      × ((peer_unreachable env id p srv).0.store.runtime ≡ srv.store.runtime)
unfolding peer_unreachable add_event add_audit_event_locked
cooling env id node interface p srv (n, i) x y soon =
    rw (peer_unreachable, n, i, x, y, soon) (refl, refl)

started :
    (env : Env) (id node interface : String) (p : Fields) (srv : Server) (cmd : Command)
    → Names node interface p
    → (peer_unreachable env id p srv).1.command ≡ some cmd
    → (get? (node <> "/" <> interface) (peer_unreachable env id p srv).0.last_natter_run
        ≡ some env.time)
      × ((peer_unreachable env id p srv).0.natter_cooldown ≡ srv.natter_cooldown)
      × ((node == "") ≡ false)
      × ((interface == "") ≡ false)
unfolding peer_unreachable
started env id node interface p srv cmd (n, i) asked =
    let key = node <> "/" <> interface in
    ground (arith, get?-set key key env.time srv.last_natter_run, eq_refl key)

-- After a report of a lost peer has queued a command, any node's report about the same server
-- and interface within the cooldown is answered with success, queues nothing and leaves the
-- runtime state as it was.
pub peer_unreachable-once :
    (first second : Env) (id other node interface : String) (p q : Fields) (srv : Server)
    (cmd : Command)
    → Names node interface p
    → Names node interface q
    → (peer_unreachable first id p srv).1.command ≡ some cmd
    → ltb (second.time - first.time) srv.natter_cooldown ≡ true
    → ((peer_unreachable second other q (peer_unreachable first id p srv).0).1 ≡ success)
      × ((peer_unreachable second other q (peer_unreachable first id p srv).0).0.store.runtime
          ≡ (peer_unreachable first id p srv).0.store.runtime)
peer_unreachable-once first second id other node interface p q srv cmd np nq asked soon =
    let (last, same, x, y) = started first id node interface p srv cmd np asked in
    cooling second other node interface q (peer_unreachable first id p srv).0 nq x y
      (unfold is_cooling in ground (arith, last, same))

queue_command-error :
    (env : Env) (node_id : String) (cmd : Command) (s : Store)
    → (queue_command env node_id cmd s).1 ≡ env.runtime_fault
unfolding queue_command
queue_command-error env node_id cmd s = refl

-- A report of a lost peer that names a server and an interface outside their cooldown, where
-- saving succeeds, puts a natter.run command for that interface behind the commands that wait
-- for that server and returns it.
pub peer_unreachable-asks :
    (env : Env) (id node interface : String) (p : Fields) (srv : Server)
    → Names node interface p
    → (node == "") ≡ false
    → (interface == "") ≡ false
    → is_cooling srv (node <> "/" <> interface) env.time ≡ false
    → env.runtime_fault ≡ none
    → ((peer_unreachable env id p srv).1
        ≡ record success { command = some (run_command env interface) })
      × (pending node (peer_unreachable env id p srv).0.store.runtime.commands
          ≡ pending node srv.store.runtime.commands ++ run_command env interface ∷ [])
unfolding peer_unreachable
peer_unreachable-asks env id node interface p srv (n, i) x y rested saved =
    let s1 =
      add_event env "peer.unreachable" "warning" id (string_value (lookup "binding_id" p))
        "Peer handshake is stale" p srv.store in
    let same : s1.runtime ≡ srv.store.runtime = unfold add_event add_audit_event_locked in refl in
    ground (
      arith,
      same,
      saved,
      eq_refl node,
      queue_command-pending env node node (run_command env interface) s1,
      queue_command-error env node (run_command env interface) s1,
    )
