-- ===== src/Agent/Loop/Deleted.antt =====
-- The agent of internal/agent/agent.go after its node is deleted at the daemon of
-- internal/daemon/daemon.go.
use wireguard_natter_helper.Prelude.{Result, ok, err, ◌≡◌, true, false}
use wireguard_natter_helper.Strings.{contains}
use wireguard_natter_helper.Host.{Host}
use wireguard_natter_helper.Rpc.{Response}
use wireguard_natter_helper.Daemon.Server.{Server}
use wireguard_natter_helper.Agent.State.{Agent}

-- A call that fails for another reason than a missing approval
abbrev NotPending : Result Response → Type 0
NotPending (err e) = contains e "node pending approval" ≡ false
NotPending (ok resp) = true ≡ false
