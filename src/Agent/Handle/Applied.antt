-- ===== src/Agent/Handle/Applied.antt =====
-- The endpoint that the daemon of internal/daemon/daemon.go sends, as the agent of
-- internal/agent/agent.go writes it through internal/wgconfig/wgconfig.go.
use wireguard_natter_helper.Prelude.{if◌then◌else◌, ◌<>◌, String, ◌==◌}
use wireguard_natter_helper.Host.{Host}
use wireguard_natter_helper.WgConfig.{endpoint_line}
use wireguard_natter_helper.Agent.State.{Config}
use wireguard_natter_helper.Strings.Numbers.{itoa}
use wireguard_natter_helper.Store.Config.{Binding}
use wireguard_natter_helper.Store.Runtime.{EndpointLease}

-- The line that the daemon means for a lease
abbrev pub lease_line : EndpointLease → String
lease_line lease = endpoint_line (lease.public_ip <> ":" <> itoa lease.public_port)

abbrev pub binding_path : Binding → String
binding_path b =
    if b.config_path == ""
    then "/etc/wireguard/" <> b.client_interface <> ".conf"
    else b.config_path
