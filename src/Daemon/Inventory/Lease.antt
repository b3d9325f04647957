-- ===== src/Daemon/Inventory/Lease.antt =====
-- The endpoints that `leaseFromPayload` of internal/daemon/daemon.go accepts.
use wireguard_natter_helper.Prelude.{pos, ℕ, ◌≤◌, ◌≡◌, false, ◌==◌}
use wireguard_natter_helper.Json.{Json}
use wireguard_natter_helper.Store.Runtime.{EndpointLease}

-- A port of UDP, and the fields that the rest of the program relies on.
pub record IsUsable (l : EndpointLease) : Type 0 where
  pub port : ℕ
  pub public_port : l.public_port ≡ pos port
  pub low : 1 ≤ port
  pub high : port ≤ 65535
  pub udp : l.protocol ≡ "udp"
  pub public_ip : (l.public_ip == "") ≡ false
  pub server_interface : (l.server_interface == "") ≡ false
