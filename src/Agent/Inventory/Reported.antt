-- ===== src/Agent/Inventory/Reported.antt =====
-- What the daemon of internal/daemon/daemon.go reads of the inventory of internal/agent/agent.go.
use wireguard_natter_helper.Prelude.{
  if◌then◌else◌, All, non_empty, ℤ, pos, is_positive, String, ◌≡◌, refl, ap, true, List, [], ◌∷◌,
  arith, eq_iff,
}
use wireguard_natter_helper.Json.{lookup, strings, string_slice, object}
use wireguard_natter_helper.Agent.State.{LocalInterface}
use wireguard_natter_helper.Agent.Inventory.{string_items, strings_value, interface_payload}
use wireguard_natter_helper.Daemon.Inventory.{interface_of}

strings-string_items :
    (ss : List String) → All (λ s. non_empty s ≡ true) ss → strings (string_items ss) ≡ ss
unfolding strings string_items
strings-string_items [] h = refl
strings-string_items (s ∷ ss) (p, h) = rw p (ap (◌∷◌ s) (strings-string_items ss h))

string_slice-strings_value :
    (ss : List String) → All (λ s. non_empty s ≡ true) ss → string_slice (strings_value ss) ≡ ss
unfolding string_slice
string_slice-strings_value [] h = refl
string_slice-strings_value (s ∷ ss) h = strings-string_items (s ∷ ss) h

pub interface_of-payload :
    (node_id name public_key : String) (peers : List String) (port : ℤ) (item : LocalInterface)
    → All (λ s. non_empty s ≡ true) peers
    → interface_of node_id (interface_payload name public_key peers port item) ≡ record {
      node_id = node_id;
      name = name;
      public_key = public_key;
      listen_port = if is_positive port then port else pos 0;
      peers = peers;
      config_type = item.config_type;
      config_path = item.config_path;
      updated_at = "";
    }
unfolding interface_payload object lookup
interface_of-payload node_id name public_key peers port item h = ground (
  arith,
  string_slice-strings_value peers h,
  eq_iff item.config_type "",
  eq_iff item.config_path "",
)
