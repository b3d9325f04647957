-- ===== src/Store/Audit.antt =====
-- The audit views of internal/store/store.go.
use wireguard_natter_helper.Prelude.{
  if◌then◌else◌, String, ◌&&◌, Option, none, some, List, [], ◌∷◌, ◌==◌,
}
use wireguard_natter_helper.Json.{bool, num, str, arr, Items, nil, cons, Fields, object}
use wireguard_natter_helper.Store.Config.{DomainMember, Binding}

-- A slice of strings as a JSON value.
abbrev pub items : List String → Items
items [] = nil
items (s ∷ ss) = cons (str s) (items ss)

-- `domainMemberAudit`
unfoldable pub domain_member_audit : DomainMember → Option Fields
domain_member_audit m =
    if m.domain_id == "" && m.node_id == ""
    then none
    else some (
        object (
          ("domain_id", str m.domain_id)
          ∷ ("node_id", str m.node_id)
          ∷ ("role", str m.role)
          ∷ ("node_type", str m.node_type)
          ∷ ("interface", str m.interface)
          ∷ ("config_type", str m.config_type)
          ∷ ("reload_method", str m.reload_method)
          ∷ ("natter_managed", bool m.natter_managed)
          ∷ ("natter_command", arr (items m.natter_command))
          ∷ ("natter_stop_wg", bool m.natter_stop_wireguard)
          ∷ ("natter_timeout", num m.natter_timeout_seconds)
          ∷ ("natter_control", str m.natter_wireguard_control)
          ∷ ("natter_delay", num m.natter_restart_delay_seconds)
          ∷ ("natter_configured", bool m.natter_configured)
          ∷ []))

-- `bindingAudit`
unfoldable pub binding_audit : Binding → Option Fields
binding_audit b = some (
    object (
      ("id", str b.id)
      ∷ ("domain_id", str b.domain_id)
      ∷ ("auto", bool b.auto)
      ∷ ("server_node_id", str b.server_node_id)
      ∷ ("server_interface", str b.server_interface)
      ∷ ("client_node_id", str b.client_node_id)
      ∷ ("client_interface", str b.client_interface)
      ∷ ("peer_public_key", str b.peer_public_key)
      ∷ ("config_type", str b.config_type)
      ∷ ("reload_method", str b.reload_method)
      ∷ ("enabled", bool b.enabled)
      ∷ []))
