-- ===== src/Store/AutoBinding.antt =====
-- The tests on automatic bindings of internal/store/store.go.
use wireguard_natter_helper.Prelude.{
  bool_eq, if◌then◌else◌, keep_if, String, Bool, true, false, ◌&&◌, ◌||◌, Option, none, some, List,
  [], ◌∷◌, ◌==◌,
}
use wireguard_natter_helper.Map.{Map, get?, values}
use wireguard_natter_helper.Store.Config.{DomainMember, Binding}
use wireguard_natter_helper.Store.Runtime.{WgInterface}
use wireguard_natter_helper.Store.Ids.{domain_member_key, auto_binding_id}

-- `bindingsEqual`
unfoldable pub bindings_equal : Binding → Binding → Bool
bindings_equal a b =
    a.id == b.id
    && a.domain_id == b.domain_id
    && bool_eq a.auto b.auto
    && a.server_node_id == b.server_node_id
    && a.server_interface == b.server_interface
    && a.client_node_id == b.client_node_id
    && a.client_interface == b.client_interface
    && a.peer_public_key == b.peer_public_key
    && a.config_type == b.config_type
    && a.config_path == b.config_path
    && a.reload_method == b.reload_method
    && bool_eq a.enabled b.enabled

-- `isAutoBindingID`
unfoldable pub is_auto_binding_id : Binding → Bool
is_auto_binding_id b =
    if b.domain_id == ""
      || b.server_node_id == ""
      || b.server_interface == ""
      || b.client_node_id == ""
      || b.client_interface == ""
    then false
    else b.id
      == auto_binding_id b.domain_id b.server_node_id b.server_interface b.client_node_id
          b.client_interface

-- `!ok || member.Role != role || member.Interface != interface`, negated
abbrev pub plays : String → String → Option DomainMember → Bool
plays role interface none = false
plays role interface (some m) = m.role == role && m.interface == interface

-- `bindingMatchesDomainMembers`
unfoldable pub binding_matches_domain_members : Binding → Map DomainMember → Bool
binding_matches_domain_members b members =
    plays "server" b.server_interface
      (get? (domain_member_key b.domain_id b.server_node_id) members)
    && plays "client" b.client_interface
        (get? (domain_member_key b.domain_id b.client_node_id) members)

-- `interfacesForNodeLocked`
unfoldable pub interfaces_for_node : Map WgInterface → String → String → List WgInterface
interfaces_for_node inventory node_id preferred_name =
    keep_if (λ i. i.node_id == node_id && (preferred_name == "" || i.name == preferred_name))
      (values inventory)

-- `bindingExistsLocked`
unfoldable pub binding_exists :
    String → String → String → String → String → String → List Binding → Bool
binding_exists domain_id server_node_id server_interface client_node_id client_interface key [] =
    false
binding_exists domain_id server_node_id server_interface client_node_id client_interface key
      (b ∷ bs) =
    if b.domain_id == domain_id
      && b.server_node_id == server_node_id
      && b.server_interface == server_interface
      && b.client_node_id == client_node_id
      && b.client_interface == client_interface
      && b.peer_public_key == key
    then true
    else binding_exists domain_id server_node_id server_interface client_node_id client_interface
        key bs
