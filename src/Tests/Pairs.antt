-- ===== src/Tests/Pairs.antt =====
-- The theorems about the reconciliation of automatic bindings.
use wireguard_natter_helper.Prelude.{
  keep_if, All, for_each, ok, ◌≡◌, refl, true, false, ◌||◌, not, some, [], ◌∷◌,
}
use wireguard_natter_helper.Map.{get?, has, set, values}
use wireguard_natter_helper.Map.Entries.{Every}
use wireguard_natter_helper.Store.Config.{Binding}
use wireguard_natter_helper.Store.Ids.{contains_string, auto_binding_id}
use wireguard_natter_helper.Store.Clear.{default_binding_fields}
use wireguard_natter_helper.Store.Save.{save_both}
use wireguard_natter_helper.Store.AutoBinding.{
  bindings_equal, is_auto_binding_id, interfaces_for_node, binding_exists,
}
use wireguard_natter_helper.Store.Reconcile.{
  is_candidate, add_candidate, members_by_domain, auto_binding, record_binding, pair_interface,
  pair_server_interface, pair_client, pair_server, pair_domain, pair_all, reconcile_auto_bindings,
}
use wireguard_natter_helper.Store.Reconcile.Created.{created-Pairing}
use wireguard_natter_helper.Store.Reconcile.Found.{is_bound, reconcile-finds}
use wireguard_natter_helper.Store.Reconcile.Settled.{MayStay, reconcile-MayStay}
use wireguard_natter_helper.Store.Reconcile.Manual.{reconcile-manual}
use wireguard_natter_helper.Store.Reconcile.Justified.{Pairing}
use wireguard_natter_helper.Tests.Network.{
  noon, server_member, client_member, server_interface, client_interface, manual, network_state,
  network, manual_there,
}

abbrev paired : Binding
paired =
    default_binding_fields
      (auto_binding "home" server_member client_member server_interface client_interface)

created_here : (reconcile_auto_bindings noon network).1 ≡ ok (paired ∷ [])
unfolding reconcile_auto_bindings default_binding_fields auto_binding pair_all for_each
    members_by_domain values add_candidate is_candidate get? set pair_domain pair_server pair_client
    interfaces_for_node keep_if pair_server_interface pair_interface contains_string record_binding
    binding_exists bindings_equal auto_binding_id save_both
created_here = refl

created-Pairing_example : All (Pairing network) (paired ∷ [])
created-Pairing_example = created-Pairing noon network (paired ∷ []) created_here

reconcile-MayStay_example :
    Every (MayStay network) (reconcile_auto_bindings noon network).0.state.bindings
reconcile-MayStay_example = reconcile-MayStay noon network

manual_unnamed : is_auto_binding_id manual ≡ false
unfolding is_auto_binding_id auto_binding_id
manual_unnamed = refl

reconcile-manual_example :
    get? "by-hand" (reconcile_auto_bindings noon network).0.state.bindings ≡ some manual
reconcile-manual_example =
    reconcile-manual noon network "by-hand" manual refl manual_unnamed manual_there

unpaired :
    (has paired.id network_state.bindings || not (is_bound paired network_state.bindings)) ≡ true
unfolding binding_exists default_binding_fields auto_binding auto_binding_id get? values
unpaired = refl

reconcile-finds_example :
    has paired.id (reconcile_auto_bindings noon network).0.state.bindings ≡ true
reconcile-finds_example =
    reconcile-finds noon network paired (created-Pairing noon network (paired ∷ []) created_here).0
      unpaired
