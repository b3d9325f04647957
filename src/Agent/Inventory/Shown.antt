-- ===== src/Agent/Inventory/Shown.antt =====
-- What the daemon reads of an agent's whole inventory: `meta` and `wireGuardInventory` of
-- internal/agent/agent.go, read by `wireGuardInventoryFromMeta` of internal/daemon/daemon.go.
use wireguard_natter_helper.Prelude.{
  if◌then◌else◌, All, All-append, for_each, for_each_keeps, ℤ, pos, is_positive, ok, split_if,
  split_result, ok_inj, clash, err-ne-ok, String, ◌≡◌, refl, sym, ap, ◌∙◌, subst, not, Option, none,
  some, List, [], ◌∷◌, ◌==◌, eq_iff,
}
use wireguard_natter_helper.Map.{Map, get_or}
use wireguard_natter_helper.Json.{str, arr, Fields, lookup, object}
use wireguard_natter_helper.Host.{Host, Machine}
use wireguard_natter_helper.Protocol.{version}
use wireguard_natter_helper.Agent.State.{LocalInterface, zero_interface, Config}
use wireguard_natter_helper.Agent.Inventory.{
  wg_show, wg_show_string, wg_show_int, wg_list, interface_payload, shown_interface,
  shown_interfaces, configure, wireguard_inventory, object_items, meta_of,
}
use wireguard_natter_helper.Agent.Inventory.Reported.{interface_of-payload}
use wireguard_natter_helper.Daemon.Inventory.{
  interface_of, inventory_items, wireguard_inventory_from_meta,
}
use wireguard_natter_helper.Store.Runtime.{WgInterface}
use wireguard_natter_helper.Strings.Split.{Filled, fields-Filled}

abbrev asked_port : Machine → LocalInterface → String → Host → Host × ℤ
asked_port env item name h =
    if is_positive item.listen_port
    then (h, item.listen_port)
    else wg_show_int env name "listen-port" h

abbrev or_zero : ℤ → ℤ
or_zero n = if is_positive n then n else pos 0

-- One interface: its key and its peers are what `wg show` says of it, its port is the configured
-- one or else what `wg show` says, and its file is the configured one.
pub record IsShown (env : Machine) (item : LocalInterface) (node interface : String) (h at : Host)
    (w : WgInterface) : Type 0 where
  pub node_id : w.node_id ≡ node
  pub name : w.name ≡ interface
  pub key : (wg_show_string env interface "public-key" h).1 ≡ ok w.public_key
  pub has_key : Filled w.public_key
  pub asked : at ≡ (asked_port env item interface (wg_show_string env interface "public-key" h).0).0
  pub port :
      w.listen_port
      ≡ or_zero (asked_port env item interface (wg_show_string env interface "public-key" h).0).1
  pub peers : w.peers ≡ (wg_list env (interface ∷ "peers" ∷ []) at).1
  pub config_type : w.config_type ≡ item.config_type
  pub config_path : w.config_path ≡ item.config_path

-- The interfaces of the names, in their order: each one for which `wg show` gives a key, as it is
-- shown when the ones before have been asked for, and no other.
pub data AllShown (env : Machine) (configured : Map LocalInterface) (node_id : String)
    : List String → Host → List WgInterface → Type 0 where
  no_more : {h : Host} → AllShown env configured node_id [] h []
  without_key :
      {name : String} {names : List String} {h : Host} {ws : List WgInterface}
      → ((key : String) → (wg_show_string env name "public-key" h).1 ≡ ok key → key ≡ "")
      → AllShown env configured node_id names (wg_show_string env name "public-key" h).0 ws
      → AllShown env configured node_id (name ∷ names) h ws
  with_key :
      {name : String} {names : List String} {h at : Host} {w : WgInterface} {ws : List WgInterface}
      → IsShown env (get_or name zero_interface configured) node_id name h at w
      → AllShown env configured node_id names (wg_list env (name ∷ "peers" ∷ []) at).0 ws
      → AllShown env configured node_id (name ∷ names) h (w ∷ ws)

wg_list-Filled :
    (env : Machine) (names : List String) (h : Host) → All Filled (wg_list env names h).1
unfolding wg_list
wg_list-Filled env names h =
    split_result (λ ss. All Filled ss) (wg_show env names h).1 (λ _ _. tt)
      (λ out _. fields-Filled out)

module _ (env : Machine) (configured : Map LocalInterface) (node_id : String) where
  interface_of-IsShown :
      (name public_key : String) (item : LocalInterface) (h : Host)
      → (wg_show_string env name "public-key" h).1 ≡ ok public_key
      → Filled public_key
      → let h1 = (wg_show_string env name "public-key" h).0 in
        let (at, port) = asked_port env item name h1 in
        IsShown env item node_id name h at (
          interface_of node_id
            (interface_payload name public_key (wg_list env (name ∷ "peers" ∷ []) at).1 port item))
  interface_of-IsShown name public_key item h shown filled =
      let (at, port) = asked_port env item name (wg_show_string env name "public-key" h).0 in
      let peers = wg_list env (name ∷ "peers" ∷ []) at in
      let e =
        interface_of-payload node_id name public_key peers.1 port item
          (wg_list-Filled env (name ∷ "peers" ∷ []) at) in
      record {
        node_id = refl;
        name = ap (λ w. w.name) e;
        key = shown ∙ ap ok (sym (ap (λ w. w.public_key) e));
        has_key = subst Filled (sym (ap (λ w. w.public_key) e)) filled;
        asked = refl;
        port = ap (λ w. w.listen_port) e;
        peers = ap (λ w. w.peers) e;
        config_type = ap (λ w. w.config_type) e;
        config_path = ap (λ w. w.config_path) e;
      }

  -- The loop's body: what the daemon reads of the names from this one on
  shown_interface-Shown :
      (name : String) (names : List String) (h : Host) (os : List Fields)
      → Filled name
      → AllShown env configured node_id names
          (shown_interface env name (get_or name zero_interface configured) h).0
          (inventory_items node_id (object_items os))
      → AllShown env configured node_id (name ∷ names) h (
          inventory_items node_id (
            object_items
              (elim (shown_interface env name (get_or name zero_interface configured) h).1 [
                | none ↦ os
                | some payload ↦ payload ∷ os
              ])))
  unfolding shown_interface inventory_items object_items
  shown_interface-Shown name names h os filled =
      let item = get_or name zero_interface configured in
      let P : Host × Option Fields → Type 0 = λ o.
        AllShown env configured node_id names o.0 (inventory_items node_id (object_items os))
        → AllShown env configured node_id (name ∷ names) h (
            inventory_items node_id
              (object_items (elim o.1 [ none ↦ os | some payload ↦ payload ∷ os ]))) in
      split_result P (wg_show_string env name "public-key" h).1
        (λ e shown rest. without_key (λ key k. err-ne-ok (sym shown ∙ k)) rest)
        (λ public_key shown.
          split_if P (public_key == "")
            (λ empty rest.
              without_key (λ key k. sym (ok_inj (sym shown ∙ k)) ∙ (eq_iff public_key "").0 empty)
                rest)
            (λ some_key rest.
              let seen = interface_of-IsShown name public_key item h shown (ap not some_key) in
              split_if (λ ws. AllShown env configured node_id (name ∷ names) h ws) _
                (λ e. clash (sym (subst Filled (sym seen.name) filled) ∙ ap not e))
                (λ _. with_key seen rest)))

  shown_interfaces-Shown :
      (names : List String) (h : Host)
      → All Filled names
      → AllShown env configured node_id names h
          (inventory_items node_id (object_items (shown_interfaces env configured names h).1))
  unfolding shown_interfaces inventory_items object_items
  shown_interfaces-Shown [] h f = no_more
  shown_interfaces-Shown (name ∷ names) h (f, fs) =
      let h1 = (shown_interface env name (get_or name zero_interface configured) h).0 in
      let later = (shown_interfaces env configured names h1).1 in
      shown_interface-Shown name names h later f (shown_interfaces-Shown names h1 fs)

configured_names-Filled :
    (items : List LocalInterface) → All Filled (for_each configure items ([], [])).1
configured_names-Filled items =
    for_each_keeps (λ (acc : Map LocalInterface × List String). All Filled acc.1) configure
      (λ item acc fs.
        split_if (λ (acc' : Map LocalInterface × List String). All Filled acc'.1) (item.name == "")
          (λ _. fs) (λ e. All-append Filled acc.1 (item.name ∷ []) fs (ap not e, tt)))
      items ([], []) tt

inventory_from_meta :
    (node_id platform : String) (os : List Fields)
    → wireguard_inventory_from_meta node_id (
        some (
          object (
            ("platform", str platform) ∷ ("agent_version", str version) ∷ (elim os [
              | [] ↦ []
              | o ∷ rest ↦ ("wireguard", arr (object_items (o ∷ rest))) ∷ []
            ]))))
      ≡ inventory_items node_id (object_items os)
unfolding wireguard_inventory_from_meta inventory_items object_items object lookup
inventory_from_meta node_id platform [] = refl
inventory_from_meta node_id platform (o ∷ rest) = refl

module _ (env : Machine) (configured : Map LocalInterface) (node_id : String) (h : Host) where
  -- The interfaces that are configured, or those that `wg show` finds where none are
  abbrev pub NamedShown : List String → List WgInterface → Type 0
  NamedShown [] ws =
      let (h1, discovered) = wg_list env ("interfaces" ∷ []) h in
      AllShown env configured node_id discovered h1 ws
  NamedShown (name ∷ names) ws = AllShown env configured node_id (name ∷ names) h ws

  abbrev named_interfaces : List String → Host × List Fields
  named_interfaces [] =
      let (h1, discovered) = wg_list env ("interfaces" ∷ []) h in
      shown_interfaces env configured discovered h1
  named_interfaces (name ∷ names) = shown_interfaces env configured (name ∷ names) h

  named_interfaces-Shown :
      (names : List String)
      → All Filled names
      → NamedShown names (inventory_items node_id (object_items (named_interfaces names).1))
  named_interfaces-Shown [] f =
      let (h1, discovered) = wg_list env ("interfaces" ∷ []) h in
      shown_interfaces-Shown env configured node_id discovered h1
        (wg_list-Filled env ("interfaces" ∷ []) h)
  named_interfaces-Shown (name ∷ names) f =
      shown_interfaces-Shown env configured node_id (name ∷ names) h f

-- The inventory that the daemon reads of an agent's message holds, in order, every interface
-- that the agent has configured, or that wg show finds where it has none, for which wg show
-- gives a key, as it is shown or configured, and no other.
pub meta_of-NamedShown :
    (env : Machine) (c : Config) (node_id : String) (h : Host)
    → let (configured, names) = for_each configure c.wireguard ([], []) in
      NamedShown env configured node_id h names
        (wireguard_inventory_from_meta node_id (some (meta_of env c h).1))
unfolding meta_of wireguard_inventory
meta_of-NamedShown env c node_id h =
    let (configured, names) = for_each configure c.wireguard ([], []) in
    subst (NamedShown env configured node_id h names)
      (sym (inventory_from_meta node_id env.platform (wireguard_inventory env c h).1))
      (named_interfaces-Shown env configured node_id h names (configured_names-Filled c.wireguard))
