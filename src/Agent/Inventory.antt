-- ===== src/Agent/Inventory.antt =====
-- `meta` and `wireGuardInventory` of internal/agent/agent.go: what the agent tells of its interfaces,
-- from the programs that it asks.
pub mod Reported
pub mod Shown
use wireguard_natter_helper.Prelude.{
  if◌then◌else◌, for_each, ◌<>◌, ℤ, pos, is_positive, Result, ok, err, String, Option, none, some,
  List, [], ◌∷◌, ◌++◌, ◌==◌,
}
use wireguard_natter_helper.Json.{Json, null, num, str, arr, obj, Items, nil, cons, Fields, object}
use wireguard_natter_helper.Map.{Map, get_or, set}
use wireguard_natter_helper.Protocol.{version}
use wireguard_natter_helper.Strings.{trim_space}
use wireguard_natter_helper.Strings.Split.{words, fields}
use wireguard_natter_helper.Strings.Numbers.{parse_int}
use wireguard_natter_helper.Host.{Host, Machine, start}
use wireguard_natter_helper.Agent.State.{LocalInterface, zero_interface, Config}

-- The output of `wg show`, as `exec.Command(...).Output()` gives it
unfoldable pub wg_show : Machine → List String → Host → Host × Result String
wg_show env words h =
    let (h', (out, e)) = start env ("wg" ∷ "show" ∷ words) h in
    (h', elim e [ some x ↦ err x | none ↦ ok out ])

-- `wgShowString`
unfoldable pub wg_show_string : Machine → String → String → Host → Host × Result String
wg_show_string env interface name h =
    let (h', shown) = wg_show env (interface ∷ name ∷ []) h in
    (
      h',
      elim shown [
        | err x ↦ err ("wg show " <> interface <> " " <> name <> " failed: " <> x)
        | ok out ↦ ok (trim_space out)
      ],
    )

-- `wgShowInt`, whose errors are dropped
unfoldable pub wg_show_int : Machine → String → String → Host → Host × ℤ
wg_show_int env interface name h =
    let (h', shown) = wg_show_string env interface name h in
    (
      h',
      elim shown [
        | err x ↦ pos 0
        | ok value ↦ elim (parse_int value) [ none ↦ pos 0 | some n ↦ n ]
      ],
    )

-- `wgInterfaces`, `wgPeers`, whose errors are dropped: the words of the output, which
-- `parseWhitespaceList` takes as they are
unfoldable pub wg_list : Machine → List String → Host → Host × List String
wg_list env names h =
    let (h', shown) = wg_show env names h in (h', elim shown [ err x ↦ [] | ok out ↦ fields out ])

-- A slice of strings as JSON: nil is a null.
unfoldable pub string_items : List String → Items
string_items [] = nil
string_items (s ∷ ss) = cons (str s) (string_items ss)

abbrev pub strings_value : List String → Json
strings_value [] = null
strings_value (s ∷ ss) = arr (string_items (s ∷ ss))

abbrev some_text : String → String → List (String × Json)
some_text key value = if value == "" then [] else (key, str value) ∷ []

-- The payload of one interface
unfoldable pub interface_payload : String → String → List String → ℤ → LocalInterface → Fields
interface_payload name public_key peers listen_port item = object (
    ("name", str name)
    ∷ ("public_key", str public_key)
    ∷ ("peers", strings_value peers)
    ∷ ((if is_positive listen_port then ("listen_port", num listen_port) ∷ [] else [])
        ++ (some_text "config_type" item.config_type ++ some_text "config_path" item.config_path)))

-- The loop's body: nothing for an interface without a public key
unfoldable pub shown_interface : Machine → String → LocalInterface → Host → Host × Option Fields
shown_interface env name item h =
    let (h1, key) = wg_show_string env name "public-key" h in
    let asked = wg_show_int env name "listen-port" h1 in
    let (h2, port) : Host × ℤ =
      if is_positive item.listen_port then (h1, item.listen_port) else asked in
    let (h3, peers) = wg_list env (name ∷ "peers" ∷ []) h2 in
    elim key [
      | err e ↦ (h1, none)
      | ok public_key ↦
          if public_key == ""
          then (h1, none)
          else (h3, some (interface_payload name public_key peers port item))
    ]

-- The loop over the names
unfoldable pub shown_interfaces :
    Machine → Map LocalInterface → List String → Host → Host × List Fields
shown_interfaces env configured [] h = (h, [])
shown_interfaces env configured (name ∷ names) h =
    let (h1, shown) = shown_interface env name (get_or name zero_interface configured) h in
    let (h2, later) = shown_interfaces env configured names h1 in
    (h2, elim shown [ none ↦ later | some payload ↦ payload ∷ later ])

-- The configured interfaces by name, and their names
abbrev pub configure :
    LocalInterface → Map LocalInterface × List String → Map LocalInterface × List String
configure item (m, names) =
    if item.name == "" then (m, names) else (set item.name item m, names ++ item.name ∷ [])

-- `wireGuardInventory`
unfoldable pub wireguard_inventory : Machine → Config → Host → Host × List Fields
unfolding for_each shown_interfaces
wireguard_inventory env c h =
    let (configured, names) = for_each configure c.wireguard ([], []) in
    let (h1, discovered) = wg_list env ("interfaces" ∷ []) h in
    elim names [
      | [] ↦ shown_interfaces env configured discovered h1
      | name ∷ others ↦ shown_interfaces env configured (name ∷ others) h
    ]

unfoldable pub object_items : List Fields → Items
object_items [] = nil
object_items (o ∷ os) = cons (obj o) (object_items os)

-- `meta`
unfoldable pub meta_of : Machine → Config → Host → Host × Fields
unfolding object_items wireguard_inventory
meta_of env c h =
    let (h', inventory) = wireguard_inventory env c h in
    (
      h',
      object (
          ("platform", str env.platform) ∷ ("agent_version", str version) ∷ (elim inventory [
            | [] ↦ []
            | o ∷ os ↦ ("wireguard", arr (object_items (o ∷ os))) ∷ []
          ])),
    )
