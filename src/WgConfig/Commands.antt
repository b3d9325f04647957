-- ===== src/WgConfig/Commands.antt =====
-- The programs that internal/wgconfig/wgconfig.go runs: uci, wg, ifup, wg-quick and systemctl.
use Prim.Native.Char.{Char, code}
use Prim.Native.String as Text
use text.Mathlib.Text.{starts_with}
use wireguard_natter_helper.Prelude.{
  leb, nat_eq, if◌then◌else◌, ◌<>◌, ℤ, Result, ok, err, Error, with_error, String, Bool, true, ◌&&◌,
  ◌||◌, none, some, List, [], ◌∷◌, map, ◌==◌,
}
use wireguard_natter_helper.Strings.{trim, trim_space, trim_prefix, trim_suffix, contains}
use wireguard_natter_helper.Strings.Split.{split_lines, without_return, cut}
use wireguard_natter_helper.Strings.Numbers.{itoa}
use wireguard_natter_helper.Host.{Host, Machine, start}

pub record ApplyResult : Type 0 where
  pub is_changed : Bool
  pub message : String

-- `strings.Join(words, " ")`
unfoldable pub spaced : List String → String
spaced [] = ""
spaced (w ∷ []) = w
spaced (w ∷ v ∷ ws) = w <> " " <> spaced (v ∷ ws)

-- `run`
unfoldable pub run : Machine → List String → Host → Host × Error
run env command h =
    let (h', (out, e)) = start env command h in
    (
      h',
      elim e [
        | none ↦ none
        | some x ↦ some (spaced command <> " failed: " <> x <> ": " <> trim_space out)
      ],
    )

-- `ReloadInterface`
unfoldable pub reload_interface : Machine → String → String → Host → Host × Error
reload_interface env interface method h =
    if method == "ifup"
    then run env ("ifup" ∷ interface ∷ []) (run env ("ifdown" ∷ interface ∷ []) h).0
    else if method == "wg-quick-restart"
    then run env ("systemctl" ∷ "restart" ∷ ("wg-quick@" <> interface) ∷ []) h
    else if method == "network-reload"
    then run env ("/etc/init.d/network" ∷ "reload" ∷ []) h
    else (h, some ("unsupported reload_method: " <> method))

abbrev pub unsupported_control : String → Error
unsupported_control method = some ("unsupported wireguard_control_method: " <> method)

-- `StopInterface`
unfoldable pub stop_interface : Machine → String → String → Host → Host × Error
stop_interface env interface method h =
    if method == "ifup" || method == "openwrt"
    then run env ("ifdown" ∷ interface ∷ []) h
    else if method == "wg-quick"
    then run env ("wg-quick" ∷ "down" ∷ interface ∷ []) h
    else if method == "systemd"
    then run env ("systemctl" ∷ "stop" ∷ ("wg-quick@" <> interface) ∷ []) h
    else (h, unsupported_control method)

-- `StartInterface`
unfoldable pub start_interface : Machine → String → String → Host → Host × Error
start_interface env interface method h =
    if method == "ifup" || method == "openwrt"
    then run env ("ifup" ∷ interface ∷ []) h
    else if method == "wg-quick"
    then run env ("wg-quick" ∷ "up" ∷ interface ∷ []) h
    else if method == "systemd"
    then run env ("systemctl" ∷ "start" ∷ ("wg-quick@" <> interface) ∷ []) h
    else (h, unsupported_control method)

abbrev is_quote : Char → Bool
is_quote c = nat_eq (code c) 39 || nat_eq (code c) 34

-- The search through the lines of `uci show network`. A line that `bufio.Scanner` cannot hold
-- ends it.
unfoldable pub find_section : String → String → List String → Result String
find_section prefix key [] = err "peer public key not found in OpenWrt UCI network config"
find_section prefix key (line ∷ lines) =
    let rest = find_section prefix key lines in
    let (left, right) = cut (λ c. nat_eq (code c) 61) line in
    let is_key = starts_with line prefix && contains line ".public_key=" in
    if leb 65_536 (Text.len line)
    then err "bufio.Scanner: token too long"
    else if is_key && trim is_quote right == key
    then ok (trim_prefix (trim_suffix left ".public_key") "network.")
    else rest

-- `findOpenWrtPeerSection`
unfoldable pub find_openwrt_peer_section : Machine → String → String → Host → Host × Result String
find_openwrt_peer_section env interface key h =
    let (h', (out, e)) = start env ("uci" ∷ "show" ∷ "network" ∷ []) h in
    (
      h',
      elim e [
        | some x ↦ err x
        | none ↦
            let lines = map without_return (split_lines out) in
            find_section ("network.@wireguard_" <> interface <> "[") key lines
      ],
    )

-- Programs that run one after the other, as long as they succeed.
unfoldable pub run_all : Machine → List (List String) → Host → Host × Error
run_all env [] h = (h, none)
run_all env (command ∷ commands) h =
    let (h', e) = run env command h in
    let rest = run_all env commands h' in elim e [ some x ↦ (h', some x) | none ↦ rest ]

-- The three calls of uci in `UpdateOpenWrtUCI`
abbrev pub uci_commands : String → String → ℤ → List (List String)
uci_commands section host port =
    ("uci" ∷ "set" ∷ ("network." <> section <> ".endpoint_host=" <> host) ∷ [])
    ∷ ("uci" ∷ "set" ∷ ("network." <> section <> ".endpoint_port=" <> itoa port) ∷ [])
    ∷ ("uci" ∷ "commit" ∷ "network" ∷ [])
    ∷ []

-- `UpdateOpenWrtUCI`
unfoldable pub update_openwrt_uci :
    Machine → String → String → String → ℤ → Bool → Host → Host × Result ApplyResult
update_openwrt_uci env interface key host port dry_run h =
    let dry : String = "dry-run: would update OpenWrt " <> interface <> " peer endpoint" in
    let (h1, section) = find_openwrt_peer_section env interface key h in
    if dry_run then (h, ok (record { is_changed = true; message = dry })) else elim section [
      | err e ↦ (h1, err e)
      | ok name ↦
          let (h2, e) = run_all env (uci_commands name host port) h1 in
          let done : String = "updated OpenWrt section " <> name in
          (h2, with_error (record { is_changed = true; message = done }) e)
    ]

-- `WGSetEndpoint`
unfoldable pub wg_set_endpoint :
    Machine → String → String → String → Bool → Host → Host × Result ApplyResult
wg_set_endpoint env interface key endpoint dry_run h =
    let dry : String = "dry-run: runtime endpoint would be updated" in
    let (h1, e) =
      run env ("wg" ∷ "set" ∷ interface ∷ "peer" ∷ key ∷ "endpoint" ∷ endpoint ∷ []) h in
    if dry_run
    then (h, ok (record { is_changed = true; message = dry }))
    else (h1, with_error (record { is_changed = true; message = "updated runtime endpoint" }) e)
