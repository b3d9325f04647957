-- ===== src/WgConfig.antt =====
-- internal/wgconfig/wgconfig.go: the endpoint of a peer, in a file, in UCI or at run time.
pub mod Search
pub mod Commands
pub mod Terminated
pub mod Lines
pub mod Edit
use Prim.Native.Char.{Char, code}
use Prim.Native.Nat.{ℕ, ◌/◌}
use wireguard_natter_helper.Prelude.{
  if◌then◌else◌, length, take, drop, get_elem?, ◌<>◌, non_empty, ℤ, pos, Result, ok, err,
  with_error, suc, String, Bool, true, false, ◌&&◌, not, Option, none, some, List, ◌∷◌, ◌++◌, ◌==◌,
}
use wireguard_natter_helper.Strings.{trim_space}
use wireguard_natter_helper.Strings.Split.{join}
use wireguard_natter_helper.Strings.Numbers.{itoa}
use wireguard_natter_helper.Host.{Host, Machine, read_file, write_file}
use wireguard_natter_helper.WgConfig.Search.{split_keep_newline, Scan, start_of_file, scan}
use wireguard_natter_helper.WgConfig.Commands.{
  ApplyResult, reload_interface, update_openwrt_uci, wg_set_endpoint,
}

pub record ApplyRequest : Type 0 where
  pub config_type : String
  pub interface : String
  pub peer_public_key : String
  pub endpoint_host : String
  pub endpoint_port : ℤ
  pub config_path : String
  pub reload_method : String
  pub dry_run : Bool

-- `Endpoint = ` and the rest of the line that is written
abbrev pub endpoint_line : String → String
endpoint_line endpoint = "Endpoint = " <> endpoint <> "\n"

abbrev pub up_to_date : String → String → Bool
up_to_date line next = trim_space line == trim_space next

-- The lines that `UpdateWGConf` writes; `none` where the endpoint is there already.
unfoldable pub updated_lines : String → Scan → List String → Option (List String)
updated_lines next found lines = elim found.endpoint_index [
  | some i ↦ elim (get_elem? lines i) [
    | none ↦ none
    | some line ↦
        if up_to_date line next then none else some (take i lines ++ next ∷ drop (suc i) lines)
  ]
  | none ↦
      let i : ℕ = elim found.insert_index [ none ↦ length lines | some j ↦ j ] in
      some (take i lines ++ next ∷ drop i lines)
]

-- `UpdateWGConf`, when the file is read and the peer found
unfoldable pub write_lines :
    Machine → String → String → List String → Host → Host × Result ApplyResult
write_lines env path raw lines h =
    let backup = path <> ".bak." <> itoa (pos (env.now / 1_000_000_000)) in
    let (h1, e1) = write_file env backup raw h in
    let (h2, e2) = write_file env path (join lines) h1 in
    elim e1 [
      | some e ↦ (h1, err e)
      | none ↦ (h2, with_error (record { is_changed = true; message = "updated " <> path }) e2)
    ]

-- `UpdateWGConf`
unfoldable pub update_wg_conf :
    Machine → String → String → String → Bool → Host → Host × Result ApplyResult
update_wg_conf env path key endpoint dry_run h = elim (read_file env path h) [
  | err e ↦ (h, err e)
  | ok raw ↦
      let lines = split_keep_newline raw in
      let found = scan key 0 lines start_of_file in
      if not found.is_matching
      then (h, err "peer public key not found in wg config")
      else elim (updated_lines (endpoint_line endpoint) found lines) [
        | none ↦ (h, ok (record { is_changed = false; message = "endpoint already up to date" }))
        | some next ↦
            if dry_run
            then (
              h,
              ok (record { is_changed = true; message = "dry-run: wg.conf would be updated" }),
            )
            else write_lines env path raw next h
      ]
]

-- The file of an interface, whose name has no slash
abbrev pub conf_path : ApplyRequest → String
conf_path req =
    if req.config_path == "" then "/etc/wireguard/" <> req.interface <> ".conf" else req.config_path

-- The switch on the kind of configuration in `ApplyEndpoint`
unfoldable pub apply_to : Machine → ApplyRequest → Host → Host × Result ApplyResult
apply_to env req h =
    let endpoint = req.endpoint_host <> ":" <> itoa req.endpoint_port in
    if req.config_type == "wg_conf"
    then update_wg_conf env (conf_path req) req.peer_public_key endpoint req.dry_run h
    else if req.config_type == "openwrt_uci"
    then update_openwrt_uci env req.interface req.peer_public_key req.endpoint_host
        req.endpoint_port req.dry_run h
    else if req.config_type == "runtime"
    then wg_set_endpoint env req.interface req.peer_public_key endpoint req.dry_run h
    else (h, err ("unsupported config_type: " <> req.config_type))

-- `ApplyEndpoint`
unfoldable pub apply_endpoint : Machine → ApplyRequest → Host → Host × Result ApplyResult
apply_endpoint env req h =
    let (h1, applied) = apply_to env req h in
    let (h2, e) = reload_interface env req.interface req.reload_method h1 in
    elim applied [
      | err x ↦ (h1, err x)
      | ok result ↦
          if not req.dry_run && non_empty req.reload_method && not (req.reload_method == "none")
          then (h2, with_error result e)
          else (h1, ok result)
    ]
