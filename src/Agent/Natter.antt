-- ===== src/Agent/Natter.antt =====
-- `runNatter` and `ParseNatterOutput` of internal/agent/agent.go: WireGuard is stopped, the command
-- that finds the public endpoint runs, and WireGuard is started again.
pub mod Course
use wireguard_natter_helper.Prelude.{
  if◌then◌else◌, ◌<>◌, ℤ, pos, int_eq, Result, ok, err, Error, String, Bool, true, false, not,
  Option, none, some, List, [], ◌∷◌, reverse, ◌==◌,
}
use wireguard_natter_helper.Json.{str, Fields, lookup, string_value, set_field}
use wireguard_natter_helper.Strings.{trim_space}
use wireguard_natter_helper.Strings.Split.{split_lines}
use wireguard_natter_helper.Strings.Numbers.{seconds, exceeds}
use wireguard_natter_helper.Host.{Host, Machine, start}
use wireguard_natter_helper.WgConfig.Commands.{stop_interface, start_interface}
use wireguard_natter_helper.Agent.State.{NatterConfig, Config}
use wireguard_natter_helper.Agent.Remote.{natter_config_for_interface, wireguard_control_method}

-- The lines of an output, last first: the first that is JSON
unfoldable pub last_payload : Machine → List String → Result (Option Fields)
last_payload env [] = err "natter command must print a JSON result line"
last_payload env (line ∷ lines) =
    let trimmed = trim_space line in
    let rest = last_payload env lines in
    if trimmed == "" then rest else elim (env.decode trimmed) [ none ↦ rest | some p ↦ ok p ]

-- `ParseNatterOutput`; a nil map is `none`.
unfoldable pub parse_natter_output : Machine → String → Result (Option Fields)
unfolding last_payload split_lines
parse_natter_output env out = last_payload env (reverse (split_lines out))

-- `restartWireGuardIfNeeded`, without the delay
unfoldable pub restart_wireguard_if_needed : Machine → String → String → Bool → Host → Host × Error
restart_wireguard_if_needed env interface method stopped h =
    let (h', e) = start_interface env interface method h in
    let failed = λ (x : String). "start WireGuard interface " <> interface <> " failed: " <> x in
    if stopped then (h', elim e [ none ↦ none | some x ↦ some (failed x) ]) else (h, none)

-- What `runNatter` returns, and a write into a nil map, which panics.
pub data Run : Type 0 where
  failed : String → Run
  crashed : Run
  completed : Fields → Run

-- 90 seconds where none are given
abbrev pub timeout_of : NatterConfig → ℤ
timeout_of natter =
    let given = seconds natter.timeout_seconds in
    if int_eq given (pos 0) then seconds (pos 90) else given

-- A program under a context that expires after the time given; it is not started after that.
unfoldable pub start_within : Machine → ℤ → List String → Host → Host × (String × Error)
start_within env timeout command h =
    if exceeds timeout (pos 0)
    then start env command h
    else (h, ("", some "context deadline exceeded"))

abbrev additionally : Error → String
additionally none = ""
additionally (some e) = "; additionally " <> e

-- What `runNatter` makes of the output, the failure and the error of the restart
unfoldable pub judged : Machine → String → String × Error → Error → Run
judged env interface (out, some x) restarted =
    failed ("natter command failed: " <> x <> ": " <> out <> additionally restarted)
judged env interface (out, none) restarted = elim (parse_natter_output env out) [
  | err x ↦ failed (x <> additionally restarted)
  | ok payload ↦ elim restarted [
    | some x ↦ failed x
    | none ↦ elim payload [
      | none ↦ crashed
      | some result ↦ completed (set_field "server_interface" (str interface) result)
    ]
  ]
]

-- `runNatter` from the command on
unfoldable pub run_and_restart : Machine → String → NatterConfig → String → Bool → Host → Host × Run
run_and_restart env interface natter method stopped h =
    let (h1, output) = start_within env (timeout_of natter) natter.command h in
    let (h2, restarted) = restart_wireguard_if_needed env interface method stopped h1 in
    (h2, judged env interface output restarted)

-- `runNatter` from the stopping of WireGuard on
unfoldable pub stop_and_run : Machine → Config → String → NatterConfig → Host → Host × Run
stop_and_run env c interface natter h =
    let failure =
      λ (x : String). failed ("stop WireGuard interface " <> interface <> " failed: " <> x) in
    if not natter.stop_wireguard
    then run_and_restart env interface natter "" false h
    else elim (wireguard_control_method interface c) [
      | err e ↦ (h, failed e)
      | ok method ↦
          let (h1, e) = stop_interface env interface method h in
          let (h2, r) = run_and_restart env interface natter method true h1 in
          elim e [ some x ↦ (h1, failure x) | none ↦ (h2, r) ]
    ]

-- `runNatter`
unfoldable pub run_natter : Machine → Fields → Config → Host → Host × Run
run_natter env payload c h =
    let interface = string_value (lookup "server_interface" payload) in
    let natter = natter_config_for_interface interface c in
    if interface == "" then (h, failed "server_interface is required") else elim natter.command [
      | [] ↦ (h, failed "natter.command is not configured")
      | _ ∷ _ ↦ stop_and_run env c interface natter h
    ]
