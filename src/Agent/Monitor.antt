-- ===== src/Agent/Monitor.antt =====
-- `runMonitor` and `probePeer` of internal/agent/agent.go: a client watches the handshakes of its
-- peers and reports those that are lost or come back. The quotes of an error's text are left out.
pub mod Streak
pub mod Reports
pub mod Asked
use wireguard_natter_helper.Prelude.{
  leb, if◌then◌else◌, ◌<>◌, ℤ, pos, negsuc, Result, ok, err, ℕ, zero, suc, ◌*◌, String, Bool, true,
  false, ◌&&◌, not, none, some, List, [], ◌∷◌, ◌++◌, ◌==◌,
}
use wireguard_natter_helper.Json.{Json, num, str, Fields, object}
use wireguard_natter_helper.Map.{Map, get?, get_or, set}
use wireguard_natter_helper.Rpc.{MonitorPeer}
use wireguard_natter_helper.Strings.{trim_space}
use wireguard_natter_helper.Strings.Split.{split_lines, fields}
use wireguard_natter_helper.Strings.Numbers.{parse_int, seconds, difference, exceeds, whole_seconds}
use wireguard_natter_helper.Host.{Host, Machine, start}
use wireguard_natter_helper.Agent.State.{MonitorConfig}
use wireguard_natter_helper.Agent.Handle.{Report}

-- The loop of `ParseLatestHandshakes`
unfoldable pub handshake_lines : List String → Map ℤ → Result (Map ℤ)
handshake_lines [] m = ok m
handshake_lines (line ∷ lines) m =
    let trimmed = trim_space line in
    let skipped = handshake_lines lines m in
    if trimmed == "" then skipped else elim (fields trimmed) [
      | peer ∷ time ∷ [] ↦ elim (parse_int time) [
        | none ↦ err ("invalid latest-handshake timestamp for peer " <> peer)
        | some at ↦ handshake_lines lines (set peer at m)
      ]
      | _ ↦ err ("invalid latest-handshakes line: " <> trimmed)
    ]

-- `ParseLatestHandshakes`
unfoldable pub parse_latest_handshakes : String → Result (Map ℤ)
unfolding handshake_lines split_lines
parse_latest_handshakes raw = handshake_lines (split_lines raw) []

-- `latestHandshakes`
unfoldable pub latest_handshakes : Machine → String → Host → Host × Result (Map ℤ)
latest_handshakes env interface h =
    let (h', (out, e)) = start env ("wg" ∷ "show" ∷ interface ∷ "latest-handshakes" ∷ []) h in
    (
      h',
      elim e [
        | some x ↦ err ("wg show " <> interface <> " latest-handshakes failed: " <> x)
        | none ↦ parse_latest_handshakes out
      ],
    )

-- Durations are in nanoseconds.
pub record ProbeStatus : Type 0 where
  pub last_handshake : ℤ
  pub age : ℤ
  pub is_stale : Bool

abbrev pub never : ProbeStatus
never = record { last_handshake = pos 0; age = pos 9_223_372_036_854_775_807; is_stale = true }

-- The status of a handshake at a time in nanoseconds since 1970
abbrev pub status_of : ℕ → ℤ → ℤ → ProbeStatus
status_of now stale_after (negsuc at) = never
status_of now stale_after (pos zero) = never
status_of now stale_after (pos (suc at)) =
    let age = difference now (suc at * 1_000_000_000) in
    record { last_handshake = pos (suc at); age = age; is_stale = exceeds age stale_after }

-- `probePeer`
unfoldable pub probe_peer : Machine → ℤ → MonitorPeer → Host → Host × Result ProbeStatus
probe_peer env stale_after peer h =
    let (h', handshakes) = latest_handshakes env peer.interface h in
    (
      h',
      elim handshakes [
        | err e ↦ err e
        | ok times ↦ elim (get? peer.peer_public_key times) [
          | none ↦ ok never
          | some at ↦ ok (status_of env.now stale_after at)
        ]
      ],
    )

-- The loop's maps
pub record Watch : Type 0 where
  pub fail_counts : Map ℕ
  pub unreachable : Map Bool

abbrev pub new_watch : Watch
new_watch = record { fail_counts = []; unreachable = [] }

abbrev pub monitor_key : MonitorPeer → String
monitor_key peer =
    if peer.binding_id == "" then peer.interface <> "/" <> peer.peer_public_key else peer.binding_id

abbrev peer_fields : MonitorPeer → ProbeStatus → List (String × Json) → Fields
peer_fields peer status more = object (
    ("binding_id", str peer.binding_id)
    ∷ ("interface", str peer.interface)
    ∷ ("peer_public_key", str peer.peer_public_key)
    ∷ ("server_node_id", str peer.server_node_id)
    ∷ ("server_interface", str peer.server_interface)
    ∷ ("last_handshake", num status.last_handshake)
    ∷ more)

-- The report "peer.unreachable"
abbrev pub lost_report : ℤ → MonitorPeer → ProbeStatus → Report
lost_report stale_after peer status = record {
  report_type = "peer.unreachable";
  command_id = "";
  payload = peer_fields peer status (
      ("age_seconds", num (whole_seconds status.age))
      ∷ ("stale_seconds", num (whole_seconds stale_after))
      ∷ []);
}

-- The report "peer.recovered"
abbrev pub found_report : MonitorPeer → ProbeStatus → Report
found_report peer status = record {
  report_type = "peer.recovered";
  command_id = "";
  payload = peer_fields peer status [];
}

-- The body of the loop over the peers, after the probe
unfoldable pub observe : ℕ → ℤ → MonitorPeer → Result ProbeStatus → Watch → Watch × List Report
observe threshold stale_after peer (err e) w = (w, [])
observe threshold stale_after peer (ok status) w =
    let key : String = monitor_key peer in
    let failures = suc (get_or key 0 w.fail_counts) in
    let counted : Watch = record w { fail_counts = set key failures w.fail_counts } in
    let was_lost = get_or key false w.unreachable in
    if status.is_stale
    then (if leb threshold failures && not was_lost
        then (
          record counted { unreachable = set key true w.unreachable },
          lost_report stale_after peer status ∷ [],
        )
        else (counted, []))
    else (
      record { fail_counts = set key 0 w.fail_counts; unreachable = set key false w.unreachable },
      if was_lost then found_report peer status ∷ [] else [],
    )

-- The loop over the peers at one tick
unfoldable pub check_peers :
    Machine → ℕ → ℤ → List MonitorPeer → Host → Watch → Host × (Watch × List Report)
check_peers env threshold stale_after [] h w = (h, (w, []))
check_peers env threshold stale_after (peer ∷ peers) h w =
    let (h1, status) = probe_peer env stale_after peer h in
    let (w1, reports) = observe threshold stale_after peer status w in
    let (h2, (w2, later)) = check_peers env threshold stale_after peers h1 w1 in
    (h2, (w2, reports ++ later))

-- Three where none is given
abbrev pub threshold_of : ℤ → ℕ
threshold_of (pos zero) = 3
threshold_of (pos (suc n)) = suc n
threshold_of (negsuc n) = 3

-- 180 seconds where none are given
abbrev pub stale_after_of : ℤ → ℤ
stale_after_of given =
    let duration = seconds given in if exceeds duration (pos 0) then duration else seconds (pos 180)

-- The ticks at which the loop looks, each with the machine and the agent's peers at that time
unfoldable pub monitor_ticks :
    ℕ → ℤ → List (Machine × List MonitorPeer) → Host → Watch → Host × (Watch × List Report)
unfolding check_peers
monitor_ticks threshold stale_after [] h w = (h, (w, []))
monitor_ticks threshold stale_after ((env, peers) ∷ ticks) h w =
    let (h1, (w1, reports)) = check_peers env threshold stale_after peers h w in
    let (h2, (w2, later)) = monitor_ticks threshold stale_after ticks h1 w1 in
    (h2, (w2, reports ++ later))

-- `runMonitor`: what it sends in a number of ticks
unfoldable pub run_monitor : MonitorConfig → List (Machine × List MonitorPeer) → Host → List Report
unfolding monitor_ticks
run_monitor config ticks h =
    let run =
      monitor_ticks (threshold_of config.fail_threshold) (stale_after_of config.stale_seconds) ticks
        h new_watch in
    run.1.1
