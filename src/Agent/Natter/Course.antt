-- ===== src/Agent/Natter/Course.antt =====
-- Which programs `runNatter` of internal/agent/agent.go starts, and in which order.
use mathlib.Core.List.{append-nil, append_assoc}
use wireguard_natter_helper.Prelude.{
  if◌then◌else◌, Bool-cases, Option-cases, is_some, ◌<>◌, ℤ, pos, ok, Error, split_if, split_option,
  Result-cases, String, ◌≡◌, refl, sym, ap, ◌∙◌, subst, ◌⊎◌, inl, inr, true, false, ◌||◌, Option,
  none, some, List, [], ◌∷◌, ◌++◌, arith, ◌==◌,
}
use wireguard_natter_helper.Json.{Fields, lookup, string_value}
use wireguard_natter_helper.Strings.Numbers.{exceeds}
use wireguard_natter_helper.Host.{Host, Machine, start}
use wireguard_natter_helper.WgConfig.Commands.{
  run, unsupported_control, stop_interface, start_interface,
}
use wireguard_natter_helper.Agent.State.{NatterConfig, Config}
use wireguard_natter_helper.Agent.Remote.{natter_config_for_interface, wireguard_control_method}
use wireguard_natter_helper.Agent.Natter.{
  restart_wireguard_if_needed, Run, failed, timeout_of, start_within, run_and_restart, stop_and_run,
  run_natter,
}

-- The programs that stop and start an interface
abbrev pub control_commands : String → String → Option (List String × List String)
control_commands interface method =
    if method == "ifup" || method == "openwrt"
    then some ("ifdown" ∷ interface ∷ [], "ifup" ∷ interface ∷ [])
    else if method == "wg-quick"
    then some ("wg-quick" ∷ "down" ∷ interface ∷ [], "wg-quick" ∷ "up" ∷ interface ∷ [])
    else if method == "systemd"
    then some (
      "systemctl" ∷ "stop" ∷ ("wg-quick@" <> interface) ∷ [],
      "systemctl" ∷ "start" ∷ ("wg-quick@" <> interface) ∷ [],
    )
    else none

-- The command, or nothing when its time is up before it starts
abbrev pub IsAttempt : List String → List (List String) → Type 0
IsAttempt command middle = (middle ≡ []) ⊎ (middle ≡ command ∷ [])

-- All programs that have run after a call, from those that ran before it. WireGuard is not stopped,
-- or stopping it fails and is the last program, or it is stopped and the last program starts it.
pub data Course (env : Machine) (interface : String) (command : List String)
    (before : List (List String)) : List (List String) → Type 0 where
  untouched :
      {after : List (List String)} (middle : List (List String))
      → IsAttempt command middle
      → after ≡ before ++ middle
      → Course env interface command before after
  not_stopped :
      {after : List (List String)} (method : String) (stop restart : List String)
      → control_commands interface method ≡ some (stop, restart)
      → is_some (env.answer before stop).1 ≡ true
      → after ≡ before ++ stop ∷ []
      → Course env interface command before after
  restarted :
      {after : List (List String)} (method : String) (stop restart : List String)
      → (middle : List (List String)) → control_commands interface method ≡ some (stop, restart)
      → is_some (env.answer before stop).1 ≡ false
      → IsAttempt command middle
      → after ≡ (before ++ stop ∷ []) ++ (middle ++ restart ∷ [])
      → Course env interface command before after

module _ (env : Machine) (interface : String) where
  start_within-ran :
      (timeout : ℤ) (command : List String) (h : Host)
      → (middle : List (List String)) × (IsAttempt command middle
          × ((start_within env timeout command h).0.ran ≡ h.ran ++ middle))
  unfolding start_within start
  start_within-ran timeout command h = elim (Bool-cases (exceeds timeout (pos 0))) [
    | inl e ↦ (command ∷ [], (inr refl, rw e refl))
    | inr e ↦ ([], (inl refl, rw e (sym (append-nil h.ran))))
  ]

  stop_interface-control :
      (method : String) (h : Host)
      → stop_interface env interface method h ≡ elim (control_commands interface method) [
        | none ↦ (h, unsupported_control method)
        | some (stop, restart) ↦ run env stop h
      ]
  unfolding stop_interface
  stop_interface-control method h = ground arith

  start_interface-control :
      (method : String) (h : Host)
      → start_interface env interface method h ≡ elim (control_commands interface method) [
        | none ↦ (h, unsupported_control method)
        | some (stop, restart) ↦ run env restart h
      ]
  unfolding start_interface
  start_interface-control method h = ground arith

  start_interface-ran :
      (method : String) (h : Host) (stop restart : List String)
      → control_commands interface method ≡ some (stop, restart)
      → (start_interface env interface method h).0.ran ≡ h.ran ++ restart ∷ []
  unfolding run start
  start_interface-ran method h stop restart e = rw (start_interface-control method h, e) refl

  run_and_restart-ran :
      (natter : NatterConfig) (method : String) (h : Host) (stop restart : List String)
      → control_commands interface method ≡ some (stop, restart)
      → (middle : List (List String)) × (IsAttempt natter.command middle
          × ((run_and_restart env interface natter method true h).0.ran
              ≡ h.ran ++ (middle ++ restart ∷ [])))
  unfolding run_and_restart restart_wireguard_if_needed
  run_and_restart-ran natter method h stop restart e =
      let (middle, (attempt, ran)) = start_within-ran (timeout_of natter) natter.command h in
      let h1 = (start_within env (timeout_of natter) natter.command h).0 in
      (
        middle,
        (
          attempt,
          start_interface-ran method h1 stop restart e
              ∙ ap (λ r. r ++ restart ∷ []) ran
              ∙ append_assoc h.ran middle (restart ∷ []),
        ),
      )

  same-Course : (command : List String) (h : Host) → Course env interface command h.ran h.ran
  same-Course command h = untouched [] (inl refl) (sym (append-nil h.ran))

  run_only-Course :
      (natter : NatterConfig) (h : Host)
      → Course env interface natter.command h.ran
          (run_and_restart env interface natter "" false h).0.ran
  unfolding run_and_restart restart_wireguard_if_needed
  run_only-Course natter h =
      let (middle, (attempt, ran)) = start_within-ran (timeout_of natter) natter.command h in
      untouched middle attempt ran

  -- The programs that have run, after stopping WireGuard gave the host and the error
  abbrev after_stop : NatterConfig → String → Host × Error → List (List String)
  after_stop natter method (h, some x) = h.ran
  after_stop natter method (h, none) = (run_and_restart env interface natter method true h).0.ran

  stop_and_run-ran :
      (c : Config) (natter : NatterConfig) (method : String) (h : Host)
      → wireguard_control_method interface c ≡ ok method
      → natter.stop_wireguard ≡ true
      → (stop_and_run env c interface natter h).0.ran
        ≡ after_stop natter method (stop_interface env interface method h)
  unfolding stop_and_run
  stop_and_run-ran c natter method h m s =
      elim (Option-cases (stop_interface env interface method h).1) [
        | inl e ↦ ground (arith, e, m, s)
        | inr (x, e) ↦ ground (arith, e, m, s)
      ]

  stopped-Course :
      (natter : NatterConfig) (method : String) (h : Host) (stop restart : List String)
      → control_commands interface method ≡ some (stop, restart)
      → Course env interface natter.command h.ran (after_stop natter method (run env stop h))
  unfolding run start
  stopped-Course natter method h stop restart known =
      let h1 : Host = record h { ran = h.ran ++ stop ∷ [] } in
      elim (Option-cases (env.answer h.ran stop).1) [
        | inl e ↦
            let (middle, (attempt, ran)) =
              run_and_restart-ran natter method h1 stop restart known in
            rw e (restarted method stop restart middle known (rw e refl) attempt ran)
        | inr (x, e) ↦ rw e (not_stopped method stop restart known (rw e refl) refl)
      ]

  controlled-Course :
      (c : Config) (natter : NatterConfig) (method : String) (h : Host)
      → wireguard_control_method interface c ≡ ok method
      → natter.stop_wireguard ≡ true
      → Course env interface natter.command h.ran (stop_and_run env c interface natter h).0.ran
  controlled-Course c natter method h m s =
      let Q = λ (o : Host × Error).
        Course env interface natter.command h.ran (after_stop natter method o) in
      subst (Course env interface natter.command h.ran)
        (sym (stop_and_run-ran c natter method h m s))
        (subst Q (sym (stop_interface-control method h)) (
          split_option Q (control_commands interface method) (λ _. same-Course natter.command h)
            (λ commands known. stopped-Course natter method h commands.0 commands.1 known)))

  stop_and_run-Course :
      (c : Config) (natter : NatterConfig) (h : Host)
      → Course env interface natter.command h.ran (stop_and_run env c interface natter h).0.ran
  unfolding stop_and_run
  stop_and_run-Course c natter h = elim (Bool-cases natter.stop_wireguard) [
    | inr s ↦
        subst (Course env interface natter.command h.ran) (ground (arith, s))
          (run_only-Course natter h)
    | inl s ↦ elim (Result-cases (wireguard_control_method interface c)) [
      | inl (e, m) ↦
          subst (Course env interface natter.command h.ran) (ground (arith, s, m))
            (same-Course natter.command h)
      | inr (method, m) ↦ controlled-Course c natter method h m s
    ]
  ]

-- Whatever the programs answer, a run of Natter leaves WireGuard alone, or fails to stop it and
-- starts nothing more, or stops it and, with at most the command in between, starts it again as
-- the last thing.
pub run_natter-Course :
    (env : Machine) (payload : Fields) (c : Config) (h : Host)
    → Course env
        (string_value (lookup "server_interface" payload))
        (natter_config_for_interface (string_value (lookup "server_interface" payload)) c).command
        h.ran
        (run_natter env payload c h).0.ran
unfolding run_natter
run_natter-Course env payload c h =
    let interface = string_value (lookup "server_interface" payload) in
    let natter = natter_config_for_interface interface c in
    let Q = λ (o : Host × Run). Course env interface natter.command h.ran o.0.ran in
    split_if Q (interface == "") (λ _. same-Course env interface natter.command h)
      (λ _.
        elim natter.command
          as (λ command. Q (elim command [
            | [] ↦ (h, failed "natter.command is not configured")
            | _ ∷ _ ↦ stop_and_run env c interface natter h
          ])) [
            | [] ↦ same-Course env interface natter.command h
            | _ ∷ _ ↦ stop_and_run-Course env interface c natter h
          ])
