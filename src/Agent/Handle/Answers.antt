-- ===== src/Agent/Handle/Answers.antt =====
-- What the agent of internal/agent/agent.go reports on a command.
use wireguard_natter_helper.Prelude.{
  All, Result, ok, err, Error, split_if, split_option, split_result, String, ◌≡◌, refl, ap, subst,
  ◌⊎◌, inl, inr, Bool, true, false, not, Option, none, some, List, [], ◌∷◌, ◌++◌, ◌==◌,
}
use wireguard_natter_helper.Json.{bool, str, Fields, lookup, string_value, object, lookup-set_field}
use wireguard_natter_helper.Protocol.{Command}
use wireguard_natter_helper.Host.{Host, Machine}
use wireguard_natter_helper.WgConfig.Commands.{ApplyResult, stop_interface}
use wireguard_natter_helper.Agent.State.{NatterConfig, Config}
use wireguard_natter_helper.Agent.Remote.{natter_config_for_interface, wireguard_control_method}
use wireguard_natter_helper.Agent.Natter.{
  parse_natter_output, Run, failed, crashed, completed, judged, run_and_restart, stop_and_run,
  run_natter,
}
use wireguard_natter_helper.Agent.Handle.{
  Report, action_result, run_reports, apply_reports, handle_command,
}

abbrev payload_interface : Command → String
payload_interface cmd = string_value (lookup "server_interface" cmd.payload)

-- A result of Natter for the interface that the command names
abbrev pub IsResultFor : Command → Report → Type 0
IsResultFor cmd r =
    (r.report_type ≡ "natter.result")
    × (string_value (lookup "server_interface" r.payload)
        ≡ string_value (lookup "server_interface" cmd.payload))

-- The last report answers the command, and says that it succeeded if there is one before it. That
-- one is a result of Natter.
pub record Answered (cmd : Command) (reports : List Report) : Type 0 where
  pub results : List Report
  pub answer : Report
  pub sent : reports ≡ results ++ answer ∷ []
  pub is_answer : answer.report_type ≡ "action.result"
  pub names_it : answer.command_id ≡ cmd.command_id
  pub succeeded : (results ≡ []) ⊎ (lookup "ok" answer.payload ≡ bool true)
  pub before : All (IsResultFor cmd) results

single :
    (cmd : Command) (answer : Report)
    → answer.report_type ≡ "action.result"
    → answer.command_id ≡ cmd.command_id
    → Answered cmd (answer ∷ [])
single cmd answer is_answer names_it = record {
  results = [];
  answer = answer;
  sent = refl;
  is_answer = is_answer;
  names_it = names_it;
  succeeded = inl refl;
  before = tt;
}

-- What may be sent: nothing if the agent crashed
abbrev MaybeAnswered : Command → Option (List Report) → Type 0
MaybeAnswered cmd none = Unit
MaybeAnswered cmd (some reports) = Answered cmd reports

-- What a finished run holds
abbrev NamesInterface : String → Run → Type 0
NamesInterface interface (completed result) =
    string_value (lookup "server_interface" result) ≡ interface
NamesInterface interface _ = Unit

run_reports-Answered :
    (cmd : Command) (r : Run)
    → NamesInterface (payload_interface cmd) r
    → MaybeAnswered cmd (run_reports cmd r)
unfolding run_reports lookup object
run_reports-Answered cmd (failed e) n = single cmd _ refl refl
run_reports-Answered cmd crashed n = tt
run_reports-Answered cmd (completed result) n = record {
  results = record { report_type = "natter.result"; command_id = ""; payload = result } ∷ [];
  answer = action_result cmd (("ok", bool true) ∷ ("detail", str "natter completed") ∷ []);
  sent = refl;
  is_answer = refl;
  names_it = refl;
  succeeded = inr refl;
  before = ((refl, n), tt);
}

apply_reports-Answered :
    (cmd : Command) (applied : Result ApplyResult) → Answered cmd (apply_reports cmd applied)
unfolding apply_reports
apply_reports-Answered cmd (err e) = single cmd _ refl refl
apply_reports-Answered cmd (ok res) = single cmd _ refl refl

module _ (env : Machine) (interface : String) where
  abbrev HostNames : Host × Run → Type 0
  HostNames o = NamesInterface interface o.1

  judged-NamesInterface :
      (output : String × Error) (restarted : Error)
      → NamesInterface interface (judged env interface output restarted)
  unfolding judged
  judged-NamesInterface (out, some x) restarted = tt
  judged-NamesInterface (out, none) restarted =
      let N = NamesInterface interface in
      split_result N (parse_natter_output env out) (λ _ _. tt)
        (λ payload _.
          split_option N restarted
            (λ _.
              split_option N payload (λ _. tt)
                (λ result _.
                  ap string_value (lookup-set_field "server_interface" (str interface) result)))
            (λ _ _. tt))

  run_and_restart-Names :
      (natter : NatterConfig) (method : String) (stopped : Bool) (h : Host)
      → HostNames (run_and_restart env interface natter method stopped h)
  unfolding run_and_restart
  run_and_restart-Names natter method stopped h = judged-NamesInterface _ _

  stop_and_run-Names :
      (c : Config) (natter : NatterConfig) (h : Host)
      → HostNames (stop_and_run env c interface natter h)
  unfolding stop_and_run
  stop_and_run-Names c natter h =
      split_if HostNames (not natter.stop_wireguard) (λ _. run_and_restart-Names natter "" false h)
        (λ _.
          split_result HostNames (wireguard_control_method interface c) (λ _ _. tt)
            (λ method _.
              let stopped = stop_interface env interface method h in
              split_option HostNames stopped.1
                (λ _. run_and_restart-Names natter method true stopped.0) (λ _ _. tt)))

run_natter-NamesInterface :
    (env : Machine) (payload : Fields) (c : Config) (h : Host)
    → NamesInterface
        (string_value (lookup "server_interface" payload))
        (run_natter env payload c h).1
unfolding run_natter
run_natter-NamesInterface env payload c h =
    let interface = string_value (lookup "server_interface" payload) in
    let natter = natter_config_for_interface interface c in
    let Q = λ (o : Host × Run). NamesInterface interface o.1 in
    split_if Q (interface == "") (λ _. tt)
      (λ _.
        elim natter.command
          as (λ command. Q (elim command [
            | [] ↦ (h, failed "natter.command is not configured")
            | _ ∷ _ ↦ stop_and_run env c interface natter h
          ])) [ [] ↦ tt | _ ∷ _ ↦ stop_and_run-Names env interface c natter h ])

-- Unless the agent crashes, it ends its reports on a command with one result that names the
-- command; at most results of Natter for the command's interface come before it, and then it
-- says that the command succeeded.
pub handle_command-Answered :
    (env : Machine) (cmd : Command) (c : Config) (h h' : Host) (reports : List Report)
    → handle_command env cmd c h ≡ (h', some reports)
    → Answered cmd reports
unfolding handle_command
handle_command-Answered env cmd c h h' reports e =
    let Q = λ (o : Host × Option (List Report)). MaybeAnswered cmd o.1 in
    subst Q e (
      split_if Q (cmd.action == "natter.run")
        (λ _. run_reports-Answered cmd _ (run_natter-NamesInterface env cmd.payload c h))
        (λ _.
          split_if Q (cmd.action == "endpoint.apply") (λ _. apply_reports-Answered cmd _)
            (λ _. single cmd _ refl refl)))
