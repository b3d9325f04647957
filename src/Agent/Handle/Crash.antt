-- ===== src/Agent/Handle/Crash.antt =====
-- When the agent of internal/agent/agent.go crashes on a command: `ParseNatterOutput` gives a nil map
-- for a null, and `runNatter` writes into it.
use wireguard_natter_helper.Prelude.{
  pos, Result, ok, Error, split_if, split_option, split_result, not_some, ok_inj, err-ne-ok, String,
  ◌≡◌, refl, sym, ap, ◌∙◌, ◌↔◌, true, false, Option, none, some, List, [], ◌∷◌, reverse, arith,
  ◌==◌, eq_iff,
}
use wireguard_natter_helper.Json.{Fields, lookup, string_value}
use wireguard_natter_helper.Protocol.{Command}
use wireguard_natter_helper.Host.{Host, Machine, start}
use wireguard_natter_helper.Strings.{trim_space}
use wireguard_natter_helper.Strings.Split.{split_lines}
use wireguard_natter_helper.Strings.Numbers.{exceeds}
use wireguard_natter_helper.Agent.State.{NatterConfig, Config}
use wireguard_natter_helper.Agent.Remote.{natter_config_for_interface}
use wireguard_natter_helper.Agent.Natter.{
  last_payload, parse_natter_output, restart_wireguard_if_needed, Run, failed, crashed, completed,
  timeout_of, start_within, judged, run_and_restart, stop_and_run, run_natter,
}
use wireguard_natter_helper.Agent.Handle.{Report, run_reports, handle_command}

-- Of the lines, the first that is not blank and decodes is a null.
pub data FirstNull (env : Machine) : List String → Type 0 where
  null_line :
      {line : String} {lines : List String}
      → (trim_space line == "") ≡ false
      → env.decode (trim_space line) ≡ some none
      → FirstNull env (line ∷ lines)
  blank_line :
      {line : String} {lines : List String}
      → (trim_space line == "") ≡ true
      → FirstNull env lines
      → FirstNull env (line ∷ lines)
  unreadable_line :
      {line : String} {lines : List String}
      → env.decode (trim_space line) ≡ none
      → FirstNull env lines
      → FirstNull env (line ∷ lines)

last_payload-null :
    (env : Machine) (lines : List String) → FirstNull env lines → last_payload env lines ≡ ok none
unfolding last_payload
last_payload-null env _ (null_line filled n) = rw (filled, n) refl
last_payload-null env _ (blank_line {line} {lines} blank later) =
    rw blank (last_payload-null env lines later)
last_payload-null env _ (unreadable_line {line} {lines} bad later) =
    ground (arith, bad, last_payload-null env lines later)

last_payload-FirstNull :
    (env : Machine) (lines : List String) → last_payload env lines ≡ ok none → FirstNull env lines
unfolding last_payload
last_payload-FirstNull env [] = λ e. err-ne-ok e
last_payload-FirstNull env (line ∷ lines) =
    let P : Result (Option Fields) → Type 0 = λ r. r ≡ ok none → FirstNull env (line ∷ lines) in
    let later = last_payload-FirstNull env lines in
    split_if P (trim_space line == "") (λ blank e. blank_line blank (later e))
      (λ filled.
        split_option P (env.decode (trim_space line)) (λ bad e. unreadable_line bad (later e))
          (λ p read e. null_line filled (read ∙ ap some (ok_inj e))))

-- The command of an interface runs, and the last line of its output that decodes is a null.
pub record PrintsNull (env : Machine) (payload : Fields) (c : Config) (h : Host) : Type 0 where
  pub named : (string_value (lookup "server_interface" payload) == "") ≡ false
  pub program : String
  pub args : List String
  pub command :
      (natter_config_for_interface (string_value (lookup "server_interface" payload)) c).command
      ≡ program ∷ args
  pub in_time :
      exceeds
        (timeout_of
          (natter_config_for_interface (string_value (lookup "server_interface" payload)) c))
        (pos 0)
      ≡ true
  pub out : String
  pub answered : env.answer h.ran (program ∷ args) ≡ (out, none)
  pub prints_null : FirstNull env (reverse (split_lines out))

failed-ne-crashed : {X : Type 0} {x : String} → failed x ≡ crashed → X
failed-ne-crashed e = cc

completed-ne-crashed : {X : Type 0} {fs : Fields} → completed fs ≡ crashed → X
completed-ne-crashed e = cc

judged-crashed :
    (env : Machine) (interface : String) (output : String × Error)
    → judged env interface output none ≡ crashed
    → (output.1 ≡ none) × (parse_natter_output env output.0 ≡ ok none)
unfolding judged
judged-crashed env interface (out, some x) = λ e. failed-ne-crashed e
judged-crashed env interface (out, none) =
    let P : Run → Type 0 =
      λ r. r ≡ crashed → (◌≡◌ {A = Error} none none) × (parse_natter_output env out ≡ ok none) in
    split_result P (parse_natter_output env out) (λ x _ e. failed-ne-crashed e)
      (λ payload read.
        split_option P payload (λ nil e. (refl, read ∙ ap ok nil))
          (λ fs _ e. completed-ne-crashed e))

module _ (env : Machine) (payload : Fields) (c : Config) (h : Host) where
  abbrev interface : String
  interface = string_value (lookup "server_interface" payload)

  abbrev natter : NatterConfig
  natter = natter_config_for_interface interface c

  abbrev CrashedNull : Host × Run → Type 0
  CrashedNull r = r.1 ≡ crashed → PrintsNull env payload c h

  command-PrintsNull :
      (program : String) (args : List String)
      → (interface == "") ≡ false
      → natter.command ≡ program ∷ args
      → CrashedNull (run_and_restart env interface natter "" false h)
  unfolding run_and_restart restart_wireguard_if_needed start_within start judged
  command-PrintsNull program args named command =
      split_if
        (λ (o : Host × (String × Error)).
          judged env interface o.1 none ≡ crashed → PrintsNull env payload c h)
        (exceeds (timeout_of natter) (pos 0))
        (λ in_time e.
          let output = env.answer h.ran natter.command in
          let (succeeds, reads) = judged-crashed env interface output e in
          record {
            named = named;
            program = program;
            args = args;
            command = command;
            in_time = in_time;
            out = output.0;
            answered = ap (env.answer h.ran) (sym command) ∙ ap (λ e. (output.0, e)) succeeds;
            prints_null =
                last_payload-FirstNull env (reverse (split_lines output.0))
                  (unfold parse_natter_output in reads);
          })
        (λ late e. failed-ne-crashed e)

  -- A run that crashes, where WireGuard is not stopped for it
  run_natter-PrintsNull :
      natter.stop_wireguard ≡ false
      → (run_natter env payload c h).1 ≡ crashed
      → PrintsNull env payload c h
  unfolding run_natter stop_and_run
  run_natter-PrintsNull kept =
      split_if CrashedNull (interface == "") (λ _ e. failed-ne-crashed e)
        (λ named. with_command named natter.command refl)
    where
      with_command :
          (interface == "") ≡ false
          → (words : List String) → natter.command ≡ words
          → CrashedNull (elim words [
            | [] ↦ (h, failed "natter.command is not configured")
            | _ ∷ _ ↦ stop_and_run env c interface natter h
          ])
      with_command named [] command = λ e. failed-ne-crashed e
      with_command named (program ∷ args) command =
          rw kept (command-PrintsNull program args named command)

  run_natter-null :
      natter.stop_wireguard ≡ false
      → PrintsNull env payload c h
      → (run_natter env payload c h).1 ≡ crashed
  unfolding run_natter stop_and_run run_and_restart restart_wireguard_if_needed judged start_within
      start
  run_natter-null kept p =
      let parsed : parse_natter_output env p.out ≡ ok none =
        unfold parse_natter_output in
        last_payload-null env (reverse (split_lines p.out)) p.prints_null in
      let answered = ap (env.answer h.ran) p.command ∙ p.answered in
      ground (arith, kept, p.named, p.command, p.in_time, answered, parsed)

run_reports-crashed : (cmd : Command) (r : Run) → run_reports cmd r ≡ none → r ≡ crashed
unfolding run_reports
run_reports-crashed cmd r e = ground arith

-- An agent that does not stop WireGuard for Natter crashes on a command exactly when it is a
-- natter.run for a named interface whose command is run in time and succeeds, and of the lines
-- of its output the last that decodes as an object or a null is a null.
pub handle_command-crashes :
    (env : Machine) (cmd : Command) (c : Config) (h : Host)
    → (natter_config_for_interface
        (string_value (lookup "server_interface" cmd.payload))
        c).stop_wireguard
      ≡ false
    → ((handle_command env cmd c h).1 ≡ none)
      ↔ ((cmd.action ≡ "natter.run") × PrintsNull env cmd.payload c h)
unfolding handle_command
handle_command-crashes env cmd c h kept = (
  split_if
      (λ (o : Host × Option (List Report)).
        o.1 ≡ none → (cmd.action ≡ "natter.run") × PrintsNull env cmd.payload c h)
      (cmd.action == "natter.run")
      (λ is_run e. (
        (eq_iff cmd.action "natter.run").0 is_run,
        run_natter-PrintsNull env cmd.payload c h kept
            (run_reports-crashed cmd (run_natter env cmd.payload c h).1 e),
      ))
      (λ _.
        split_if
          (λ (o : Host × Option (List Report)).
            o.1 ≡ none → (cmd.action ≡ "natter.run") × PrintsNull env cmd.payload c h)
          (cmd.action == "endpoint.apply") (λ _ e. not_some (sym e)) (λ _ e. not_some (sym e))),
  λ (is_run, p). rw ((eq_iff cmd.action "natter.run").1 is_run) (
      ap (run_reports cmd) (run_natter-null env cmd.payload c h kept p)
      ∙ unfold run_reports in refl),
)
