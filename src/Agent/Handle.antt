-- ===== src/Agent/Handle.antt =====
-- `handle` of internal/agent/agent.go: a command is carried out and answered.
pub mod Answers
pub mod Applied
pub mod Crash
use wireguard_natter_helper.Rpc.{zero_request, Request}
use wireguard_natter_helper.Prelude.{
  if◌then◌else◌, ◌<>◌, Result, ok, err, String, Bool, true, false, Option, none, some, List, [],
  ◌∷◌, ◌==◌,
}
use wireguard_natter_helper.Json.{
  Json, bool, str, Fields, lookup, string_value, number_or_zero, object,
}
use wireguard_natter_helper.Protocol.{Command}
use wireguard_natter_helper.Host.{Host, Machine}
use wireguard_natter_helper.WgConfig.Commands.{ApplyResult}
use wireguard_natter_helper.WgConfig.{ApplyRequest, apply_endpoint}
use wireguard_natter_helper.Agent.State.{Agent, Config}
use wireguard_natter_helper.Agent.Natter.{Run, failed, crashed, completed, run_natter}

-- What `report` sends, apart from the agent's name and token
pub record Report : Type 0 where
  pub report_type : String
  pub command_id : String
  pub payload : Fields

-- `report`
abbrev pub report_request : Agent → Report → Request
report_request a r = record zero_request {
  kind = "agent.report";
  node_id = a.config.node_id;
  token = a.token;
  report_type = r.report_type;
  command_id = r.command_id;
  payload = r.payload;
}

abbrev pub action_result : Command → List (String × Json) → Report
action_result cmd fields = record {
  report_type = "action.result";
  command_id = cmd.command_id;
  payload = object fields;
}

-- The request that `applyEndpoint` makes of a payload
unfoldable pub apply_request : Fields → Bool → ApplyRequest
unfolding lookup
apply_request payload dry_run =
    let text = λ (key : String). string_value (lookup key payload) in
    record {
      config_type = text "config_type";
      interface = text "interface";
      peer_public_key = text "peer_public_key";
      endpoint_host = text "endpoint_host";
      endpoint_port = number_or_zero (lookup "endpoint_port" payload);
      config_path = text "config_path";
      reload_method = text "reload_method";
      dry_run = dry_run;
    }

-- `applyEndpoint`
abbrev pub applied_endpoint : Machine → Command → Config → Host → Host × Result ApplyResult
applied_endpoint env cmd c h = apply_endpoint env (apply_request cmd.payload c.dry_run) h

-- The reports on a run of Natter; `none` if the agent has crashed.
unfoldable pub run_reports : Command → Run → Option (List Report)
run_reports cmd (failed e) =
    some (action_result cmd (("ok", bool false) ∷ ("error", str e) ∷ []) ∷ [])
run_reports cmd crashed = none
run_reports cmd (completed result) = some (
    record { report_type = "natter.result"; command_id = ""; payload = result }
    ∷ action_result cmd (("ok", bool true) ∷ ("detail", str "natter completed") ∷ [])
    ∷ [])

-- The reports on an endpoint
unfoldable pub apply_reports : Command → Result ApplyResult → List Report
apply_reports cmd applied =
    let binding_id = str (string_value (lookup "binding_id" cmd.payload)) in
    elim applied [
      | err e ↦
          action_result cmd
            (("ok", bool false) ∷ ("binding_id", binding_id) ∷ ("error", str e) ∷ [])
          ∷ []
      | ok res ↦
          action_result cmd (
            ("ok", bool true)
            ∷ ("binding_id", binding_id)
            ∷ ("changed", bool res.is_changed)
            ∷ ("message", str res.message)
            ∷ [])
          ∷ []
    ]

-- `handle`: the machine, and the reports sent
unfoldable pub handle_command : Machine → Command → Config → Host → Host × Option (List Report)
handle_command env cmd c h =
    let (h1, r) = run_natter env cmd.payload c h in
    let (h2, applied) = applied_endpoint env cmd c h in
    if cmd.action == "natter.run"
    then (h1, run_reports cmd r)
    else if cmd.action == "endpoint.apply"
    then (h2, some (apply_reports cmd applied))
    else (
      h,
      some (
          action_result cmd
            (("ok", bool false) ∷ ("error", str ("unsupported action: " <> cmd.action)) ∷ [])
          ∷ []),
    )
