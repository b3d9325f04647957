-- ===== src/Tests/Agents.antt =====
-- The theorems about the agent.
use wireguard_natter_helper.Protocol.{Command}
use wireguard_natter_helper.Auth.{hash_token, verify_token}
use wireguard_natter_helper.Prelude.{false, ◌++◌}
use wireguard_natter_helper.Agent.Monitor.{lost_report, never}
use wireguard_natter_helper.Agent.Monitor.Asked.{lost_report-asks}
use wireguard_natter_helper.Agent.Handle.{report_request}
use wireguard_natter_helper.Rpc.{success}
use wireguard_natter_helper.Daemon.Server.{authenticate_agent}
use wireguard_natter_helper.Daemon.Reports.{is_cooling, run_command}
use wireguard_natter_helper.Daemon.Handle.{handle}
use wireguard_natter_helper.Store.Nodes.{authenticate_node_any_status}
use wireguard_natter_helper.Store.Commands.Queue.{pending}
use wireguard_natter_helper.Tests.Network.{noon, daemon}
use wireguard_natter_helper.Tests.Laptop.{laptop_agent}
use wireguard_natter_helper.Prelude.{for_each}
use wireguard_natter_helper.Map.{set}
use wireguard_natter_helper.Json.{object, string_slice, strings}
use wireguard_natter_helper.Strings.Split.{words}
use wireguard_natter_helper.Strings.Numbers.{parse_int, digits}
use wireguard_natter_helper.Agent.Inventory.{
  meta_of, object_items, interface_payload, wireguard_inventory, shown_interfaces, shown_interface,
  wg_show_string, wg_show_int, wg_show, wg_list, string_items,
}
use wireguard_natter_helper.Agent.Inventory.Shown.{NamedShown, meta_of-NamedShown}
use wireguard_natter_helper.Daemon.Inventory.{wireguard_inventory_from_meta, inventory_items}
use wireguard_natter_helper.Tests.Laptop.{laptop_wg0}
use wireguard_natter_helper.Prelude.{pos, ok, ◌≡◌, refl, inl, inr, true, none, some, List, [], ◌∷◌}
use wireguard_natter_helper.Map.{get?}
use wireguard_natter_helper.Json.{bool, str, lookup, set_field}
use wireguard_natter_helper.Strings.{
  trim_left, trim_right, trim, trim_space, has_suffix, contains, equal_fold,
}
use wireguard_natter_helper.Strings.Split.{split_lines, split_after_lines, join, cut}
use wireguard_natter_helper.Strings.Numbers.{decimal, itoa, seconds, exceeds}
use wireguard_natter_helper.Host.{Machine, start}
use wireguard_natter_helper.WgConfig.Commands.{run, stop_interface, start_interface}
use wireguard_natter_helper.Agent.State.{Agent}
use wireguard_natter_helper.Agent.Remote.{
  apply_remote_domain_members, interface_control_method, wireguard_control_method,
}
use wireguard_natter_helper.Agent.Remote.Natter.{last_said, apply_remote_domain_members-last}
use wireguard_natter_helper.Agent.Natter.{
  last_payload, parse_natter_output, restart_wireguard_if_needed, start_within, judged,
  run_and_restart, stop_and_run, run_natter,
}
use wireguard_natter_helper.Agent.Natter.Course.{Course, run_natter-Course}
use wireguard_natter_helper.Agent.Handle.Crash.{PrintsNull, null_line, handle_command-crashes}
use wireguard_natter_helper.Prelude.{◌↔◌, List}
use wireguard_natter_helper.Agent.Handle.{Report, action_result, run_reports, handle_command}
use wireguard_natter_helper.Agent.Handle.Answers.{Answered, handle_command-Answered}
use wireguard_natter_helper.Agent.Monitor.{stale_after_of, run_monitor}
use wireguard_natter_helper.Agent.Monitor.Streak.{all_due}
use wireguard_natter_helper.Agent.Monitor.Reports.{all_probes, run_monitor-due}
use wireguard_natter_helper.Store.Config.{DomainMember}
use wireguard_natter_helper.Tests.Network.{server_member, client_member}
use wireguard_natter_helper.Tests.Laptop.{
  printing, quiet, laptop, laptop_config, run_wg0, run_wg1, watched,
}

run_natter-Course_example :
    Course quiet "wg0"
      ("natter" ∷ [])
      []
      (run_natter quiet run_wg0.payload laptop_config laptop).0.ran
unfolding lookup get?
run_natter-Course_example = run_natter-Course quiet run_wg0.payload laptop_config laptop

abbrev lucky : Machine
lucky = printing "{}"

abbrev sent_reports : List Report
sent_reports =
    record { report_type = "natter.result"; command_id = ""; payload = run_wg0.payload }
    ∷ action_result run_wg0 (("ok", bool true) ∷ ("detail", str "natter completed") ∷ [])
    ∷ []

sent_now :
    handle_command lucky run_wg0 laptop_config laptop
    ≡ ((handle_command lucky run_wg0 laptop_config laptop).0, some sent_reports)
unfolding handle_command run_reports run_natter stop_and_run wireguard_control_method
    interface_control_method stop_interface start_interface run_and_restart judged start_within
    exceeds seconds parse_natter_output last_payload restart_wireguard_if_needed set_field lookup
    get? run start trim_space trim trim_left trim_right has_suffix contains equal_fold cut
    split_lines split_after_lines join itoa decimal
sent_now = refl

handle_command-Answered_example : Answered run_wg0 sent_reports
handle_command-Answered_example =
    handle_command-Answered lucky run_wg0 laptop_config laptop
      (handle_command lucky run_wg0 laptop_config laptop).0 sent_reports sent_now

run_monitor-due_example :
    run_monitor laptop_config.monitor ((quiet, watched ∷ []) ∷ (quiet, watched ∷ []) ∷ []) laptop
    ≡ all_due 2
        (stale_after_of (pos 180))
        (all_probes
          (stale_after_of (pos 180))
          ((quiet, watched ∷ []) ∷ (quiet, watched ∷ []) ∷ [])
          laptop)
        []
run_monitor-due_example =
    run_monitor-due laptop_config.monitor ((quiet, watched ∷ []) ∷ (quiet, watched ∷ []) ∷ [])
      laptop

abbrev run_plain : Command
run_plain = record run_wg0 { payload = run_wg1 }

handle_command-crashes_example :
    ((handle_command (printing "null") run_plain laptop_config laptop).1 ≡ none) ↔ (
      (run_plain.action ≡ "natter.run") × PrintsNull (printing "null") run_wg1 laptop_config laptop)
unfolding lookup get?
handle_command-crashes_example =
    handle_command-crashes (printing "null") run_plain laptop_config laptop refl

-- The laptop's agent crashes on a null.
plain-PrintsNull : PrintsNull (printing "null") run_wg1 laptop_config laptop
unfolding lookup get? seconds exceeds split_lines trim_space trim trim_left trim_right
plain-PrintsNull = record {
  named = refl;
  program = "plain";
  args = [];
  command = refl;
  in_time = refl;
  out = "null";
  answered = refl;
  prints_null = null_line refl refl;
}

crashed_on_null : (handle_command (printing "null") run_plain laptop_config laptop).1 ≡ none
unfolding lookup get?
crashed_on_null =
    (handle_command-crashes (printing "null") run_plain laptop_config laptop refl).1
      (refl, plain-PrintsNull)

abbrev wg1_member : DomainMember
wg1_member = record client_member {
  natter_managed = true;
  natter_configured = true;
  natter_command = "managed" ∷ [];
}

apply_remote_domain_members-last_example :
    get? "wg1"
      (apply_remote_domain_members
        (wg1_member ∷ server_member ∷ [])
        laptop_config).natter_by_interface
    ≡ last_said "wg1"
        (wg1_member ∷ server_member ∷ [])
        (get? "wg1" laptop_config.natter_by_interface)
apply_remote_domain_members-last_example =
    apply_remote_domain_members-last "wg1" (wg1_member ∷ server_member ∷ []) laptop_config
      (inr (λ e. cc), (inl refl, tt)) refl

abbrev client_agent : Agent
client_agent = record laptop_agent {
  config = record laptop_config { node_id = "cli" };
  token = "c";
}

abbrev seen_lost : Report
seen_lost = lost_report (pos 180_000_000_000) watched never

known_client :
    authenticate_agent noon (report_request client_agent seen_lost) daemon.store ≡ ok "cli"
unfolding authenticate_agent authenticate_node_any_status get? verify_token hash_token
known_client = refl

rested : is_cooling daemon "srv/wg0" noon.time ≡ false
unfolding is_cooling get?
rested = refl

lost_report-asks_example :
    ((handle noon (report_request client_agent seen_lost) daemon).1
      ≡ record success { command = some (run_command noon "wg0") })
    × (pending "srv"
          (handle noon (report_request client_agent seen_lost) daemon).0.store.runtime.commands
        ≡ pending "srv" daemon.store.runtime.commands ++ run_command noon "wg0" ∷ [])
lost_report-asks_example =
    lost_report-asks noon client_agent (pos 180_000_000_000) watched never daemon known_client refl
      refl rested refl

abbrev shown_key : Machine
shown_key = printing "PK"

meta_of-NamedShown_example :
    NamedShown shown_key
      (("wg0", laptop_wg0) ∷ [])
      "new"
      laptop
      ("wg0" ∷ [])
      (wireguard_inventory_from_meta "new" (some (meta_of shown_key laptop_config laptop).1))
unfolding for_each set
meta_of-NamedShown_example = meta_of-NamedShown shown_key laptop_config "new" laptop

-- What that is on the laptop, whose one interface has no configured port
laptop_inventory :
    wireguard_inventory_from_meta "new" (some (meta_of shown_key laptop_config laptop).1)
    ≡ record {
      node_id = "new";
      name = "wg0";
      public_key = "PK";
      listen_port = pos 0;
      peers = "PK" ∷ [];
      config_type = "wg_conf";
      config_path = "";
      updated_at = "";
    }
      ∷ []
unfolding wireguard_inventory_from_meta inventory_items interface_payload object_items meta_of
    wireguard_inventory shown_interfaces shown_interface wg_show_string wg_show_int wg_show wg_list
    words string_items strings string_slice object lookup for_each get? set start trim_space digits
    trim trim_left trim_right parse_int
laptop_inventory = refl
