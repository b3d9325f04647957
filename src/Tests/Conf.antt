-- ===== src/Tests/Conf.antt =====
-- The theorems about the files that an agent keeps.
use wireguard_natter_helper.Prelude.{String, ◌<>◌, ok, ◌≡◌, refl, true, false, some, [], ◌∷◌}
use wireguard_natter_helper.Map.{get?, set}
use wireguard_natter_helper.Protocol.{Command}
use wireguard_natter_helper.Strings.{
  trim_left, trim_right, trim, trim_space, has_suffix, contains, equal_fold,
}
use wireguard_natter_helper.Strings.Split.{split_lines, split_after_lines, join, cut}
use wireguard_natter_helper.Strings.Numbers.{decimal, itoa}
use wireguard_natter_helper.Host.{Host, read_file, write_file}
use wireguard_natter_helper.WgConfig.Search.{
  without_empty_last, split_keep_newline, start_of_file, scan_line, scan,
}
use wireguard_natter_helper.WgConfig.Edit.Update.{update_wg_conf-end}
use wireguard_natter_helper.WgConfig.Commands.{ApplyResult}
use wireguard_natter_helper.WgConfig.{endpoint_line, updated_lines, write_lines, update_wg_conf}
use wireguard_natter_helper.Agent.Handle.{applied_endpoint}
use wireguard_natter_helper.Agent.Setup.{
  before_slash, filepath_dir, new_identity, create_local_state, load_or_create_local_state,
}
use wireguard_natter_helper.Agent.Setup.Identity.{load_or_create_local_state-again}
use wireguard_natter_helper.Daemon.Reports.{apply_command}
use wireguard_natter_helper.Tests.Network.{noon, manual}
use wireguard_natter_helper.Tests.Laptop.{
  quiet, wg_file, laptop, laptop_config, new_lease, plain_coding,
}

abbrev apply_manual : Command
apply_manual = apply_command noon new_lease 0 manual

abbrev done_message : ApplyResult
done_message = record { is_changed = true; message = "updated /etc/wireguard/wg9.conf" }

abbrev edited_laptop : Host
edited_laptop = (applied_endpoint quiet apply_manual laptop_config laptop).0

wg_file_read : read_file quiet "/etc/wireguard/wg9.conf" laptop ≡ ok wg_file
unfolding read_file get?
wg_file_read = refl

glued_read : (scan "PK" 0 (split_keep_newline wg_file) start_of_file).is_matching ≡ true
unfolding scan scan_line split_keep_newline without_empty_last trim_space trim trim_left trim_right
    has_suffix contains equal_fold cut split_lines split_after_lines join itoa decimal
glued_read = refl

update_wg_conf-end_example :
    get? "/etc/wireguard/wg9.conf"
      (update_wg_conf quiet "/etc/wireguard/wg9.conf" "PK" "1.2.3.4:4000" false laptop).0.files
    ≡ some (wg_file <> endpoint_line "1.2.3.4:4000")
unfolding update_wg_conf read_file write_file get? set updated_lines write_lines scan scan_line
    split_keep_newline without_empty_last trim_space trim trim_left trim_right has_suffix contains
    equal_fold cut split_lines split_after_lines join itoa decimal
update_wg_conf-end_example =
    update_wg_conf-end quiet "/etc/wireguard/wg9.conf" "PK" "1.2.3.4:4000" wg_file laptop
      (update_wg_conf quiet "/etc/wireguard/wg9.conf" "PK" "1.2.3.4:4000" false laptop).0
      done_message wg_file_read glued_read refl refl refl

-- An endpoint that stands before the key is not found, so a second one is written.
abbrev endpoint_first : String
endpoint_first = "[Peer]\nEndpoint = 9.9.9.9:9\nPublicKey = PK\n"

second_endpoint :
    get? "/etc/wireguard/wg9.conf"
      (update_wg_conf quiet "/etc/wireguard/wg9.conf" "PK" "1.2.3.4:4000" false
        (record laptop { files = ("/etc/wireguard/wg9.conf", endpoint_first) ∷ [] })).0.files
    ≡ some (endpoint_first <> endpoint_line "1.2.3.4:4000")
unfolding update_wg_conf read_file write_file get? set updated_lines write_lines scan scan_line
    split_keep_newline without_empty_last trim_space trim trim_left trim_right has_suffix contains
    equal_fold cut split_lines split_after_lines join itoa decimal
second_endpoint = refl

load_or_create_local_state-again_example :
    load_or_create_local_state quiet plain_coding "state.json"
      (load_or_create_local_state quiet plain_coding "state.json" laptop).0
    ≡ (
      (load_or_create_local_state quiet plain_coding "state.json" laptop).0,
      ok (new_identity quiet),
    )
unfolding load_or_create_local_state create_local_state filepath_dir before_slash get? set
    write_file trim_space trim trim_left trim_right
load_or_create_local_state-again_example =
    load_or_create_local_state-again quiet quiet plain_coding "state.json" laptop
      (load_or_create_local_state quiet plain_coding "state.json" laptop).0 (new_identity quiet)
      (record { parses = refl; is_text = refl }) refl refl refl
