-- ===== src/Tests/Rounds.antt =====
-- The theorems about an agent's rounds.
use wireguard_natter_helper.Prelude.{◌≡◌, refl, true, false, some, []}
use wireguard_natter_helper.Map.{get?}
use wireguard_natter_helper.Agent.State.{Agent}
use wireguard_natter_helper.Agent.Loop.{run_round}
use wireguard_natter_helper.Agent.Loop.Approved.{answered_by, run_round-unapproved}
use wireguard_natter_helper.Store.Sound.{is_approved}
use wireguard_natter_helper.Tests.Network.{noon, network_state, daemon}
use wireguard_natter_helper.Tests.Laptop.{quiet, laptop, laptop_config, laptop_agent}

waiting : is_approved network_state.nodes "new" ≡ false
unfolding is_approved get?
waiting = refl

run_round-unapproved_example :
    ((run_round quiet (answered_by noon daemon) laptop_agent laptop).agent ≡ laptop_agent)
    × ((run_round quiet (answered_by noon daemon) laptop_agent laptop).polled ≡ false)
    × ((run_round quiet (answered_by noon daemon) laptop_agent laptop).reports ≡ some [])
run_round-unapproved_example =
    run_round-unapproved quiet noon daemon laptop_agent laptop waiting refl

abbrev gone_agent : Agent
gone_agent = record laptop_agent {
  joined = true;
  config = record laptop_config { node_id = "gone" };
}
