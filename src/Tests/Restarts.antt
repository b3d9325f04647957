-- ===== src/Tests/Restarts.antt =====
-- The theorems about the files and the opening of a store.
use wireguard_natter_helper.Prelude.{ok, ◌≡◌, refl, false, none, []}
use wireguard_natter_helper.Map.{update_all}
use wireguard_natter_helper.Store.State.{new_data, new_runtime_data, missing, holds, Disk, Store}
use wireguard_natter_helper.Store.Save.{saved_data, write_both, save, IsPersisted}
use wireguard_natter_helper.Store.Nodes.{upsert_pending_node}
use wireguard_natter_helper.Store.Open.{open_store}
use wireguard_natter_helper.Store.Steps.{Step, register}
use wireguard_natter_helper.Store.Steps.Durable.{env_of, Step-IsPersisted}
use wireguard_natter_helper.Store.Steps.Restart.{IsRunning, Step-reopens, open_store-IsRunning}
use wireguard_natter_helper.Tests.Network.{
  noon, network_state, network_runtime, network, network-IsSound,
}

-- The network with its files written
abbrev stored : Store
stored = record network {
  disk = record {
    state = holds (saved_data network_state);
    runtime = holds network_runtime;
    events = [];
  };
}

stored-IsPersisted : IsPersisted stored
stored-IsPersisted = record { state = refl; runtime = refl }

abbrev registration : Step false stored (upsert_pending_node noon "n2" "n2" "t" none stored).0
registration = register noon "n2" "n2" "t" none

registration_saves : (env_of registration).state_fault ≡ none
unfolding env_of
registration_saves = refl

registration_saves_runtime : (env_of registration).runtime_fault ≡ none
unfolding env_of
registration_saves_runtime = refl

Step-IsPersisted_example : IsPersisted (upsert_pending_node noon "n2" "n2" "t" none stored).0
Step-IsPersisted_example =
    Step-IsPersisted false stored (upsert_pending_node noon "n2" "n2" "t" none stored).0
      registration registration_saves registration_saves_runtime stored-IsPersisted

stored-IsRunning : IsRunning stored
stored-IsRunning = record {
  sound = network-IsSound;
  current = record { wg_interfaces = refl; endpoint_leases = refl; commands = refl; events = refl };
  persisted = stored-IsPersisted;
}

Step-reopens_example :
    open_store noon (upsert_pending_node noon "n2" "n2" "t" none stored).0.disk
    ≡ ok (upsert_pending_node noon "n2" "n2" "t" none stored).0
Step-reopens_example =
    Step-reopens noon false stored (upsert_pending_node noon "n2" "n2" "t" none stored).0
      registration registration_saves registration_saves_runtime refl refl stored-IsRunning

-- A path where nothing is yet
abbrev blank_disk : Disk
blank_disk = record { state = missing; runtime = missing; events = [] }

abbrev first_store : Store
first_store = record {
  state = new_data;
  runtime = new_runtime_data;
  disk = record { state = holds new_data; runtime = holds new_runtime_data; events = [] };
}

opened_first : open_store noon blank_disk ≡ ok first_store
unfolding open_store save write_both saved_data new_data update_all
opened_first = refl

open_store-IsRunning_example : IsRunning first_store
open_store-IsRunning_example =
    open_store-IsRunning noon blank_disk first_store refl refl refl opened_first
