-- ===== src/Protocol.antt =====
-- internal/protocol/protocol.go: commands and their identifiers.
use wireguard_natter_helper.Prelude.{String, ◌<>◌}
use wireguard_natter_helper.Json.{Fields}

-- `Version`
abbrev pub version : String
version = "0.1.3"

pub record Command : Type 0 where
  pub command_id : String
  pub action : String
  pub payload : Fields
  pub deadline : String
  pub idempotency_key : String

-- `NewID`; `random` is what follows the prefix, drawn or taken from the clock.
unfoldable pub new_id : String → String → String
new_id prefix random = prefix <> "_" <> random

-- `NewCommand`
unfoldable pub new_command : String → String → Fields → Command
unfolding new_id
new_command random action payload =
    let id = new_id "cmd" random in
    record {
      command_id = id;
      action = action;
      payload = payload;
      deadline = "";
      idempotency_key = id;
    }
