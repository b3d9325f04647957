-- ===== src/Agent/Setup.antt =====
-- `LoadConfig`, `New` and the agent's identity file, of internal/agent/agent.go.
pub mod Identity
use wireguard_natter_helper.Prelude.{
  nat_eq, if◌then◌else◌, ◌<>◌, non_empty, pos, int_eq, Result, ok, err, with_error, String, false,
  ◌&&◌, ◌||◌, Option, none, some, [], ◌==◌,
}
use wireguard_natter_helper.Map.{get?}
use wireguard_natter_helper.Strings.{trim_space}
use wireguard_natter_helper.Host.{Host, Machine, read_file, write_file}
use wireguard_natter_helper.Rpc.{normalize_addr}
use wireguard_natter_helper.Agent.State.{Config, Agent, LocalState}
use Prim.Native.Char.{Char, code}

-- The JSON coding of the agent's two files
pub record Coding : Type 0 where
  pub parse_config : String → Result Config
  pub parse_state : String → Result LocalState
  pub print_state : LocalState → String

-- `LoadConfig`
unfoldable pub load_config : Machine → Coding → String → Host → Result Config
load_config env coding path h = elim (read_file env path h) [
  | err e ↦ err e
  | ok raw ↦ elim (coding.parse_config raw) [
    | err e ↦ err e
    | ok c ↦ ok (if int_eq c.retry_seconds (pos 0) then record c { retry_seconds = pos 5 } else c)
  ]
]

-- What stands before the last slash, if there is one
unfoldable pub before_slash : String → Option String
before_slash String.[] = none
before_slash (String.◌∷◌ c s) = elim (before_slash s) [
  | some front ↦ some (String.◌∷◌ c front)
  | none ↦ if nat_eq (code c) 47 then some "" else none
]

-- `filepathDir`
unfoldable pub filepath_dir : String → String
unfolding before_slash
filepath_dir path = elim (before_slash path) [
  | none ↦ "."
  | some front ↦ if front == "" then "." else front
]

-- A new identity
abbrev pub new_identity : Machine → LocalState
new_identity env = record { node_id = "node-" <> env.random 8; token = env.random 32 }

-- `loadOrCreateLocalState`, when there is no usable identity
unfoldable pub create_local_state : Machine → Coding → String → Host → Host × Result LocalState
unfolding filepath_dir
create_local_state env coding path h =
    let state = new_identity env in
    let (h', e) = write_file env path (coding.print_state state) h in
    elim (env.mkdir_fault (filepath_dir path)) [
      | some x ↦ (h, err x)
      | none ↦ (h', with_error state e)
    ]

-- `loadOrCreateLocalState`
unfoldable pub load_or_create_local_state :
    Machine → Coding → String → Host → Host × Result LocalState
load_or_create_local_state env coding path h =
    let created = create_local_state env coding path h in
    elim (env.read_fault path) [
      | some e ↦ (h, err e)
      | none ↦ elim (get? path h.files) [
        | none ↦ created
        | some raw ↦ if trim_space raw == "" then created else elim (coding.parse_state raw) [
          | err e ↦ (h, err e)
          | ok state ↦
              if non_empty state.node_id && non_empty state.token then (h, ok state) else created
        ]
      ]
    ]

-- The token of the configuration or of its file
unfoldable pub configured_token : Machine → Config → Host → Result String
configured_token env c h =
    if c.token == "" && non_empty c.token_file
    then elim (read_file env c.token_file h) [ err e ↦ err e | ok raw ↦ ok (trim_space raw) ]
    else ok c.token

abbrev pub state_path_of : Config → String
state_path_of c = if c.state_path == "" then "/etc/wgnh/node-state.json" else c.state_path

-- The identifier and the token, from the identity file where the configuration has none
unfoldable pub identify : Machine → Coding → Config → String → Host → Host × Result LocalState
identify env coding c token h =
    let (h', loaded) = load_or_create_local_state env coding (state_path_of c) h in
    if c.node_id == "" || token == ""
    then (
      h',
      elim loaded [
        | err e ↦ err e
        | ok state ↦ ok (record {
          node_id = if c.node_id == "" then state.node_id else c.node_id;
          token = if token == "" then state.token else token;
        })
      ],
    )
    else (h, ok (record { node_id = c.node_id; token = token }))

-- `New`, with the identity
unfoldable pub new_with : Config → LocalState → Result Agent
new_with c state =
    elim (normalize_addr (if c.daemon_addr == "" then c.daemon_url else c.daemon_addr)) [
      | err e ↦ err e
      | ok addr ↦
          if state.node_id == "" || addr == "" || state.token == ""
          then err
              "daemon_addr is required; node_id and token are auto-created in state_path when omitted"
          else ok (record {
            config = record c { state_path = state_path_of c; node_id = state.node_id };
            token = state.token;
            addr = addr;
            joined = false;
            monitor_started = false;
            monitor_peers = c.monitor.peers;
          })
    ]

-- `New`
unfoldable pub new_agent : Machine → Coding → Config → Host → Host × Result Agent
new_agent env coding c h = elim (configured_token env c h) [
  | err e ↦ (h, err e)
  | ok token ↦
      let (h', identified) = identify env coding c token h in
      (h', elim identified [ err e ↦ err e | ok state ↦ new_with c state ])
]
