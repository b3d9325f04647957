-- ===== src/Daemon/Server.antt =====
-- The server's state, authentication and small helpers of internal/daemon/daemon.go.
use wireguard_natter_helper.Prelude.{
  ltb, if◌then◌else◌, ℤ, pos, negsuc, Result, ok, err, Error, with_error, ℕ, String, ◌||◌, not,
  none, some, [], ◌==◌,
}
use wireguard_natter_helper.Map.{Map}
use wireguard_natter_helper.Auth.{generate_token}
use wireguard_natter_helper.Rpc.{Request}
use wireguard_natter_helper.Store.Config.{Node}
use wireguard_natter_helper.Store.State.{Disk, Store, Env}
use wireguard_natter_helper.Store.Nodes.{create_node, authenticate_node_any_status}
use wireguard_natter_helper.Store.Open.{open_store}

-- Times are in nanoseconds.
pub record Server : Type 0 where
  pub store : Store
  pub admin_token : String
  pub poll_wait : ℕ
  pub natter_cooldown : ℕ
  pub last_natter_run : Map ℕ

abbrev pub with_store : Store → Server → Server
with_store s srv = record srv { store = s }

-- `New`: 25 seconds, and five minutes
unfoldable pub new_server : Store → String → Server
new_server s admin_token = record {
  store = s;
  admin_token = admin_token;
  poll_wait = 25_000_000_000;
  natter_cooldown = 300_000_000_000;
  last_natter_run = [];
}

-- `SetNatterCooldown`
unfoldable pub set_natter_cooldown : ℤ → Server → Server
set_natter_cooldown (pos n) srv = if ltb 0 n then record srv { natter_cooldown = n } else srv
set_natter_cooldown (negsuc n) srv = srv

-- `authenticateAgent`
unfoldable pub authenticate_agent : Env → Request → Store → Result String
authenticate_agent env req s =
    if req.node_id == "" || req.token == ""
    then err "missing node credentials"
    else elim (authenticate_node_any_status env req.node_id req.token s) [
      | none ↦ err "invalid node credentials"
      | some node ↦ if not node.approved then err "node pending approval" else ok req.node_id
    ]

-- `authenticateAdmin`
unfoldable pub authenticate_admin : Server → Request → Error
authenticate_admin srv req =
    if srv.admin_token == ""
    then none
    else if req.admin_token == srv.admin_token
    then none
    else some "invalid admin credentials"

-- `sanitizeNode`
unfoldable pub sanitize_node : Node → Node
sanitize_node n = record n { token_hash = "" }

-- The function `CreateNode`, which the command line calls: the token, and the store.
unfoldable pub create_node_at : Env → Disk → String → String → Result (String × Store)
create_node_at env disk id name = elim (generate_token env) [
  | err e ↦ err e
  | ok token ↦ elim (open_store env disk) [
    | err e ↦ err e
    | ok s ↦
        let (s', e) = create_node env id (if name == "" then id else name) token s in
        with_error (token, s') e
  ]
]
