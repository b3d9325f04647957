-- ===== src/Store/State.antt =====
-- The store of internal/store/store.go: `data` (here `state`), `runtime`, and the three files that
-- they are written to. The environment gives what an operation takes from outside the program.
use wireguard_natter_helper.Prelude.{Bool, Option, String, ℕ, List, [], Error}
use wireguard_natter_helper.Map.{Map}
use wireguard_natter_helper.Json.{Json}
use wireguard_natter_helper.Store.Config.{Node, Domain, DomainMember, Binding}
use wireguard_natter_helper.Store.Runtime.{
  WgInterface, EndpointLease, NodeRuntime, BindingEndpoint, QueuedCommand, Event,
}

pub record Data : Type 0 where
  pub nodes : Map Node
  pub domains : Map Domain
  pub domain_members : Map DomainMember
  pub bindings : Map Binding
  -- Deprecated, read for migration and then omitted.
  pub wg_interfaces : Map WgInterface
  pub endpoint_leases : List EndpointLease
  pub commands : Map (List QueuedCommand)
  pub events : List Event

pub record RuntimeData : Type 0 where
  pub node_runtime : Map NodeRuntime
  pub pending_domain : Map String
  pub wg_interfaces : Map WgInterface
  pub endpoint_leases : List EndpointLease
  pub binding_endpoint : Map BindingEndpoint
  pub commands : Map (List QueuedCommand)

-- `newData`
unfoldable pub new_data : Data
new_data = record {
  nodes = [];
  domains = [];
  domain_members = [];
  bindings = [];
  wg_interfaces = [];
  endpoint_leases = [];
  commands = [];
  events = [];
}

-- `newRuntimeData`
unfoldable pub new_runtime_data : RuntimeData
new_runtime_data = record {
  node_runtime = [];
  pending_domain = [];
  wg_interfaces = [];
  endpoint_leases = [];
  binding_endpoint = [];
  commands = [];
}

-- A JSON file: absent, without content, not decodable (with the decoder's error), or a value.
pub data File (A : Type 0) : Type 0 where
  missing : File A
  blank : File A
  garbled : String → File A
  holds : A → File A

-- The files at `path`, `runtimePath` and `eventPath`; the last by its bytes.
pub record Disk : Type 0 where
  pub state : File Data
  pub runtime : File RuntimeData
  pub events : List ℕ

pub record Store : Type 0 where
  pub state : Data
  pub runtime : RuntimeData
  pub disk : Disk

-- What one operation takes from outside the program: the clock, as the text of `NowISO` and in
-- nanoseconds; SHA-256 in hexadecimal; the texts drawn at random, or the source's error; the JSON
-- coding of an event; fmt's `%v`; whether a time's text lies over 90 seconds back, `none` where it
-- is no time; the file system's errors; and, for a request that waits, how often it looks and what
-- the other requests do to the store while it sleeps. One operation reads one time.
pub record Env : Type 0 where
  pub now : String
  pub time : ℕ
  pub sha256_hex : String → String
  pub random : ℕ → String
  pub random_fault : Error
  pub encode_event : Event → List ℕ
  pub decode_event : List ℕ → Option Event
  pub format : Json → String
  pub is_stale : String → Option Bool
  pub state_fault : Error
  pub runtime_fault : Error
  pub event_fault : Error
  pub rotate_fault : Error
  pub looks : ℕ
  pub others : ℕ → Store → Store

-- Assignments to one map of the store.
abbrev pub with_state : Data → Store → Store
with_state d s = record s { state = d }

abbrev pub with_runtime : RuntimeData → Store → Store
with_runtime r s = record s { runtime = r }

abbrev pub put_nodes : Map Node → Store → Store
put_nodes m s = record s { state = record s.state { nodes = m } }

abbrev pub put_domains : Map Domain → Store → Store
put_domains m s = record s { state = record s.state { domains = m } }

abbrev pub put_members : Map DomainMember → Store → Store
put_members m s = record s { state = record s.state { domain_members = m } }

abbrev pub put_bindings : Map Binding → Store → Store
put_bindings m s = record s { state = record s.state { bindings = m } }

abbrev pub put_node_runtime : Map NodeRuntime → Store → Store
put_node_runtime m s = record s { runtime = record s.runtime { node_runtime = m } }

abbrev pub put_pending : Map String → Store → Store
put_pending m s = record s { runtime = record s.runtime { pending_domain = m } }

abbrev pub put_interfaces : Map WgInterface → Store → Store
put_interfaces m s = record s { runtime = record s.runtime { wg_interfaces = m } }

abbrev pub put_leases : List EndpointLease → Store → Store
put_leases l s = record s { runtime = record s.runtime { endpoint_leases = l } }

abbrev pub put_endpoints : Map BindingEndpoint → Store → Store
put_endpoints m s = record s { runtime = record s.runtime { binding_endpoint = m } }

abbrev pub put_commands : Map (List QueuedCommand) → Store → Store
put_commands m s = record s { runtime = record s.runtime { commands = m } }
