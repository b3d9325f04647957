-- ===== src/Lib.antt =====
-- wireguard-natter-helper: the daemon with its store, and the agents.
--
-- The program keeps WireGuard peers in reach of servers whose public address changes. A daemon
-- (internal/daemon/daemon.go) holds the configuration and the runtime state in a store
-- (internal/store/store.go). Agents on the nodes register, poll for commands and report; an
-- administrator creates domains and approves nodes. When a client's agent reports that a peer is
-- lost, the daemon queues "natter.run" for the server's node; when the server's agent reports the
-- endpoint that it found, the daemon queues "endpoint.apply" for each client, whose agent writes it
-- into WireGuard's configuration (internal/wgconfig/wgconfig.go). Bindings between servers and
-- clients come from memberships and from the inventory that the agents report. The agents are
-- internal/agent/agent.go.
--
-- What stands where:
--   Prelude, Map       Shared names; Go's errors, ints and maps, with the lemmas on them.
--   Json               The `any` values that the daemon reads (internal/daemon/daemon.go).
--   Auth               internal/auth/auth.go.
--   Protocol           internal/protocol/protocol.go.
--   Rpc                internal/rpc/rpc.go: requests, responses, NormalizeAddr.
--   Store.Config, Store.Runtime, Store.State
--                      The records of internal/store/store.go, the files, and the environment.
--   Store.Ids, Store.Clear, Store.Audit, Store.AutoBinding
--                      Its helpers: keys, identifiers, defaults, audit values, binding tests.
--   Store.Save, Store.Open
--                      saveLocked, saveRuntimeLocked, loadRuntime; Open and ensureMaps.
--   Store.Events       addEventLocked, addAuditEventLocked, the file's append, rotation, reading.
--   Store.Nodes, Store.Domains, Store.Approve, Store.Remove
--                      The methods on nodes, domains, memberships, bindings and inventory.
--   Store.Commands     QueueCommand, NextCommand, CompleteCommand, SaveEndpointLease.
--   Store.Reconcile    ReconcileAutoBindings.
--   Store.Sound        The well-formedness of the configuration, and each method's share of it.
--   Store.Steps        The store as a transition system: a step is one call of a method.
--   Daemon.Server, Daemon.Inventory, Daemon.Agents, Daemon.Reports, Daemon.Admin
--                      The server's state and the handlers of internal/daemon/daemon.go.
--   Daemon.Handle      The dispatch of a request.
--   Strings            Go's packages strings and strconv, as far as the program calls them.
--   Host               The files and programs of an agent's machine.
--   WgConfig.Search, WgConfig.Commands, WgConfig
--                      internal/wgconfig/wgconfig.go: the search in a file, the programs that are
--                      run, UpdateWGConf and ApplyEndpoint.
--   Agent.State, Agent.Setup
--                      internal/agent/agent.go: its records; LoadConfig, New, the identity file.
--   Agent.Remote       applyRemoteNodeConfig, applyRemoteDomainMembers, the control method.
--   Agent.Natter, Agent.Handle
--                      runNatter; handle, applyEndpoint and report.
--   Agent.Monitor      runMonitor, probePeer, ParseLatestHandshakes.
--   Agent.Inventory, Agent.Loop
--                      meta and wireGuardInventory; enroll, poll and the loop of Run.
--   Web, Web.Load      internal/webui/webui.go: the handlers of its API, and load.
--   Cli, Cli.Split     cmd/wgnh/main.go: the commands, and splitCommand.
--   Tests              A small network on which the theorems are applied.
-- A function has its Go name in snake_case; a part of one is named for what it computes.
--
-- How the code is read:
--   A method takes the store and returns it, with its result; an error return leaves what was
--   assigned before it. The mutex makes a method one step. `Env` is what one operation takes from
--   outside: one reading of the clock, SHA-256, the random texts, the JSON coding of an event, and
--   whether each file write fails and how. A write that fails leaves the old file.
--   A map is the list of its entries in the order in which a range loop meets them, so what is
--   proved holds for every order; a nil map is an empty one. A file holds a value, or bytes that do
--   not decode; the event log is its bytes.
--   Integers are copied and compared, never added, so they are unbounded integers; lengths are
--   natural numbers.
--   `agentPoll` looks for a command a number of times that the environment gives (`looks`), and
--   between two looks other requests change the store as `others` says. The loop is structural in
--   that number, so it needs no fuel, and `looks` may be any number. No other loop of the daemon is
--   unbounded.
--   An agent's machine (`Machine`) answers each program with an output and perhaps a failure, which
--   may depend on all programs that ran before, and may refuse to read or write a file; `Host` holds
--   the text files and the programs that ran, in order. Files and outputs are valid UTF-8. Durations
--   are nanoseconds and wrap around at 64 bits where seconds are turned into them; the monitor counts
--   failures in natural numbers, handshakes lie below 2 ^ 62 seconds, and `Duration.Seconds` is read
--   without the rounding of its float. `Run` and `runMonitor` run without end: a theorem about them
--   holds for every number of rounds or ticks, each with its machine and its connection to the
--   daemon. A panic ends the agent, as a result of its own (`crashed`).
--
-- Not modelled: the TCP listener and JSON on the wire (ListenAndServe, handleConn, the connection of
-- rpc.Call, which is a parameter), which are input and output; log lines, sleeping and the quotes in
-- error texts; the cleaning of a path by filepath.Join (interface names have no slash); HTTP and
-- the page of the web interface (internal/webui/webui.go), which is a template; package flag and
-- printing (cmd/wgnh/main.go); the OpenWrt packages, which are another language. Two lists that the
-- web interface sorts by equal keys may come in another order than the model's.
pub mod Prelude
pub mod Map
pub mod Json
pub mod Protocol
pub mod Auth
pub mod Store
pub mod Strings
pub mod Rpc
pub mod Host
pub mod WgConfig
pub mod Daemon
pub mod Agent
pub mod Web
pub mod Cli
pub mod Tests
