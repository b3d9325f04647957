-- ===== src/Daemon.antt =====
-- internal/daemon/daemon.go: the server that agents and administrators call. Logging is left out.
pub mod Server
pub mod Inventory
pub mod Agents
pub mod Reports
pub mod Admin
pub mod Handle
