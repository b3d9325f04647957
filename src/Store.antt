-- ===== src/Store.antt =====
-- internal/store/store.go: the daemon's persistent and runtime state, behind one mutex. Each method
-- is a function from the store to the store and its results.
pub mod Config
pub mod Runtime
pub mod State
pub mod Ids
pub mod Clear
pub mod Save
pub mod Events
pub mod Nodes
pub mod Domains
pub mod Audit
pub mod Approve
pub mod Remove
pub mod Commands
pub mod AutoBinding
pub mod Reconcile
pub mod Open
pub mod Sound
pub mod Steps
