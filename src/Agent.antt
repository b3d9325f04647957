-- ===== src/Agent.antt =====
-- internal/agent/agent.go: the agent that runs on a node.
pub mod State
pub mod Remote
pub mod Natter
pub mod Handle
pub mod Monitor
pub mod Setup
pub mod Inventory
pub mod Loop
