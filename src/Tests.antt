-- ===== src/Tests.antt =====
-- The theorems at work on a small network: a server and a client that are approved in one domain,
-- and a node that waits.
pub mod Network
mod Log
mod Pairs
mod Restarts
mod Stores
mod Requests
pub mod Laptop
mod Agents
mod Conf
mod Rounds
mod Consoles
