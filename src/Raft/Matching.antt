-- ===== src/Raft/Matching.antt =====
-- How the logs of the nodes of a Raft cluster relate.
mod Lists
mod Store
mod Nodes
pub mod System
mod Records
mod Owners
mod Local
pub mod Invariant
