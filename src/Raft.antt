-- ===== src/Raft.antt =====
-- src/consensus/raft.py: one Raft node, handler by handler, and a cluster of them.
pub mod Node
pub mod Votes
pub mod Entries
pub mod Leader
pub mod Steps
pub mod Cluster
pub mod Election
pub mod Matching
mod Tests
