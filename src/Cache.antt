-- ===== src/Cache.antt =====
-- src/nodes/cache_node.py: the LRU cache, the MESI protocol and the handlers of a cache node.
pub mod Lru
pub mod Node
mod Reports
pub mod Bounds
pub mod Coherence
mod Tests
