-- ===== src/Nodes.antt =====
-- The node registry: internal/store/node_store.go and internal/nodemanager.
pub mod Table
pub mod Labels
pub mod Manager
pub mod Matching
pub mod Status
pub mod Offline
pub mod Sweep
pub mod Watch
