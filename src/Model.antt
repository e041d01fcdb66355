-- ===== src/Model.antt =====
-- The data model of internal/model: tasks with their status machine, and nodes.
pub mod Errors
pub mod Task
pub mod Node
pub mod Lifecycle
