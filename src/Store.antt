-- ===== src/Store.antt =====
-- The persistence layer of internal/store: the `tasks` and `nodes` tables.
pub mod TaskTable
pub mod Rows
pub mod Load
