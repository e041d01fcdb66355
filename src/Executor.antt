-- ===== src/Executor.antt =====
-- internal/executor/executor.go: what a run yields, the output of a process, and the run itself.
pub mod Outcome
pub mod Output
pub mod Lines
pub mod Run
pub mod Logged
