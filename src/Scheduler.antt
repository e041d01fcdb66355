-- ===== src/Scheduler.antt =====
-- internal/scheduler/scheduler.go.
pub mod State
pub mod Backoff
pub mod Selection
pub mod Finish
pub mod Dispatch
pub mod Limits
pub mod Growth
pub mod Tick
pub mod Shrink
pub mod Bounds
pub mod Etcd
pub mod Claims
pub mod Costs
pub mod Budget
pub mod Retry
pub mod Results
pub mod Start
