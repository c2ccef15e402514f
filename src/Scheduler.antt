-- ===== src/Scheduler.antt =====
-- Package scheduler: internal/scheduler/timerange.go and internal/scheduler/task.go.
pub mod Calendar
pub mod TimeRange
pub mod Queue
