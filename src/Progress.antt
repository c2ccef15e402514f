-- ===== src/Progress.antt =====
-- Package progress: internal/progress/tracker.go.
pub mod Tracker
pub mod Report
pub mod Log
