-- ===== src/Worker.antt =====
-- Package worker: internal/worker/manager.go.
pub mod Arguments
pub mod Connect
pub mod Manager
pub mod Pool
pub mod Deploy
