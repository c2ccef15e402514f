-- ===== src/Orchestrator.antt =====
-- Package orchestrator: internal/orchestrator/orchestrator.go.
pub mod Cardinality
pub mod Execute
pub mod Selectors
pub mod Migration
pub mod Identity
pub mod Lifecycle
