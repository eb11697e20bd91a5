-- ===== src/Port.antt =====
-- The argument of the PORT command: internal/core/transfer_port.go.
pub mod Target
pub mod TargetLaws
mod Examples
