-- ===== src/Session.antt =====
-- The registry of sessions and of the paths in transfer: internal/core/session_registry.go.
pub mod Reservations
pub mod Counts
pub mod ReservationLaws
pub mod LockLaws
mod Examples
