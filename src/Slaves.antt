-- ===== src/Slaves.antt =====
-- The master's side of the slaves: internal/master/slave_manager.go.
pub mod Auth
pub mod AuthLaws
pub mod Policy
pub mod Select
pub mod SelectLaws
pub mod BestLaws
pub mod Releases
pub mod ReleaseLaws
pub mod WindowLaws
pub mod InvalidateLaws
mod Examples
