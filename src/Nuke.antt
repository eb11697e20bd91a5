-- ===== src/Nuke.antt =====
-- Nukes: internal/core/nuke_helpers.go.
pub mod Credits
pub mod CreditLaws
mod Examples
