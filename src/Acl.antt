-- ===== src/Acl.antt =====
-- Access control: internal/acl/acl.go.
pub mod Requirement
pub mod Rules
pub mod Engine
pub mod Scalar
pub mod RequirementLaws
mod Examples
