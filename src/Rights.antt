-- ===== src/Rights.antt =====
-- Which account may delete, remove and rename what: internal/core/owner_acl.go.
pub mod Owner
