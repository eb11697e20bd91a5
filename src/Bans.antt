-- ===== src/Bans.antt =====
-- The list of banned users: internal/core/banlist.go.
pub mod Decimal
pub mod Banlist
pub mod DecimalLaws
pub mod LineLaws
pub mod BanLaws
mod Examples
