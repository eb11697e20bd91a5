-- ===== src/User.antt =====
-- Accounts: internal/user/user.go.
pub mod Account
pub mod Credits
pub mod Periods
pub mod Transfers
pub mod CreditLaws
pub mod PeriodLaws
pub mod CalendarLaws
pub mod TransferLaws
pub mod Sample
mod Examples
