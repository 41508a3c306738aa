-- ===== src/Store.antt =====
-- backend/internal/store: the tables, the statements on them, and the operations of `Store`.
pub mod Db
pub mod Sql
pub mod Access
pub mod Amount
pub mod Network
pub mod Accounts
pub mod Schema
pub mod World
pub mod Billing
pub mod Wallet
pub mod Payments
pub mod Vouchers
pub mod Sessions
pub mod Paging
pub mod Customers
pub mod Routers
pub mod Hotspots
pub mod RateWindows
pub mod Tenants
pub mod Users
pub mod Isolation
pub mod Samples
mod Tests
