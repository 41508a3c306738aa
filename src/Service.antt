-- ===== src/Service.antt =====
-- backend/internal/service: voucher codes, router credentials, payment providers and billing.
pub mod VoucherCode
pub mod Creds
pub mod Provider
pub mod Billing
mod Tests
