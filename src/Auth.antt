-- ===== src/Auth.antt =====
-- backend/internal/auth and backend/internal/middleware, and the sessions of operators in
-- backend/internal/handler/auth.go: tokens, and who may do what.
pub mod Service
pub mod Tokens
pub mod Middleware
pub mod Tenant
pub mod RateLimit
pub mod Refresh
mod Tests
