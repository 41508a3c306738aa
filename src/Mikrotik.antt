-- ===== src/Mikrotik.antt =====
-- backend/internal/mikrotik: the simulated routers, in memory and in Redis.
pub mod Router
pub mod Simulator
pub mod RedisSimulator
pub mod Transport
mod Tests
