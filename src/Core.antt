-- ===== src/Core.antt =====
-- backend/app/core: the services that the rest of the application shares.
pub mod CircuitBreaker
pub mod BreakerRegistry
pub mod Container
pub mod Alerts
