-- ===== src/Collectors.antt =====
-- backend/app/collectors: the collectors, their registry and what runs them.
pub mod Registry
pub mod Base
pub mod TickAggregator
