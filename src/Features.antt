-- ===== src/Features.antt =====
-- backend/app/features: what is computed from candles and kept.
pub mod Schema
pub mod Registry
pub mod Structure
