-- ===== src/Events.antt =====
-- backend/app/events: the event bus.
pub mod Bus
