-- ===== src/Core/BreakerRegistry/Tests.antt =====
-- The registry at concrete inputs.
