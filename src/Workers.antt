-- ===== src/Workers.antt =====
-- The background workers (backend/app/worker).
pub mod Rotator
