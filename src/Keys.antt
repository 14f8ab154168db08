-- ===== src/Keys.antt =====
-- API keys: their secrets, how one is verified, and how keys are issued, rotated and revoked
-- (backend/app/services/api_key_service.py, backend/app/repositories/api_key_repo.py,
-- backend/app/core/security.py).
pub mod Secrets
pub mod Verify
pub mod Manage
