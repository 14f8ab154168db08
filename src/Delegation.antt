-- ===== src/Delegation.antt =====
-- Delegation of scopes between agents (backend/app/core/delegation.py,
-- backend/app/services/delegation_service.py).
pub mod Validator
pub mod Chain
pub mod Cascade
pub mod Table
pub mod Grants
pub mod Recall
pub mod Revoke
