-- ===== src/Agents.antt =====
-- The identities of agents (backend/app/services/agent_service.py,
-- backend/app/repositories/agent_repo.py): their life cycle, and the human in whose name they act.
pub mod Rows
pub mod Register
pub mod Lifecycle
pub mod Human
