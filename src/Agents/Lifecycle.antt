-- ===== src/Agents/Lifecycle.antt =====
-- The life cycle of an agent: `activate`, `jit_activate`, `suspend` and `decommission`
-- (backend/app/services/agent_service.py). `db.refresh` reads the row back, so what a call returns is
-- the row with its changes; the identifier of an agent is a primary key.
pub mod Machine
pub mod Loop
pub mod Sealed
pub mod Changes
pub mod Runs
use ai_iam_platform.Prelude.{
  ℕ, ◌+◌, ◌*◌, String, Bool, true, false, Option, none, some, List, [], ◌∷◌, ◌++◌, not, length,
  if◌then◌else◌,
}
use ai_iam_platform.Model.{
  Ident, micros, Agent, AgentStatus, ApiKey, AuditEvent, AuditAction, Detail, Details,
}
use ai_iam_platform.Service.{
  Db, World, HttpError, Result, return, raise, Method, pure, http_error, and_then, ◌>>=◌, ◌>>◌,
  gets, guard, append_audit, modify_db, modify_redis, or_error,
}
use ai_iam_platform.Revocation.Redis.{Redis, IndexKey}
use ai_iam_platform.Revocation.Index.{revoke_all_in_index}
use ai_iam_platform.Delegation.Grants.{agent_by_id_and_org}
use ai_iam_platform.Agents.Rows.{
  same_status, update_agent, with_status, update_status, set_spiffe_id, set_activated_by,
  get_active_keys_for_agent, deactivate_key,
}

-- The arguments of the operations. The actor of a system step is a text, and stands here by its
-- identifier.
pub record AgentRequest : Type 0 where
  pub agent_id : Ident
  pub org_id : Ident
  pub actor_id : Ident
  pub reason : String
  pub trace_id : Ident
  pub now : ℕ

unfoldable pub lifecycle_event : AgentRequest → AuditAction → String → Details → AuditEvent
lifecycle_event q action actor_type details = record {
  org_id = q.org_id;
  action = action;
  actor_type = actor_type;
  actor_id = q.actor_id;
  agent_id = some q.agent_id;
  causal_trace_id = q.trace_id;
  outcome = "success";
  resource_id = none;
  details = details;
}

unfoldable pub activated : String → Ident → Agent → Agent
activated spiffe_id user a = record a {
  spiffe_id = some spiffe_id;
  status = AgentStatus.active;
  activated_by_user_id = some user;
}

unfoldable pub jit_activated : ℕ → Agent → Agent
jit_activated t a = record a { status = AgentStatus.active; decommission_at = some t }

module _ {S : Type 0} where
  -- The row of the agent, or 404.
  unfoldable pub require_agent : AgentRequest → Method S Agent
  unfolding agent_by_id_and_org
  require_agent q = do
    agents ← gets (λ w. w.db.agents)
    or_error (agent_by_id_and_org agents q.agent_id q.org_id) 404 "Agent not found"

  -- `spiffe_id` is what `build_spiffe_id` gives for the organisation and the agent.
  unfoldable pub activate : String → Ident → AgentRequest → Method S Agent
  unfolding require_agent same_status set_spiffe_id update_status set_activated_by lifecycle_event
      activated
  activate spiffe_id user q = do
    agent ← require_agent q
    guard (same_status agent.status AgentStatus.pending) 422 "Agent must be PENDING to activate"
    modify_db (set_spiffe_id q.agent_id spiffe_id)
    modify_db (update_status q.agent_id AgentStatus.active)
    modify_db (set_activated_by q.agent_id user)
    append_audit (
        lifecycle_event q AuditAction.agent_activated "user"
          (("spiffe_id", Detail.text spiffe_id) ∷ ("activated_by_user_id", Detail.ident user) ∷ []))
    pure (activated spiffe_id user agent)

  unfoldable pub jit_activate : Ident → ℕ → AgentRequest → Method S Agent
  unfolding require_agent update_agent lifecycle_event jit_activated
  jit_activate task ttl q = do
    agent ← require_agent q
    guard agent.is_ephemeral 422 "JIT activation only applies to ephemeral agents"
    modify_db (update_agent q.agent_id (jit_activated (q.now + ttl * micros)))
    append_audit (
        lifecycle_event q AuditAction.agent_activated "system" (
          ("activation_type", Detail.text "jit")
          ∷ ("task_id", Detail.ident task)
          ∷ ("ttl_seconds", Detail.number ttl)
          ∷ ("decommission_at", Detail.number (q.now + ttl * micros))
          ∷ []))
    pure (jit_activated (q.now + ttl * micros) agent)

module _ (r : Redis) where
  -- `revoke_all_in_index`, with the count that it returns.
  unfoldable pub revoke_index : IndexKey → ℕ → Method r.Store ℕ
  revoke_index key now w =
      let (s, n) = revoke_all_in_index r key now w.redis in (return n, record w { redis = s })

  unfoldable pub suspend : AgentRequest → Method r.Store Agent
  unfolding require_agent same_status update_status lifecycle_event revoke_index
  suspend q = do
    agent ← require_agent q
    guard (not (same_status agent.status AgentStatus.decommissioned)) 422
        "Cannot suspend a decommissioned agent"
    modify_db (update_status q.agent_id AgentStatus.suspended)
    n ← revoke_index (IndexKey.agent_jtis q.agent_id) q.now
    append_audit (
        lifecycle_event q AuditAction.agent_suspended "user"
          (("reason", Detail.text q.reason) ∷ ("tokens_revoked", Detail.number n) ∷ []))
    pure (with_status AgentStatus.suspended agent)

  unfoldable pub key_event : AgentRequest → Ident → String → AuditEvent
  unfolding lifecycle_event
  key_event q process key_id =
      record (lifecycle_event q AuditAction.credential_revoked "system"
        (("key_id", Detail.text key_id) ∷ ("reason", Detail.text "agent_decommissioned") ∷ [])) {
          actor_id = process;
        }

  -- The `for` loop over the active keys; `process` is the identifier of the text
  -- `decommission_process`.
  unfoldable pub revoke_keys : AgentRequest → Ident → List ApiKey → Method r.Store (Unit {0})
  unfolding deactivate_key revoke_index key_event
  revoke_keys q process [] = pure tt
  revoke_keys q process (k ∷ keys) = do
    modify_db (deactivate_key k.key_id)
    revoke_index (IndexKey.key_jtis k.key_id) q.now
    append_audit (key_event q process k.key_id)
    revoke_keys q process keys

  -- The end of `decommission`, from the last credential on.
  unfoldable pub seal : AgentRequest → ℕ → Agent → Method r.Store Agent
  unfolding update_status lifecycle_event revoke_index
  seal q keys_revoked agent = do
    modify_db (update_status q.agent_id AgentStatus.decommissioned)
    n ← revoke_index (IndexKey.agent_jtis q.agent_id) q.now
    append_audit (
        lifecycle_event q AuditAction.agent_decommissioned "user" (
          ("reason", Detail.text q.reason)
          ∷ ("keys_revoked", Detail.number keys_revoked)
          ∷ ("tokens_revoked", Detail.number n)
          ∷ []))
    pure (with_status AgentStatus.decommissioned agent)

  -- `active_keys` and what is done with them.
  unfoldable pub revoke_credentials : AgentRequest → Ident → Agent → Method r.Store Agent
  unfolding get_active_keys_for_agent revoke_keys seal
  revoke_credentials q process agent = do
    keys ← gets (λ w. get_active_keys_for_agent w.db.api_keys q.agent_id)
    revoke_keys q process keys
    seal q (length keys) agent

  unfoldable pub decommission : Ident → AgentRequest → Method r.Store Agent
  unfolding require_agent same_status revoke_credentials
  decommission process q = do
    agent ← require_agent q
    guard (not (same_status agent.status AgentStatus.decommissioned)) 422
        "Agent already decommissioned"
    revoke_credentials q process agent
