-- ===== src/Tests.antt =====
-- A small organisation: three agents, a chain of two delegations, and a world around them. The tests
-- run the services on it.
mod Delegation
mod Revocation
mod Audit
mod Proxy
mod Agents
mod Keys
mod Access
mod Workers
mod RateLimit
use ai_iam_platform.Prelude.{ℕ, ◌*◌, true, false, none, some, List, [], ◌∷◌, String}
use ai_iam_platform.Model.{
  Ident, micros, Agent, AgentStatus, Binding, DelegationGrant, AuditEvent, AuditAction, Detail,
}
use ai_iam_platform.Service.{Db, World}
use ai_iam_platform.Breaker.{Breaker}
use ai_iam_platform.Revocation.Redis.{Redis}
use ai_iam_platform.Revocation.Sample.{sample_redis}
use ai_iam_platform.Delegation.Grants.{DelegateRequest, Fresh}
use ai_iam_platform.Delegation.Revoke.{RevokeRequest}

-- The server 50 gives untrusted content, and the server 60 sends mail with its tool 7.
abbrev pub web_binding : Binding
web_binding = record {
  server_id = some 50;
  server_url = some "http://web";
  tool_filter = none;
  untrusted_source = true;
  tool_capabilities = [];
}

abbrev pub mail_binding : Binding
mail_binding = record {
  server_id = some 60;
  server_url = some "http://mail";
  tool_filter = some (7 ∷ []);
  untrusted_source = false;
  tool_capabilities = (7, "external_send" ∷ []) ∷ [];
}

abbrev pub agent_of : Ident → Agent
agent_of i = record {
  id = i;
  org_id = 9;
  name = "agent";
  description = none;
  status = AgentStatus.active;
  spiffe_id = none;
  parent_agent_id = none;
  is_ephemeral = false;
  decommission_at = none;
  allowed_scopes = "tool:execute" ∷ "delegate" ∷ [];
  mcp_bindings = web_binding ∷ mail_binding ∷ [];
  activated_by_user_id = none;
}

-- The delegation from agent 1 to agent 2.
abbrev pub first_grant : DelegationGrant
first_grant = record {
  id = 101;
  org_id = 9;
  delegating_agent_id = 1;
  delegatee_agent_id = 2;
  scopes = "tool:execute" ∷ "delegate" ∷ [];
  delegation_depth = 1;
  delegation_jti = 201;
  is_active = true;
  expires_at = 600 * micros;
  revoked_at = none;
  revocation_reason = none;
  causal_trace_id = 7;
  parent_grant_id = none;
}

-- The delegation from agent 2 to agent 3 that continues it.
abbrev pub second_grant : DelegationGrant
second_grant = record first_grant {
  id = 102;
  delegating_agent_id = 2;
  delegatee_agent_id = 3;
  scopes = "tool:execute" ∷ [];
  delegation_depth = 2;
  delegation_jti = 202;
  parent_grant_id = some 101;
}

abbrev pub sample_db : Db
sample_db = record {
  agents = agent_of 1 ∷ agent_of 2 ∷ agent_of 3 ∷ agent_of 4 ∷ [];
  grants = first_grant ∷ second_grant ∷ [];
  api_keys = [];
  on_behalf_of_grants = [];
  sessions = [];
}

abbrev pub closed_breaker : Breaker
closed_breaker = record { failures = λ s. 0; opened_at = λ s. none }

abbrev pub sample_world : World sample_redis.Store
sample_world = record {
  db = sample_db;
  committed = sample_db;
  redis = ([], []);
  audit = [];
  breaker = closed_breaker;
  outbound = [];
}

-- Agent 3 delegates to agent 4, with the token of the second grant.
abbrev pub sample_request : DelegateRequest
sample_request = record {
  delegating_agent_id = 3;
  delegatee_agent_id = 4;
  org_id = 9;
  requested_scopes = "tool:execute" ∷ [];
  verified_scopes = "tool:execute" ∷ [];
  delegating_agent_jti = some 202;
  causal_trace_id = 7;
  ttl_seconds = 600;
  on_behalf_of = none;
}

abbrev pub sample_fresh : Fresh
sample_fresh = record { grant_id = 103; jti = 203; now = 5 * micros }

-- The revocation of the first grant, half a second after a whole one.
abbrev pub sample_revocation : RevokeRequest
sample_revocation = record {
  grant_id = 101;
  org_id = 9;
  actor_id = 1;
  reason = "test";
  trace_id = 8;
  now = 10_500_000;
}

abbrev pub sample_event : Ident → AuditEvent
sample_event org = record {
  org_id = org;
  action = AuditAction.delegation_granted;
  actor_type = "agent";
  actor_id = 1;
  agent_id = some 1;
  causal_trace_id = 7;
  outcome = "success";
  resource_id = none;
  details = ("n", Detail.number 1) ∷ [];
}
