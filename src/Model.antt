-- ===== src/Model.antt =====
-- The rows of the tables that the services share (backend/app/models) and their constants
-- (backend/app/core/constants.py). An identifier (a uuid, a jti, a server or tool name) is only
-- compared for equality, so it is a number; a scope is the text that a token carries. A moment of
-- `datetime.now` is in microseconds, and a `time.time()` that is rounded down is in seconds.
use ai_iam_platform.Prelude.{ℕ, String, Bool, true, false, Option, List, [], ◌∷◌}

abbrev pub Ident : Type 0
Ident = ℕ

abbrev pub Scope : Type 0
Scope = String

-- Microseconds in a second.
abbrev pub micros : ℕ
micros = 1_000_000

pub data AgentStatus : Type 0 where
  pending active suspended decommissioned : AgentStatus

pub data AuditAction : Type 0 where
  agent_registered agent_activated agent_suspended agent_decommissioned : AuditAction
  credential_issued credential_rotated credential_revoked credential_used : AuditAction
  access_granted access_denied : AuditAction
  mcp_tool_called mcp_tool_completed mcp_tool_blocked : AuditAction
  delegation_granted delegation_revoked delegation_used : AuditAction
  on_behalf_of_granted on_behalf_of_revoked : AuditAction
  organization_created : AuditAction

-- The values of `PermissionScope`, and the test of `PermissionScope(s)`.
abbrev pub permission_scopes : List Scope
permission_scopes =
    "agent:read" ∷ "agent:write" ∷ "tool:execute" ∷ "audit:read" ∷ "credential:rotate" ∷ "delegate"
    ∷ []

-- One entry of `Agent.mcp_bindings`; a key that is missing is `none`, or the default of its `get`.
pub record Binding : Type 0 where
  pub server_id : Option Ident
  pub server_url : Option String
  pub tool_filter : Option (List Ident)
  pub untrusted_source : Bool
  pub tool_capabilities : List (Ident × List String)

pub record Agent : Type 0 where
  pub id : Ident
  pub org_id : Ident
  pub name : String
  pub description : Option String
  pub status : AgentStatus
  pub spiffe_id : Option String
  pub parent_agent_id : Option Ident
  pub is_ephemeral : Bool
  pub decommission_at : Option ℕ
  pub allowed_scopes : List Scope
  pub mcp_bindings : List Binding
  pub activated_by_user_id : Option Ident

pub record DelegationGrant : Type 0 where
  pub id : Ident
  pub org_id : Ident
  pub delegating_agent_id : Ident
  pub delegatee_agent_id : Ident
  pub scopes : List Scope
  pub delegation_depth : ℕ
  pub delegation_jti : Ident
  pub is_active : Bool
  pub expires_at : ℕ
  pub revoked_at : Option ℕ
  pub revocation_reason : Option String
  pub causal_trace_id : Ident
  pub parent_grant_id : Option Ident

pub record ApiKey : Type 0 where
  pub id : Ident
  pub agent_id : Ident
  pub org_id : Ident
  pub key_id : String
  pub hashed_secret : String
  pub key_hint : String
  pub scopes : List Scope
  pub is_active : Bool
  pub expires_at : Option ℕ
  pub last_used_at : Option ℕ
  pub use_count : ℕ
  pub rotated_at : Option ℕ
  pub rotated_from_id : Option Ident
  pub previous_hashed_secret : Option String
  pub previous_key_expires_at : Option ℕ

pub record OnBehalfOfGrant : Type 0 where
  pub id : Ident
  pub org_id : Ident
  pub agent_id : Ident
  pub granted_by_user_id : Ident
  pub scopes : List Scope
  pub is_active : Bool
  pub expires_at : ℕ
  pub revoked_at : Option ℕ
  pub revocation_reason : Option String

pub data SessionStatus : Type 0 where
  success error blocked : SessionStatus

-- The values of `McpSession.policy_decision`.
pub data PolicyDecision : Type 0 where
  allowed : PolicyDecision
  policy_denied provenance_denied policy_unavailable : PolicyDecision
  tool_filter_denied binding_denied resource_denied task_scope_denied : PolicyDecision

-- The error codes of a proxied call: `mcp_circuit_open`, `mcp_http_<status>` and so on.
pub data ErrorCode : Type 0 where
  circuit_open response_too_large timed_out connection_refused invalid_response : ErrorCode
  http_status : ℕ → ErrorCode
  unexpected : String → ErrorCode

-- Why a proxied call was blocked; each stands for the text that the code builds.
pub data BlockReason : Type 0 where
  agent_not_found no_server_url not_bound : BlockReason
  bound_to_other_resource : Ident → BlockReason
  task_scoped_to_other_call : BlockReason
  denied_by_policy : List String → BlockReason
  not_in_tool_filter : BlockReason

-- The column `mcp_server_url`: an address, or the text `unresolved:{mcp_server_id}`.
pub data ServerUrl : Type 0 where
  at_url : String → ServerUrl
  unresolved_server : Ident → ServerUrl

pub record McpSession : Type 0 where
  pub id : Ident
  pub org_id : Ident
  pub agent_id : Ident
  pub mcp_server_id : Ident
  pub mcp_server_url : ServerUrl
  pub tool_name : Ident
  pub args_hash : String
  pub result_hash : Option String
  pub status : SessionStatus
  pub error_code : Option ErrorCode
  pub blocking_reason : Option BlockReason
  pub duration_ms : ℕ
  pub policy_decision : PolicyDecision
  pub source_untrusted : Bool
  pub causal_trace_id : Ident

-- A value of the `details` of an audit entry.
pub data Detail : Type 0 where
  null : Detail
  number : ℕ → Detail
  ident : Ident → Detail
  flag : Bool → Detail
  text : String → Detail
  scopes : List Scope → Detail
  reason : BlockReason → Detail
  error : ErrorCode → Detail

abbrev pub Details : Type 0
Details = List (String × Detail)

-- The arguments of a call of `audit_repo.append` that the services give.
pub record AuditEvent : Type 0 where
  pub org_id : Ident
  pub action : AuditAction
  pub actor_type : String
  pub actor_id : Ident
  pub agent_id : Option Ident
  pub causal_trace_id : Ident
  pub outcome : String
  pub resource_id : Option Ident
  pub details : Details

unfoldable pub is_active_status : AgentStatus → Bool
is_active_status active = true
is_active_status _ = false
