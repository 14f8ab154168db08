-- ===== src/Proxy/Records.antt =====
-- What a tool call writes and asks: its session row, its audit entry and its query of the policy
-- engine (`_block` and `execute_tool`, backend/app/services/mcp_proxy_service.py).
use ai_iam_platform.Prelude.{ℕ, ◌-◌, ◌/◌, String, Bool, Option, none, some, [], ◌∷◌, ℕ_eq}
use ai_iam_platform.Model.{
  Binding, ServerUrl, McpSession, SessionStatus, PolicyDecision, ErrorCode, BlockReason, AuditEvent,
  AuditAction, Detail, Details,
}
use ai_iam_platform.Policy.{PolicyInput}
use ai_iam_platform.Proxy.{Outside, ToolCall, capabilities_of}

unfoldable pub hash_or_none : Outside → Option String → Option String
hash_or_none o none = none
hash_or_none o (some text) = some (o.hash_payload text)

unfoldable pub session_row :
    ToolCall
    → Outside
    → ServerUrl
    → SessionStatus
    → PolicyDecision
    → Option BlockReason
    → Option String
    → Option ErrorCode
    → ℕ
    → Bool
    → McpSession
unfolding hash_or_none
session_row c o url status decision reason result error duration untrusted = record {
  id = c.session_id;
  org_id = c.org_id;
  agent_id = c.agent_id;
  mcp_server_id = c.mcp_server_id;
  mcp_server_url = url;
  tool_name = c.tool_name;
  args_hash = o.hash_payload c.tool_args;
  result_hash = hash_or_none o result;
  status = status;
  error_code = error;
  blocking_reason = reason;
  duration_ms = duration;
  policy_decision = decision;
  source_untrusted = untrusted;
  causal_trace_id = c.causal_trace_id;
}

unfoldable pub call_event : ToolCall → Outside → AuditAction → String → Details → AuditEvent
call_event c o action outcome details = record {
  org_id = c.org_id;
  action = action;
  actor_type = "agent";
  actor_id = c.agent_id;
  agent_id = some c.agent_id;
  causal_trace_id = c.causal_trace_id;
  outcome = outcome;
  resource_id = some c.tool_name;
  details =
      ("mcp_server_id", Detail.ident c.mcp_server_id)
      ∷ ("tool_name", Detail.ident c.tool_name)
      ∷ ("args_hash", Detail.text (o.hash_payload c.tool_args))
      ∷ details;
}

unfoldable pub text_or_null : Option String → Detail
text_or_null none = Detail.null
text_or_null (some text) = Detail.text text

-- The entries `result_hash`, `duration_ms` and `error_code` of the details.
unfoldable pub outcome_details : Outside → Option String → ℕ → Detail → Details
unfolding hash_or_none text_or_null
outcome_details o result duration code =
    ("result_hash", text_or_null (hash_or_none o result))
    ∷ ("duration_ms", Detail.number duration)
    ∷ ("error_code", code)
    ∷ []

unfoldable pub duration : ToolCall → ℕ
duration c = (c.finished - c.started) / 1000

unfoldable pub policy_input : ToolCall → Binding → Bool → PolicyInput
unfolding capabilities_of
policy_input c b tainted = record {
  agent_id = c.agent_id;
  org_id = c.org_id;
  action = "tool:execute";
  resource_type = "mcp_tool";
  resource_id = c.tool_name;
  token_scopes = c.token_scopes;
  delegation_depth = c.delegation_depth;
  capabilities = capabilities_of b.tool_capabilities c.tool_name;
  provenance_tainted = tainted;
}
