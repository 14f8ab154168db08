-- ===== src/Proxy/Execute.antt =====
-- The stateful half of `execute_tool` (backend/app/services/mcp_proxy_service.py): every gate either
-- blocks the call, with its session row and audit entry, or hands it to the next.
pub mod Recorded
pub mod Settled
pub mod Mediated
pub mod Taint
pub mod Trace
use ai_iam_platform.Prelude.{
  ℕ, suc, ◌+◌, ◌-◌, ◌/◌, String, Bool, true, false, Option, none, some, List, [], ◌∷◌, ◌++◌, ◌==◌,
  ◌&&◌, not, ℕ_eq, if◌then◌else◌, ltb, contains, select, any, length,
}
use ai_iam_platform.Model.{
  Ident, Scope, micros, Agent, Binding, ServerUrl, at_url, unresolved_server, McpSession,
  SessionStatus, PolicyDecision, ErrorCode, BlockReason, AuditEvent, AuditAction, Detail,
}
use ai_iam_platform.Service.{
  Db, World, HttpError, Result, return, raise, Method, pure, http_error, and_then, ◌>>=◌, ◌>>◌,
  gets, append_audit, modify_db, commit,
}
use ai_iam_platform.Breaker.{Breaker, is_open, record_success, record_failure}
use ai_iam_platform.Policy.{
  PolicyInput, OpaReply, Permission, granted, denied, crashed, check_permission,
  classify_policy_denial,
}
use ai_iam_platform.Delegation.Grants.{agent_by_id_and_org}
use ai_iam_platform.Proxy.{
  Outside, ToolCall, ToolResult, Resolved, resolved, unresolved, resolve_mcp_binding,
  trace_is_tainted, filter_mismatch, task_mismatch, resource_mismatch, read_reply, note_outcome,
}
use ai_iam_platform.Proxy.Records.{session_row, call_event, duration, policy_input, outcome_details}

-- The row that `_record_session` adds.
abbrev pub add_session : McpSession → Db → Db
add_session s db = record db { sessions = db.sessions ++ (s ∷ []) }

-- `_record_session`: where the database does not take the row, the flush raises.
unfoldable pub record_session : {S : Type 0} → Outside → McpSession → Method S (Unit {0})
record_session o row =
    if o.inserts row then modify_db (add_session row) else http_error 500 "DBAPIError"

module _ {S : Type 0} (o : Outside) (c : ToolCall) where
  -- `_block`, and the `HTTPException` that every caller of it raises next.
  unfoldable pub block_call :
      ServerUrl → PolicyDecision → BlockReason → String → Method S ToolResult
  unfolding record_session session_row call_event
  block_call url decision reason error = do
    record_session o
        ((session_row c o url SessionStatus.blocked decision (some reason) none none 0 false))
    append_audit (
        call_event c o AuditAction.mcp_tool_blocked "denied"
          (("blocking_reason", Detail.reason reason) ∷ []))
    commit
    http_error 403 error

  -- The exchange with the server, behind the circuit breaker.
  unfoldable pub exchange_reply :
      String → Bool × Breaker → Method S (Option String × Option ErrorCode)
  unfolding read_reply note_outcome
  exchange_reply url (true, b) w =
      (return (none, some ErrorCode.circuit_open), record w { breaker = b })
  exchange_reply url (false, b) w =
      let outcome = read_reply o.decode (o.call url c.tool_name c.tool_args) in
      (
        return outcome,
        record w {
          breaker = note_outcome b c.mcp_server_id c.finished outcome.1;
          outbound = w.outbound ++ ((url, c.tool_name) ∷ []);
        },
      )

  -- `_call_mcp_server`
  unfoldable pub call_mcp_server : String → Method S (Option String × Option ErrorCode)
  unfolding exchange_reply is_open
  call_mcp_server url w = exchange_reply url (is_open w.breaker c.mcp_server_id c.started) w

  -- The end of the method, on the result and the error code of the exchange.
  unfoldable pub finish : String → Binding → Option String × Option ErrorCode → Method S ToolResult
  unfolding record_session session_row call_event duration outcome_details
  finish url b (result, none) = do
    record_session o (
        (session_row c o (at_url url) SessionStatus.success PolicyDecision.allowed none result none
          (duration c) b.untrusted_source))
    append_audit (
        call_event c o AuditAction.mcp_tool_completed "success"
          (outcome_details o result (duration c) Detail.null))
    commit
    pure (record {
      session_id = c.session_id;
      result = result;
      duration_ms = duration c;
      tool_name = c.tool_name;
    })
  finish url b (result, some e) = do
    record_session o (
        (session_row c o (at_url url) SessionStatus.error PolicyDecision.allowed none result
          (some e) (duration c) false))
    append_audit (
        call_event c o AuditAction.mcp_tool_called "error"
          (outcome_details o result (duration c) (Detail.error e)))
    commit
    http_error 502 "mcp_tool_error"

  unfoldable pub forward : String → Binding → Method S ToolResult
  unfolding call_mcp_server finish
  forward url b = do outcome ← call_mcp_server url; finish url b outcome

  unfoldable pub gate_tool_filter : String → Binding → Method S ToolResult
  unfolding filter_mismatch block_call forward
  gate_tool_filter url b =
      if filter_mismatch b.tool_filter c.tool_name
      then block_call (at_url url) PolicyDecision.tool_filter_denied BlockReason.not_in_tool_filter
          "tool_call_blocked"
      else forward url b

  unfoldable pub after_permission : String → Binding → Permission → Method S ToolResult
  unfolding gate_tool_filter classify_policy_denial
  after_permission url b granted = gate_tool_filter url b
  after_permission url b (denied reasons) =
      block_call (at_url url) (classify_policy_denial reasons)
        (BlockReason.denied_by_policy reasons) "tool_call_blocked"
  after_permission url b crashed = http_error 500 "JSONDecodeError"

  unfoldable pub gate_policy : String → Binding → Method S ToolResult
  unfolding after_permission policy_input trace_is_tainted check_permission
  gate_policy url b = do
    sessions ← gets (λ w. w.db.sessions)
    after_permission url b (
        check_permission
          (o.opa (policy_input c b (trace_is_tainted sessions c.causal_trace_id c.org_id))))

  unfoldable pub gate_task_scope : String → Binding → Method S ToolResult
  unfolding gate_policy task_mismatch
  gate_task_scope url b =
      if task_mismatch c.authorization_details c.mcp_server_id c.tool_name
      then block_call (at_url url) PolicyDecision.task_scope_denied
          BlockReason.task_scoped_to_other_call "token_not_authorized_for_action"
      else gate_policy url b

  unfoldable pub gate_resource : Resolved → Method S ToolResult
  unfolding gate_task_scope resource_mismatch
  gate_resource (unresolved reason) =
      block_call (unresolved_server c.mcp_server_id) PolicyDecision.binding_denied reason
        "tool_call_blocked"
  gate_resource (resolved url b) =
      if resource_mismatch c.token_resource c.mcp_server_id
      then block_call (at_url url) PolicyDecision.resource_denied
          (BlockReason.bound_to_other_resource c.mcp_server_id) "tool_call_blocked"
      else gate_task_scope url b

  unfoldable pub execute_tool : Method S ToolResult
  unfolding gate_resource resolve_mcp_binding
  execute_tool = do
    agents ← gets (λ w. w.db.agents)
    gate_resource (resolve_mcp_binding agents c.agent_id c.org_id c.mcp_server_id)
