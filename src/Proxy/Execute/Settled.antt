-- ===== src/Proxy/Execute/Settled.antt =====
-- A tool call that starts with no uncommitted change ends with none.
use ai_iam_platform.Prelude.{
  ◌≡◌, refl, inl, inr, String, Bool, true, false, Option, none, some, ◌++◌, [], ◌∷◌, if◌then◌else◌,
  Bool-cases,
}
use ai_iam_platform.Model.{Binding, ServerUrl, McpSession, ErrorCode, PolicyDecision, BlockReason}
use ai_iam_platform.Service.{World, Method, Result, return, raise, close_session, ◌>>=◌, ◌>>◌}
use ai_iam_platform.Breaker.{Breaker, is_open}
use ai_iam_platform.Policy.{Permission, granted, denied, crashed}
use ai_iam_platform.Proxy.{
  Outside, ToolCall, ToolResult, Resolved, resolved, unresolved, filter_mismatch, task_mismatch,
  resource_mismatch, read_reply, note_outcome,
}
use ai_iam_platform.Proxy.Execute.{
  add_session, record_session, block_call, exchange_reply, call_mcp_server, finish, forward,
  gate_tool_filter, after_permission, gate_policy, gate_task_scope, gate_resource, execute_tool,
}

abbrev pub IsSettled : {S : Type 0} → World S → Type 0
IsSettled w = w.committed ≡ w.db

pub close_session-IsSettled :
    {S A : Type 0} (r : Result A) (w : World S) → IsSettled (close_session r w).1
close_session-IsSettled (return a) w = refl
close_session-IsSettled (raise e) w = refl

module _ {S : Type 0} (o : Outside) (c : ToolCall) where
  record_session-IsSettled :
      (row : McpSession) (k : Method S ToolResult) (w : World S)
      → IsSettled w
      → ((v : World S) → IsSettled (k v).1)
      → IsSettled ((record_session o row >> k) w).1
  unfolding record_session
  record_session-IsSettled row k w h f = elim (Bool-cases (o.inserts row)) [
    | inl e ↦ rw e (f (record w { db = add_session row w.db }))
    | inr e ↦ rw e h
  ]

  block_call-IsSettled :
      (url : ServerUrl) (d : PolicyDecision) (reason : BlockReason) (e : String) (w : World S)
      → IsSettled w
      → IsSettled (block_call o c url d reason e w).1
  unfolding block_call
  block_call-IsSettled url d reason e w h = record_session-IsSettled _ _ w h (λ v. refl)

  finish-IsSettled :
      (url : String) (b : Binding) (out : Option String × Option ErrorCode) (w : World S)
      → IsSettled w
      → IsSettled (finish o c url b out w).1
  unfolding finish
  finish-IsSettled url b (result, none) w h = record_session-IsSettled _ _ w h (λ v. refl)
  finish-IsSettled url b (result, some e) w h = record_session-IsSettled _ _ w h (λ v. refl)

  exchange-IsSettled :
      (url : String) (b : Binding) (p : Bool × Breaker) (w : World S)
      → IsSettled w
      → IsSettled ((exchange_reply o c url p >>= finish o c url b) w).1
  unfolding exchange_reply
  exchange-IsSettled url b (true, br) w h = finish-IsSettled url b _ (record w { breaker = br }) h
  exchange-IsSettled url b (false, br) w h =
      let out = read_reply o.decode (o.call url c.tool_name c.tool_args) in
      finish-IsSettled url b out
        (record w {
          breaker = note_outcome br c.mcp_server_id c.finished out.1;
          outbound = w.outbound ++ ((url, c.tool_name) ∷ []);
        })
        h

  if-IsSettled :
      (t : Bool) (m k : Method S ToolResult) (w : World S)
      → IsSettled (m w).1
      → IsSettled (k w).1
      → IsSettled ((if t then m else k) w).1
  if-IsSettled true m k w p q = p
  if-IsSettled false m k w p q = q

  after_permission-IsSettled :
      (url : String) (b : Binding) (p : Permission) (w : World S)
      → IsSettled w
      → IsSettled (after_permission o c url b p w).1
  unfolding after_permission gate_tool_filter forward call_mcp_server
  after_permission-IsSettled url b granted w h =
      if-IsSettled (filter_mismatch b.tool_filter c.tool_name) _ _ w
        (block_call-IsSettled _ _ _ "tool_call_blocked" w h)
        (exchange-IsSettled url b (is_open w.breaker c.mcp_server_id c.started) w h)
  after_permission-IsSettled url b (denied reasons) w h =
      block_call-IsSettled _ _ _ "tool_call_blocked" w h
  after_permission-IsSettled url b crashed w h = h

  gate_resource-IsSettled :
      (r : Resolved) (w : World S) → IsSettled w → IsSettled (gate_resource o c r w).1
  unfolding gate_resource gate_task_scope gate_policy
  gate_resource-IsSettled (unresolved reason) w h =
      block_call-IsSettled _ _ _ "tool_call_blocked" w h
  gate_resource-IsSettled (resolved url b) w h =
      if-IsSettled (resource_mismatch c.token_resource c.mcp_server_id) _ _ w
        (block_call-IsSettled _ _ _ "tool_call_blocked" w h)
        (if-IsSettled (task_mismatch c.authorization_details c.mcp_server_id c.tool_name) _ _ w
          (block_call-IsSettled _ _ _ "token_not_authorized_for_action" w h)
          (after_permission-IsSettled url b _ w h))

  pub execute_tool-IsSettled : (w : World S) → IsSettled w → IsSettled (execute_tool o c w).1
  unfolding execute_tool
  execute_tool-IsSettled w h = gate_resource-IsSettled _ w h
