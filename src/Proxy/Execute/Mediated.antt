-- ===== src/Proxy/Execute/Mediated.antt =====
-- Complete mediation: no request goes to an MCP server past a gate.
use ai_iam_platform.Prelude.{
  ◌≡◌, refl, ◌⊎◌, inl, inr, String, Bool, true, false, Option, none, some, List, [], ◌∷◌, ◌++◌, In,
  if◌then◌else◌, Bool-cases,
}
use ai_iam_platform.Model.{
  Ident, Binding, ServerUrl, McpSession, PolicyDecision, BlockReason, ErrorCode,
}
use ai_iam_platform.Service.{World, Method, ◌>>=◌, ◌>>◌}
use ai_iam_platform.Breaker.{Breaker, is_open}
use ai_iam_platform.Policy.{OpaReply, Permission, granted, denied, crashed, check_permission}
use ai_iam_platform.Proxy.{
  Outside, ToolCall, ToolResult, Resolved, resolved, unresolved, trace_is_tainted, filter_mismatch,
  task_mismatch, resource_mismatch, resolve_mcp_binding,
}
use ai_iam_platform.Proxy.Records.{policy_input}
use ai_iam_platform.Proxy.Resolve.{
  IsOwnBinding, resolve_mcp_binding-IsOwnBinding, resource-matches, task-matches, filter-matches,
}
use ai_iam_platform.Proxy.Execute.{
  add_session, record_session, block_call, exchange_reply, call_mcp_server, finish, forward,
  gate_tool_filter, after_permission, gate_policy, gate_task_scope, gate_resource, execute_tool,
}

granted-answer :
    (r : OpaReply)
    → check_permission r ≡ granted
    → (reasons : Option (List String)) × (r ≡ OpaReply.answered (some true) reasons)
unfolding check_permission
granted-answer OpaReply.timeout h = absurd (cc)
granted-answer OpaReply.http_error h = absurd (cc)
granted-answer OpaReply.malformed h = absurd (cc)
granted-answer (OpaReply.answered none reasons) h = absurd (cc)
granted-answer (OpaReply.answered (some true) reasons) h = (reasons, refl)
granted-answer (OpaReply.answered (some false) reasons) h = absurd (cc)

module _ {S : Type 0} (o : Outside) (c : ToolCall) where
  -- Every gate of the call was passed, in the terms of the tables, the token and the policy engine.
  pub record IsMediated (w : World S) (url : String) (b : Binding) : Type 0 where
    pub own : IsOwnBinding w.db.agents c.agent_id c.org_id c.mcp_server_id url b
    pub resource : (i : Ident) → c.token_resource ≡ some i → i ≡ c.mcp_server_id
    pub task :
        (entries : List (Ident × Ident))
        → c.authorization_details ≡ some entries
        → In (c.mcp_server_id, c.tool_name) entries
    pub reasons : Option (List String)
    pub policy :
        o.opa (policy_input c b (trace_is_tainted w.db.sessions c.causal_trace_id c.org_id))
        ≡ OpaReply.answered (some true) reasons
    pub tool : (tools : List Ident) → b.tool_filter ≡ some tools → In c.tool_name tools
    pub closed : (is_open w.breaker c.mcp_server_id c.started).0 ≡ false

  -- No request was sent, or one was, to the address, and the condition holds.
  IsSent : String → Type 0 → World S → World S → Type 0
  IsSent url P w w' =
      (w'.outbound ≡ w.outbound) ⊎ ((w'.outbound ≡ w.outbound ++ ((url, c.tool_name) ∷ [])) × P)

  record_session-outbound :
      (row : McpSession) (k : Method S ToolResult) (w : World S)
      → ((v : World S) → (k v).1.outbound ≡ v.outbound)
      → ((record_session o row >> k) w).1.outbound ≡ w.outbound
  unfolding record_session
  record_session-outbound row k w h = elim (Bool-cases (o.inserts row)) [
    | inl e ↦ rw e (h (record w { db = add_session row w.db }))
    | inr e ↦ rw e refl
  ]

  block_call-outbound :
      (url : ServerUrl) (d : PolicyDecision) (reason : BlockReason) (e : String) (w : World S)
      → (block_call o c url d reason e w).1.outbound ≡ w.outbound
  unfolding block_call
  block_call-outbound url d reason e w = record_session-outbound _ _ w (λ v. refl)

  finish-outbound :
      (url : String) (b : Binding) (out : Option String × Option ErrorCode) (w : World S)
      → (finish o c url b out w).1.outbound ≡ w.outbound
  unfolding finish
  finish-outbound url b (result, none) w = record_session-outbound _ _ w (λ v. refl)
  finish-outbound url b (result, some e) w = record_session-outbound _ _ w (λ v. refl)

  exchange-outbound :
      (url : String) (b : Binding) (p : Bool × Breaker) (w : World S)
      → IsSent url (p.0 ≡ false) w ((exchange_reply o c url p >>= finish o c url b) w).1
  unfolding exchange_reply IsSent
  exchange-outbound url b (true, br) w = inl (finish-outbound url b _ _)
  exchange-outbound url b (false, br) w = inr (finish-outbound url b _ _, refl)

  forward-outbound :
      (url : String) (b : Binding) (w : World S)
      → IsSent url
          ((is_open w.breaker c.mcp_server_id c.started).0 ≡ false)
          w
          (forward o c url b w).1
  unfolding forward call_mcp_server
  forward-outbound url b w = exchange-outbound url b (is_open w.breaker c.mcp_server_id c.started) w

  if-IsSent :
      (url : String) (P : Type 0) (t : Bool) (m k : Method S ToolResult) (w : World S)
      → (m w).1.outbound ≡ w.outbound
      → (t ≡ false → IsSent url P w (k w).1)
      → IsSent url P w ((if t then m else k) w).1
  unfolding IsSent
  if-IsSent url P true m k w blocked go = inl blocked
  if-IsSent url P false m k w blocked go = go refl

  IsSent-map :
      (url : String) (P Q : Type 0) (w w' : World S)
      → (P → Q)
      → IsSent url P w w'
      → IsSent url Q w w'
  unfolding IsSent
  IsSent-map url P Q w w' f (inl same) = inl same
  IsSent-map url P Q w w' f (inr (sent, p)) = inr (sent, f p)

  after_permission-IsSent :
      (url : String) (b : Binding) (P : Type 0) (p : Permission) (w : World S)
      → (p ≡ granted
          → filter_mismatch b.tool_filter c.tool_name ≡ false
          → (is_open w.breaker c.mcp_server_id c.started).0 ≡ false
          → P)
      → IsSent url P w (after_permission o c url b p w).1
  unfolding after_permission gate_tool_filter IsSent
  after_permission-IsSent url b P granted w f =
      if-IsSent url P (filter_mismatch b.tool_filter c.tool_name) _ _ w
        (block_call-outbound _ _ _ _ w)
        (λ e. IsSent-map url _ P w (forward o c url b w).1 (f refl e) (forward-outbound url b w))
  after_permission-IsSent url b P (denied reasons) w f = inl (block_call-outbound _ _ _ _ w)
  after_permission-IsSent url b P crashed w f = inl refl

  gate_resource-IsSent :
      (w : World S) (r : Resolved)
      → resolve_mcp_binding w.db.agents c.agent_id c.org_id c.mcp_server_id ≡ r
      → ((gate_resource o c r w).1.outbound ≡ w.outbound)
        ⊎ ((url : String) × (b : Binding) × ((gate_resource o c r w).1.outbound
              ≡ w.outbound ++ ((url, c.tool_name) ∷ []))
            × IsMediated w url b)
  unfolding gate_resource gate_task_scope gate_policy IsSent
  gate_resource-IsSent w (unresolved reason) h = inl (block_call-outbound _ _ _ _ w)
  gate_resource-IsSent w (resolved url b) h =
      let input = policy_input c b (trace_is_tainted w.db.sessions c.causal_trace_id c.org_id) in
      let sent : IsSent url (IsMediated w url b) w (gate_resource o c (resolved url b) w).1 =
        if-IsSent url _ (resource_mismatch c.token_resource c.mcp_server_id) _ _ w
          (block_call-outbound _ _ _ _ w)
          (λ resource.
            if-IsSent url _ (task_mismatch c.authorization_details c.mcp_server_id c.tool_name) _ _
              w (block_call-outbound _ _ _ _ w)
              (λ task.
                after_permission-IsSent url b _ (check_permission (o.opa input)) w
                  (λ policy tool closed.
                    let (reasons, answer) = granted-answer (o.opa input) policy in
                    record {
                      own = resolve_mcp_binding-IsOwnBinding _ _ _ _ url b h;
                      resource = resource-matches _ _ resource;
                      task = task-matches _ _ _ task;
                      reasons = reasons;
                      policy = answer;
                      tool = filter-matches _ _ tool;
                      closed = closed;
                    }))) in
      elim sent [ inl same ↦ inl same | inr (e, m) ↦ inr (url, b, e, m) ]

  -- A tool call sends no request to an MCP server, or it sends exactly one: to the address of an entry
  -- of the calling agent's own bindings, for a server that the token's resource names if it names one,
  -- for a pair of server and tool that the token's authorization details list if there are any, with
  -- the policy engine's answer `allow` for the taint of this trace, for a tool that the binding's
  -- filter lists if there is one, and with the circuit breaker of the server closed.
  pub execute_tool-IsMediated :
      (w : World S)
      → ((execute_tool o c w).1.outbound ≡ w.outbound)
        ⊎ ((url : String) × (b : Binding) × ((execute_tool o c w).1.outbound
              ≡ w.outbound ++ ((url, c.tool_name) ∷ []))
            × IsMediated w url b)
  unfolding execute_tool
  execute_tool-IsMediated w = gate_resource-IsSent w _ refl
