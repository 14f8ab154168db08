-- ===== src/Proxy/Execute/Recorded.antt =====
-- Every call leaves its record, and the record outlives the rollback of the request.
use ai_iam_platform.Prelude.{
  ◌≡◌, ◌≢◌, refl, String, Bool, true, false, Option, none, some, [], ◌∷◌, ◌++◌, if◌then◌else◌,
  arith, sym, ap, ◌∙◌,
}
use ai_iam_platform.Model.{
  Binding, McpSession, ServerUrl, at_url, PolicyDecision, BlockReason, AuditEvent, ErrorCode,
  SessionStatus,
}
use ai_iam_platform.Service.{
  World, Result, return, raise, Method, ◌>>=◌, close_session, with_session,
}
use ai_iam_platform.Breaker.{Breaker, is_open}
use ai_iam_platform.Policy.{
  OpaReply, Permission, granted, denied, crashed, check_permission, PolicyInput,
}
use ai_iam_platform.Proxy.{
  Outside, ToolCall, ToolResult, Resolved, resolved, unresolved, filter_mismatch, task_mismatch,
  resource_mismatch, read_reply, note_outcome,
}
use ai_iam_platform.Proxy.Records.{session_row, duration}
use ai_iam_platform.Proxy.Execute.{
  add_session, record_session, block_call, exchange_reply, call_mcp_server, finish, forward,
  gate_tool_filter, after_permission, gate_policy, gate_task_scope, gate_resource, execute_tool,
}

pub permission-answers : (r : OpaReply) → r ≢ OpaReply.malformed → check_permission r ≢ crashed
unfolding check_permission
permission-answers r q e = ground arith

-- The database takes the rows of the call.
abbrev pub Fits : Outside → ToolCall → Type 0
Fits o c = (row : McpSession) → row.id ≡ c.session_id → o.inserts row ≡ true

module _ {S : Type 0} (o : Outside) (c : ToolCall) where
  -- One session row with the id of the call and one audit entry of its trace were added, all of it is
  -- committed, and nothing else of the tables has changed.
  pub record IsRecorded (w w' : World S) : Type 0 where
    pub row : McpSession
    pub event : AuditEvent
    pub added : w'.db ≡ add_session row w.db
    pub committed : w'.committed ≡ w'.db
    pub audited : w'.audit ≡ w.audit ++ (event ∷ [])
    pub row_id : row.id ≡ c.session_id
    pub row_trace : row.causal_trace_id ≡ c.causal_trace_id
    pub event_trace : event.causal_trace_id ≡ c.causal_trace_id

  block_call-IsRecorded :
      Fits o c
      → (url : ServerUrl) (d : PolicyDecision) (reason : BlockReason) (e : String) (w : World S)
      → IsRecorded w (block_call o c url d reason e w).1
  unfolding block_call record_session
  block_call-IsRecorded fits url d reason e w =
      let row = session_row c o url SessionStatus.blocked d (some reason) none none 0 false in
      rw (fits row refl) (record {
        row = row;
        event = _;
        added = refl;
        committed = refl;
        audited = refl;
        row_id = refl;
        row_trace = refl;
        event_trace = refl;
      })

  finish-IsRecorded :
      Fits o c
      → (url : String) (b : Binding) (out : Option String × Option ErrorCode) (w : World S)
      → IsRecorded w (finish o c url b out w).1
  unfolding finish record_session
  finish-IsRecorded fits url b (result, none) w =
      let row =
        session_row c o (at_url url) SessionStatus.success PolicyDecision.allowed none result none
          (duration c) b.untrusted_source in
      rw (fits row refl) (record {
        row = row;
        event = _;
        added = refl;
        committed = refl;
        audited = refl;
        row_id = refl;
        row_trace = refl;
        event_trace = refl;
      })
  finish-IsRecorded fits url b (result, some e) w =
      let row =
        session_row c o (at_url url) SessionStatus.error PolicyDecision.allowed none result (some e)
          (duration c) false in
      rw (fits row refl) (record {
        row = row;
        event = _;
        added = refl;
        committed = refl;
        audited = refl;
        row_id = refl;
        row_trace = refl;
        event_trace = refl;
      })

  -- What is equal in the tables, the commit and the audit log is as good a start and end.
  transfer :
      (w w₁ w₂ w₃ : World S)
      → w₁.db ≡ w.db
      → w₁.audit ≡ w.audit
      → w₃.db ≡ w₂.db
      → w₃.committed ≡ w₂.db
      → w₃.audit ≡ w₂.audit
      → IsRecorded w₁ w₂
      → IsRecorded w w₃
  transfer w w₁ w₂ w₃ d a d' c' a' k = record {
    row = k.row;
    event = k.event;
    added = d' ∙ (k.added ∙ ap (add_session k.row) d);
    committed = c' ∙ sym d';
    audited = a' ∙ (k.audited ∙ ap (λ l. l ++ (k.event ∷ [])) a);
    row_id = k.row_id;
    row_trace = k.row_trace;
    event_trace = k.event_trace;
  }

  if-IsRecorded :
      (b : Bool) (m k : Method S ToolResult) (w : World S)
      → IsRecorded w (m w).1
      → IsRecorded w (k w).1
      → IsRecorded w ((if b then m else k) w).1
  if-IsRecorded true m k w p q = p
  if-IsRecorded false m k w p q = q

  exchange-IsRecorded :
      Fits o c
      → (url : String) (b : Binding) (p : Bool × Breaker) (w : World S)
      → IsRecorded w ((exchange_reply o c url p >>= finish o c url b) w).1
  unfolding exchange_reply
  exchange-IsRecorded fits url b (true, br) w =
      let w₁ : World S = (record w { breaker = br }) in
      let out : Option String × Option ErrorCode = (none, some ErrorCode.circuit_open) in
      transfer w w₁ _ _ refl refl refl (finish-IsRecorded fits url b out w₁).committed refl
        (finish-IsRecorded fits url b out w₁)
  exchange-IsRecorded fits url b (false, br) w =
      let out : Option String × Option ErrorCode =
        read_reply o.decode (o.call url c.tool_name c.tool_args) in
      let w₁ : World S = (record w {
        breaker = note_outcome br c.mcp_server_id c.finished out.1;
        outbound = w.outbound ++ ((url, c.tool_name) ∷ []);
      }) in
      transfer w w₁ _ _ refl refl refl (finish-IsRecorded fits url b out w₁).committed refl
        (finish-IsRecorded fits url b out w₁)

  forward-IsRecorded :
      Fits o c → (url : String) (b : Binding) (w : World S) → IsRecorded w (forward o c url b w).1
  unfolding forward call_mcp_server
  forward-IsRecorded fits url b w =
      exchange-IsRecorded fits url b (is_open w.breaker c.mcp_server_id c.started) w

  gate_tool_filter-IsRecorded :
      Fits o c
      → (url : String) (b : Binding) (w : World S) → IsRecorded w (gate_tool_filter o c url b w).1
  unfolding gate_tool_filter
  gate_tool_filter-IsRecorded fits url b w =
      if-IsRecorded (filter_mismatch b.tool_filter c.tool_name) _ _ w
        (block_call-IsRecorded fits (at_url url) _ _ "tool_call_blocked" w)
        (forward-IsRecorded fits url b w)

  after_permission-IsRecorded :
      Fits o c
      → (url : String) (b : Binding) (p : Permission) (q : p ≢ crashed) (w : World S)
      → IsRecorded w (after_permission o c url b p w).1
  unfolding after_permission
  after_permission-IsRecorded fits url b granted q w = gate_tool_filter-IsRecorded fits url b w
  after_permission-IsRecorded fits url b (denied reasons) q w =
      block_call-IsRecorded fits _ _ _ "tool_call_blocked" w
  after_permission-IsRecorded fits url b crashed q w = absurd (q refl)

  gate_task_scope-IsRecorded :
      Fits o c
      → (q : (i : PolicyInput) → check_permission (o.opa i) ≢ crashed)
      → (url : String) (b : Binding) (w : World S) → IsRecorded w (gate_task_scope o c url b w).1
  unfolding gate_task_scope gate_policy
  gate_task_scope-IsRecorded fits q url b w =
      if-IsRecorded (task_mismatch c.authorization_details c.mcp_server_id c.tool_name) _ _ w
        (block_call-IsRecorded fits (at_url url) _ _ "token_not_authorized_for_action" w)
        (after_permission-IsRecorded fits url b _ (q _) w)

  gate_resource-IsRecorded :
      Fits o c
      → (q : (i : PolicyInput) → check_permission (o.opa i) ≢ crashed)
      → (r : Resolved) (w : World S) → IsRecorded w (gate_resource o c r w).1
  unfolding gate_resource
  gate_resource-IsRecorded fits q (unresolved reason) w =
      block_call-IsRecorded fits _ _ _ "tool_call_blocked" w
  gate_resource-IsRecorded fits q (resolved url b) w =
      if-IsRecorded (resource_mismatch c.token_resource c.mcp_server_id) _ _ w
        (block_call-IsRecorded fits (at_url url) _ _ "tool_call_blocked" w)
        (gate_task_scope-IsRecorded fits q url b w)

  close_session-IsRecorded :
      (r : Result ToolResult) (w w' : World S)
      → IsRecorded w w'
      → IsRecorded w (close_session r w').1
  close_session-IsRecorded (return a) w w' k = transfer w w w' _ refl refl refl refl refl k
  close_session-IsRecorded (raise e) w w' k =
      transfer w w w' _ refl refl k.committed k.committed refl k

  -- Where the policy engine never replies with a body that is no JSON, and the database takes the
  -- session rows that carry the id of the call, a tool call, whether it is
  -- forwarded, blocked at some gate or fails, adds exactly one session row with its id and its trace
  -- and exactly one audit entry of its trace, and both are there after the session of the request is
  -- closed, also by the rollback after an error.
  pub execute_tool-IsRecorded :
      (well_formed : (i : PolicyInput) → o.opa i ≢ OpaReply.malformed)
      → Fits o c
      → (w : World S) → IsRecorded w (with_session (execute_tool o c) w).1
  unfolding execute_tool with_session
  execute_tool-IsRecorded well_formed fits w =
      close_session-IsRecorded _ w _
        (gate_resource-IsRecorded fits (λ i. permission-answers (o.opa i) (well_formed i)) _ w)
