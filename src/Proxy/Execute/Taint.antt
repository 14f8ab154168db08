-- ===== src/Proxy/Execute/Taint.antt =====
-- The taint of a trace: what a call adds to it, and that it stays.
use ai_iam_platform.Prelude.{
  ◌≡◌, String, Bool, true, false, Option, none, some, List, [], ◌∷◌, ◌++◌, select, any,
  if◌then◌else◌, arith, ◌==◌, ◌&&◌, ◌||◌, ℕ_eq, ◌∙◌, refl, ap, Bool-cases, inl, inr,
}
use ai_iam_platform.Model.{
  Ident, Binding, ServerUrl, at_url, unresolved_server, McpSession, ErrorCode, PolicyDecision,
  BlockReason, SessionStatus,
}
use ai_iam_platform.Service.{World, Method, Result, return, raise, ◌>>=◌, ◌>>◌, http_error}
use ai_iam_platform.Breaker.{Breaker, is_open}
use ai_iam_platform.Policy.{Permission, granted, denied, crashed}
use ai_iam_platform.Proxy.{
  Outside, ToolCall, ToolResult, Resolved, resolved, unresolved, is_success, trace_is_tainted,
  sessions_by_trace, filter_mismatch, task_mismatch, resource_mismatch, resolve_mcp_binding,
  read_reply, note_outcome,
}
use ai_iam_platform.Proxy.Records.{session_row, duration}
use ai_iam_platform.Proxy.Execute.{
  add_session, record_session, block_call, exchange_reply, call_mcp_server, finish, forward,
  gate_tool_filter, after_permission, gate_policy, gate_task_scope, gate_resource, execute_tool,
}

any-select-append :
    {A : Type 0} (p q : A → Bool) (xs : List A) (x : A)
    → any p (select q (xs ++ (x ∷ []))) ≡ (any p (select q xs) || (q x && p x))
unfolding any select
any-select-append p q [] x = ground arith
any-select-append p q (y ∷ xs) x = ground (arith, any-select-append p q xs x)

add_session-taint :
    (sessions : List McpSession) (s : McpSession) (t org : Ident)
    → trace_is_tainted (sessions ++ (s ∷ [])) t org ≡ (
        trace_is_tainted sessions t org
        || (((s.causal_trace_id == t) && (s.org_id == org))
            && (s.source_untrusted && is_success s.status)))
unfolding trace_is_tainted sessions_by_trace
add_session-taint sessions s t org =
    any-select-append (λ s. s.source_untrusted && is_success s.status)
      (λ s. (s.causal_trace_id == t) && (s.org_id == org)) sessions s

and_swap : (x p u : Bool) → (x || (p && (u && true))) ≡ (x || (u && p))
and_swap x p u = ground arith

and_false : (x p : Bool) → (x || (p && false)) ≡ (x || false)
and_false x p = ground arith

-- The taint of a call whose binding is untrusted or not, by how it ended.
unfoldable pub taint : Bool → Result ToolResult → Bool
taint untrusted (return a) = untrusted
taint untrusted (raise e) = false

-- The taint of a resolved binding.
unfoldable pub untrusted_of : Resolved → Bool
untrusted_of (resolved url b) = b.untrusted_source
untrusted_of (unresolved reason) = false

module _ {S : Type 0} (o : Outside) (c : ToolCall) where
  unfoldable pub AddsTaint : Bool → World S → Result ToolResult × World S → Type 0
  AddsTaint untrusted w x =
      (t org : Ident)
      → trace_is_tainted x.1.db.sessions t org ≡ (
          trace_is_tainted w.db.sessions t org
          || (taint untrusted x.0 && ((c.causal_trace_id == t) && (c.org_id == org))))

  -- What a row adds, or nothing where the database does not take it.
  record_session-AddsTaint :
      (u : Bool) (row : McpSession) (k : Method S ToolResult) (w : World S)
      → ((v : World S) → (k v).1.db ≡ v.db)
      → ((v : World S) (t org : Ident)
          → (trace_is_tainted w.db.sessions t org
              || (((row.causal_trace_id == t) && (row.org_id == org))
                  && (row.source_untrusted && is_success row.status)))
            ≡ (trace_is_tainted w.db.sessions t org
                || (taint u (k v).0 && ((c.causal_trace_id == t) && (c.org_id == org)))))
      → AddsTaint u w ((record_session o row >> k) w)
  unfolding AddsTaint record_session taint
  record_session-AddsTaint u row k w keeps says t org = elim (Bool-cases (o.inserts row)) [
    | inl e ↦
        let v : World S = record w { db = add_session row w.db } in
        rw e (
          ap (λ d. trace_is_tainted d.sessions t org) (keeps v)
          ∙ add_session-taint w.db.sessions row t org
          ∙ says v t org)
    | inr e ↦ rw e (ground arith)
  ]

  block_call-AddsTaint :
      (u : Bool) (url : ServerUrl) (d : PolicyDecision) (reason : BlockReason) (e : String)
      (w : World S)
      → AddsTaint u w (block_call o c url d reason e w)
  unfolding block_call session_row is_success taint
  block_call-AddsTaint u url d reason e w =
      record_session-AddsTaint u
        (session_row c o url SessionStatus.blocked d (some reason) none none 0 false) _ w
        (λ v. refl) (λ v t org. and_false _ ((c.causal_trace_id == t) && (c.org_id == org)))

  finish-AddsTaint :
      (url : String) (b : Binding) (out : Option String × Option ErrorCode) (w : World S)
      → AddsTaint b.untrusted_source w (finish o c url b out w)
  unfolding finish session_row is_success taint
  finish-AddsTaint url b (result, none) w =
      record_session-AddsTaint b.untrusted_source
        (session_row c o (at_url url) SessionStatus.success PolicyDecision.allowed none result none
          (duration c) b.untrusted_source)
        _ w (λ v. refl)
        (λ v t org. and_swap _ ((c.causal_trace_id == t) && (c.org_id == org)) b.untrusted_source)
  finish-AddsTaint url b (result, some e) w =
      record_session-AddsTaint b.untrusted_source
        (session_row c o (at_url url) SessionStatus.error PolicyDecision.allowed none result
          (some e) (duration c) false)
        _ w (λ v. refl) (λ v t org. and_false _ ((c.causal_trace_id == t) && (c.org_id == org)))

  exchange-AddsTaint :
      (url : String) (b : Binding) (p : Bool × Breaker) (w : World S)
      → AddsTaint b.untrusted_source w ((exchange_reply o c url p >>= finish o c url b) w)
  unfolding AddsTaint exchange_reply
  exchange-AddsTaint url b (true, br) w = finish-AddsTaint url b _ (record w { breaker = br })
  exchange-AddsTaint url b (false, br) w =
      let out = read_reply o.decode (o.call url c.tool_name c.tool_args) in
      finish-AddsTaint url b out (record w {
        breaker = note_outcome br c.mcp_server_id c.finished out.1;
        outbound = w.outbound ++ ((url, c.tool_name) ∷ []);
      })

  if-AddsTaint :
      (u t : Bool) (m k : Method S ToolResult) (w : World S)
      → AddsTaint u w (m w)
      → AddsTaint u w (k w)
      → AddsTaint u w ((if t then m else k) w)
  if-AddsTaint u true m k w p q = p
  if-AddsTaint u false m k w p q = q

  crash-AddsTaint : (u : Bool) (w : World S) → AddsTaint u w (http_error 500 "JSONDecodeError" w)
  unfolding AddsTaint taint
  crash-AddsTaint u w t org = ground arith

  after_permission-AddsTaint :
      (url : String) (b : Binding) (p : Permission) (w : World S)
      → AddsTaint b.untrusted_source w (after_permission o c url b p w)
  unfolding after_permission gate_tool_filter forward call_mcp_server
  after_permission-AddsTaint url b granted w =
      if-AddsTaint _ (filter_mismatch b.tool_filter c.tool_name) _ _ w
        (block_call-AddsTaint _ (at_url url) _ _ "tool_call_blocked" w)
        (exchange-AddsTaint url b (is_open w.breaker c.mcp_server_id c.started) w)
  after_permission-AddsTaint url b (denied reasons) w =
      block_call-AddsTaint _ (at_url url) _ _ "tool_call_blocked" w
  after_permission-AddsTaint url b crashed w = crash-AddsTaint _ w

  gate_resource-AddsTaint :
      (r : Resolved) (w : World S) → AddsTaint (untrusted_of r) w (gate_resource o c r w)
  unfolding gate_resource gate_task_scope gate_policy untrusted_of
  gate_resource-AddsTaint (unresolved reason) w =
      block_call-AddsTaint _ (unresolved_server c.mcp_server_id) _ _ "tool_call_blocked" w
  gate_resource-AddsTaint (resolved url b) w =
      if-AddsTaint _ (resource_mismatch c.token_resource c.mcp_server_id) _ _ w
        (block_call-AddsTaint _ (at_url url) _ _ "tool_call_blocked" w)
        (if-AddsTaint _ (task_mismatch c.authorization_details c.mcp_server_id c.tool_name) _ _ w
          (block_call-AddsTaint _ (at_url url) _ _ "token_not_authorized_for_action" w)
          (after_permission-AddsTaint url b _ w))

  -- After a call, a trace of an organization is tainted exactly if it was before, or if it is the
  -- trace and the organization of the call, the binding that the call resolved to is untrusted, and
  -- the call returned a result. A call that was blocked or that failed adds no taint, and no call
  -- takes one away.
  pub execute_tool-taint :
      (w : World S) (t org : Ident)
      → trace_is_tainted (execute_tool o c w).1.db.sessions t org ≡ (
          trace_is_tainted w.db.sessions t org
          || (taint
                (untrusted_of (resolve_mcp_binding w.db.agents c.agent_id c.org_id c.mcp_server_id))
                (execute_tool o c w).0
              && ((c.causal_trace_id == t) && (c.org_id == org))))
  unfolding execute_tool AddsTaint
  execute_tool-taint w t org = gate_resource-AddsTaint _ w t org
