-- ===== src/Proxy/Execute/Trace.antt =====
-- Several calls in a row, each in the database session of its own request: what a trace has read
-- from an untrusted source bars its later calls from risky tools.
use ai_iam_platform.Prelude.{
  ◌≡◌, refl, inl, inr, String, Bool, true, Option, some, List, [], ◌∷◌, any, contains, string_eq,
  arith, ◌==◌, ==_refl, ℕ_eq, ◌&&◌, ◌||◌, sym, ap, ◌∙◌, subst,
}
use ai_iam_platform.Model.{Ident, Binding}
use ai_iam_platform.Service.{World, Result, return, raise, with_session, close_session}
use ai_iam_platform.Policy.{OpaReply, check_permission, granted}
use ai_iam_platform.Policy.Rego.{Names, Enforces, granted-untainted, tainted_denied_capabilities}
use ai_iam_platform.Proxy.{
  Outside, ToolCall, ToolResult, trace_is_tainted, capabilities_of, resolve_mcp_binding,
}
use ai_iam_platform.Proxy.Records.{policy_input}
use ai_iam_platform.Proxy.Resolve.{IsOwnBinding}
use ai_iam_platform.Proxy.Execute.{execute_tool}
use ai_iam_platform.Proxy.Execute.Settled.{
  IsSettled, close_session-IsSettled, execute_tool-IsSettled,
}
use ai_iam_platform.Proxy.Execute.Mediated.{execute_tool-IsMediated}
use ai_iam_platform.Proxy.Execute.Taint.{execute_tool-taint, taint, untrusted_of}

-- The calls of several requests, one after the other.
unfoldable pub run_calls : {S : Type 0} → Outside → List ToolCall → World S → World S
run_calls o [] w = w
run_calls o (c ∷ cs) w = run_calls o cs (with_session (execute_tool o c) w).1

same_trace :
    (t org : Ident) (x u : Bool) (r : Result ToolResult) (a : ToolResult)
    → u ≡ true
    → r ≡ return a
    → (x || (taint u r && ((t == t) && (org == org)))) ≡ true
unfolding taint
same_trace t org x u r a h k = rw (k, h, ==_refl t, ==_refl org) (ground arith)

granted_by_allow :
    (r : OpaReply) (reasons : Option (List String))
    → r ≡ OpaReply.answered (some true) reasons
    → check_permission r ≡ granted
unfolding check_permission
granted_by_allow r reasons h = rw h (refl)

or_true : (x y : Bool) → x ≡ true → (x || y) ≡ true
or_true x y h = ground arith

module _ {S : Type 0} (o : Outside) (n : Names) (enforces : Enforces o.opa n) where
  close_session-db :
      (r : Result ToolResult) (w : World S) → IsSettled w → (close_session r w).1.db ≡ w.db
  close_session-db (return a) w h = refl
  close_session-db (raise e) w h = h

  with_session-taint :
      (c : ToolCall) (w : World S) (t org : Ident)
      → IsSettled w
      → trace_is_tainted w.db.sessions t org ≡ true
      → trace_is_tainted (with_session (execute_tool o c) w).1.db.sessions t org ≡ true
  unfolding with_session
  with_session-taint c w t org settled h =
      ap (λ db. trace_is_tainted db.sessions t org)
        (close_session-db (execute_tool o c w).0 (execute_tool o c w).1
          (execute_tool-IsSettled o c w settled))
      ∙ (execute_tool-taint o c w t org ∙ or_true _ _ h)

  with_session-IsSettled :
      (c : ToolCall) (w : World S) → IsSettled (with_session (execute_tool o c) w).1
  unfolding with_session
  with_session-IsSettled c w = close_session-IsSettled (execute_tool o c w).0 (execute_tool o c w).1

  run_calls-taint :
      (cs : List ToolCall) (w : World S) (t org : Ident)
      → IsSettled w
      → trace_is_tainted w.db.sessions t org ≡ true
      → trace_is_tainted (run_calls o cs w).db.sessions t org ≡ true
  unfolding run_calls
  run_calls-taint [] w t org settled h = h
  run_calls-taint (c ∷ cs) w t org settled h =
      run_calls-taint cs _ t org (with_session-IsSettled c w)
        (with_session-taint c w t org settled h)

  close_session-return :
      (r : Result ToolResult) (w : World S) (a : ToolResult)
      → (close_session r w).0 ≡ return a
      → (r ≡ return a) × ((close_session r w).1.db ≡ w.db)
  close_session-return (return b) w a h = (h, refl)
  close_session-return (raise e) w a h = absurd (cc)

  returned-taint :
      (c : ToolCall) (w : World S) (a : ToolResult)
      → (with_session (execute_tool o c) w).0 ≡ return a
      → untrusted_of (resolve_mcp_binding w.db.agents c.agent_id c.org_id c.mcp_server_id) ≡ true
      → trace_is_tainted
          (with_session (execute_tool o c) w).1.db.sessions
          c.causal_trace_id
          c.org_id
        ≡ true
  unfolding with_session
  returned-taint c w a h u =
      let (returned, kept) =
        close_session-return (execute_tool o c w).0 (execute_tool o c w).1 a h in
      ap (λ db. trace_is_tainted db.sessions c.causal_trace_id c.org_id) kept
      ∙ (execute_tool-taint o c w c.causal_trace_id c.org_id
          ∙ same_trace c.causal_trace_id c.org_id _ _ _ a u returned)

  denied_when_tainted :
      (d : ToolCall) (w : World S)
      → trace_is_tainted w.db.sessions d.causal_trace_id d.org_id ≡ true
      → ((url : String) (b : Binding)
          → IsOwnBinding w.db.agents d.agent_id d.org_id d.mcp_server_id url b
          → any
              (contains tainted_denied_capabilities)
              (capabilities_of b.tool_capabilities d.tool_name)
            ≡ true)
      → (execute_tool o d w).1.outbound ≡ w.outbound
  unfolding policy_input
  denied_when_tainted d w t risky = elim (execute_tool-IsMediated o d w) [
    | inl same ↦ same
    | inr (url, b, sent, m) ↦
        let input = policy_input d b (trace_is_tainted w.db.sessions d.causal_trace_id d.org_id) in
        let safe =
          granted-untainted o.opa n enforces input
            (granted_by_allow (o.opa input) m.reasons m.policy) t in
        let bad = risky url b m.own in absurd (cc)
  ]

  -- Where the policy engine evaluates the policy of the repository or cannot be reached: once a call
  -- through an untrusted binding has returned a result, then after any further calls a call in the same
  -- trace and organization for a tool that every own binding of the agent for that server gives a
  -- high-risk capability sends no request.
  pub tainted_trace_blocks :
      (c : ToolCall) (w : World S) (a : ToolResult)
      → (with_session (execute_tool o c) w).0 ≡ return a
      → untrusted_of (resolve_mcp_binding w.db.agents c.agent_id c.org_id c.mcp_server_id) ≡ true
      → (cs : List ToolCall) (d : ToolCall) → d.causal_trace_id ≡ c.causal_trace_id
      → d.org_id ≡ c.org_id
      → ((url : String) (b : Binding)
          → IsOwnBinding
              (run_calls o (c ∷ cs) w).db.agents
              d.agent_id
              d.org_id
              d.mcp_server_id
              url
              b
          → any
              (contains tainted_denied_capabilities)
              (capabilities_of b.tool_capabilities d.tool_name)
            ≡ true)
      → (execute_tool o d (run_calls o (c ∷ cs) w)).1.outbound ≡ (run_calls o (c ∷ cs) w).outbound
  unfolding run_calls
  tainted_trace_blocks c w a returned untrusted cs d trace org risky =
      denied_when_tainted d _
        (subst
          (λ o'. trace_is_tainted (run_calls o (c ∷ cs) w).db.sessions d.causal_trace_id o' ≡ true)
          (sym org)
          (subst (λ t. trace_is_tainted (run_calls o (c ∷ cs) w).db.sessions t c.org_id ≡ true)
            (sym trace)
            (run_calls-taint cs _ c.causal_trace_id c.org_id (with_session-IsSettled c w)
              (returned-taint c w a returned untrusted))))
        risky
