-- ===== src/Tests/Proxy.antt =====
-- Tool calls on the small organisation: agent 3 reads from the untrusted server, then tries to send
-- mail in the same trace.
use ai_iam_platform.Prelude.{
  ◌≡◌, ◌≢◌, ◌⊎◌, refl, inl, inr, sym, subst, String, true, Option, none, some, [], ◌∷◌, ◌++◌, ◌==◌,
  ◌&&◌, ◌||◌, any, contains, string_eq, ℕ_eq, In, arith, select, find,
}
use ai_iam_platform.Model.{Ident, Agent, Binding}
use ai_iam_platform.Service.{return, with_session}
use ai_iam_platform.Policy.Rego.{
  Names, evaluate, Enforces, Enforces-well_formed, tainted_denied_capabilities,
}
use ai_iam_platform.Delegation.Grants.{agent_by_id_and_org}
use ai_iam_platform.Proxy.{
  Outside, ToolCall, ToolResult, response, Decoded, trace_is_tainted, resolve_mcp_binding,
  capabilities_of,
}
use ai_iam_platform.Proxy.Resolve.{IsOwnBinding}
use ai_iam_platform.Proxy.Execute.{execute_tool}
use ai_iam_platform.Proxy.Execute.Recorded.{IsRecorded, execute_tool-IsRecorded}
use ai_iam_platform.Proxy.Execute.Mediated.{IsMediated, execute_tool-IsMediated}
use ai_iam_platform.Proxy.Execute.Taint.{taint, untrusted_of, execute_tool-taint}
use ai_iam_platform.Proxy.Execute.Trace.{run_calls, tainted_trace_blocks}
use ai_iam_platform.Tests.{sample_db, sample_world, web_binding, mail_binding, agent_of}

abbrev names : Names
names = record { empty = 0; blocked_tools = 99 ∷ [] }

abbrev sample_outside : Outside
sample_outside = record {
  opa = evaluate names;
  call = λ url tool args. response 200 (2 ∷ []) "ok";
  decode = λ body. Decoded.decoded (some body);
  hash_payload = λ text. text;
  inserts = λ row. true;
}

abbrev web_call : ToolCall
web_call = record {
  agent_id = 3;
  org_id = 9;
  mcp_server_id = 50;
  tool_name = 5;
  tool_args = "query";
  token_scopes = "tool:execute" ∷ [];
  causal_trace_id = 7;
  delegation_depth = 2;
  token_resource = none;
  authorization_details = none;
  session_id = 301;
  started = 0;
  finished = 2000;
}

abbrev mail_call : ToolCall
mail_call = record web_call { mcp_server_id = 60; tool_name = 7; session_id = 302 }

sample-Enforces : Enforces sample_outside.opa names
unfolding Enforces
sample-Enforces i = inl refl

execute_tool-IsMediated_example :
    ((execute_tool sample_outside web_call sample_world).1.outbound ≡ sample_world.outbound)
    ⊎ ((url : String) × (b : Binding) × ((execute_tool sample_outside web_call
            sample_world).1.outbound
          ≡ sample_world.outbound ++ ((url, 5) ∷ []))
        × IsMediated sample_outside web_call sample_world url b)
execute_tool-IsMediated_example = execute_tool-IsMediated sample_outside web_call sample_world

execute_tool-IsRecorded_example :
    IsRecorded sample_outside web_call sample_world
      (with_session (execute_tool sample_outside web_call) sample_world).1
execute_tool-IsRecorded_example =
    execute_tool-IsRecorded sample_outside web_call
      (Enforces-well_formed sample_outside.opa names sample-Enforces) (λ row same. refl)
      sample_world

execute_tool-taint_example :
    trace_is_tainted (execute_tool sample_outside web_call sample_world).1.db.sessions 7 9 ≡ (
      trace_is_tainted sample_world.db.sessions 7 9
      || (taint
            (untrusted_of (resolve_mcp_binding sample_world.db.agents 3 9 50))
            (execute_tool sample_outside web_call sample_world).0
          && (◌==◌ {A = Ident} 7 7 && ◌==◌ {A = Ident} 9 9)))
execute_tool-taint_example = execute_tool-taint sample_outside web_call sample_world 7 9

abbrev web_result : ToolResult
web_result = record { session_id = 301; result = some "ok"; duration_ms = 2; tool_name = 5 }

web_run : (with_session (execute_tool sample_outside web_call) sample_world).0 ≡ return web_result
unfolding with_session execute_tool agent_by_id_and_org find evaluate contains any select
web_run = refl

web_untrusted : untrusted_of (resolve_mcp_binding sample_db.agents 3 9 50) ≡ true
unfolding untrusted_of resolve_mcp_binding agent_by_id_and_org find
web_untrusted = refl

servers_differ : ◌≢◌ {A = Option Ident} (some 50) (some 60)
servers_differ h = let n : ◌≡◌ {A = Ident} 50 60 = cc in omega arith

binding_cases :
    (b : Binding) → In b (agent_of 3).mcp_bindings → (b ≡ web_binding) ⊎ (b ≡ mail_binding)
binding_cases b (inl e) = inl (sym e)
binding_cases b (inr (inl e)) = inr (sym e)
binding_cases b (inr (inr none_left)) = elim none_left [ ]

own_binding_cases :
    (a : Agent) (b : Binding)
    → In a sample_db.agents
    → In b a.mcp_bindings
    → (b ≡ web_binding) ⊎ (b ≡ mail_binding)
own_binding_cases a b (inl e) l = binding_cases b (subst (λ x. In b x.mcp_bindings) (sym e) l)
own_binding_cases a b (inr (inl e)) l = binding_cases b (subst (λ x. In b x.mcp_bindings) (sym e) l)
own_binding_cases a b (inr (inr (inl e))) l =
    binding_cases b (subst (λ x. In b x.mcp_bindings) (sym e) l)
own_binding_cases a b (inr (inr (inr (inl e)))) l =
    binding_cases b (subst (λ x. In b x.mcp_bindings) (sym e) l)
own_binding_cases a b (inr (inr (inr (inr none_left)))) l = elim none_left [ ]

own_mail_is_risky :
    (url : String) (b : Binding)
    → IsOwnBinding sample_db.agents 3 9 60 url b
    → any (contains tainted_denied_capabilities) (capabilities_of b.tool_capabilities 7) ≡ true
unfolding any contains capabilities_of
own_mail_is_risky url b own = elim (own_binding_cases own.agent b own.listed own.bound) [
  | inl e ↦ absurd (servers_differ (subst (λ x. x.server_id ≡ some 60) e own.server_id))
  | inr e ↦
      subst
        (λ x.
          any (contains tainted_denied_capabilities) (capabilities_of x.tool_capabilities 7) ≡ true)
        (sym e) refl
]

agents_run : (run_calls sample_outside (web_call ∷ []) sample_world).db.agents ≡ sample_db.agents
unfolding run_calls with_session execute_tool agent_by_id_and_org find evaluate contains any select
agents_run = refl

tainted_trace_blocks_example :
    (execute_tool sample_outside mail_call
      (run_calls sample_outside (web_call ∷ []) sample_world)).1.outbound
    ≡ (run_calls sample_outside (web_call ∷ []) sample_world).outbound
tainted_trace_blocks_example =
    tainted_trace_blocks sample_outside names sample-Enforces web_call sample_world web_result
      web_run web_untrusted [] mail_call refl refl
      (λ url b own.
        own_mail_is_risky url b (subst (λ agents. IsOwnBinding agents 3 9 60 url b) agents_run own))
