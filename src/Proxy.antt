-- ===== src/Proxy.antt =====
-- `McpProxyService.execute_tool` (backend/app/services/mcp_proxy_service.py): a tool call passes the
-- gates in the order of the code, and is forwarded after the last of them. The policy engine, the
-- MCP server, JSON and hashing enter as `Outside`; a JSON text is a `String`.
pub mod Resolve
pub mod Records
pub mod Execute
use ai_iam_platform.Prelude.{
  ℕ, suc, ◌+◌, ◌-◌, ◌/◌, String, Bool, true, false, Option, none, some, List, [], ◌∷◌, ◌++◌, ◌==◌,
  ◌&&◌, not, ℕ_eq, if◌then◌else◌, ltb, contains, select, any, length,
}
use ai_iam_platform.Model.{
  Ident, Scope, micros, Agent, Binding, McpSession, SessionStatus, PolicyDecision, ErrorCode,
  BlockReason, AuditEvent, AuditAction, Detail, Details,
}
use ai_iam_platform.Service.{
  Db, World, HttpError, Result, return, raise, Method, pure, http_error, and_then, ◌>>=◌, ◌>>◌,
  gets, append_audit, modify_db, commit,
}
use ai_iam_platform.Breaker.{Breaker, is_open, record_success, record_failure}
use ai_iam_platform.Policy.{
  PolicyInput, OpaReply, Permission, granted, denied, crashed, check_permission,
  classify_policy_denial,
}
use ai_iam_platform.Delegation.Grants.{agent_by_id_and_org}

-- The reply of an MCP server: the sizes of the chunks of its body and the body, or how the exchange
-- ended.
pub data Reply : Type 0 where
  response : (status : ℕ) → (chunks : List ℕ) → (body : String) → Reply
  timeout connect_error : Reply
  other_error : String → Reply

-- What `json.loads` makes of a body: a value, which is none for `null`, a `JSONDecodeError`, or
-- another error with its name.
pub data Decoded : Type 0 where
  decoded : Option String → Decoded
  undecodable : Decoded
  failed : String → Decoded

pub record Outside : Type 0 where
  pub opa : PolicyInput → OpaReply
  pub call : String → Ident → String → Reply
  -- `json.loads`
  pub decode : String → Decoded
  pub hash_payload : String → String
  -- Whether the database takes the row: the widths of its columns and the foreign key of its agent.
  pub inserts : McpSession → Bool

pub record ToolCall : Type 0 where
  pub agent_id : Ident
  pub org_id : Ident
  pub mcp_server_id : Ident
  pub tool_name : Ident
  pub tool_args : String
  pub token_scopes : List Scope
  pub causal_trace_id : Ident
  pub delegation_depth : ℕ
  pub token_resource : Option Ident
  -- The pairs (mcp_server_id, tool_name) of the entries.
  pub authorization_details : Option (List (Ident × Ident))
  -- What `uuid4` gives, and the clock at the start of the call and after it.
  pub session_id : Ident
  pub started : ℕ
  pub finished : ℕ

pub record ToolResult : Type 0 where
  pub session_id : Ident
  pub result : Option String
  pub duration_ms : ℕ
  pub tool_name : Ident

-- `settings.MCP_MAX_RESPONSE_BYTES`
abbrev pub max_response_bytes : ℕ
max_response_bytes = 1_048_576

pub data Resolved : Type 0 where
  resolved : (server_url : String) → (binding : Binding) → Resolved
  unresolved : BlockReason → Resolved

unfoldable pub is_server : Ident → Binding → Bool
is_server server b = elim b.server_id [ none ↦ false | some i ↦ i == server ]

-- `if not server_url`: a missing address or an empty one.
unfoldable pub check_url : Binding → Option String → Resolved
check_url b none = unresolved BlockReason.no_server_url
check_url b (some url) = elim url [
  | String.[] ↦ unresolved BlockReason.no_server_url
  | String.◌∷◌ c rest ↦ resolved (String.◌∷◌ c rest) b
]

-- The `for` loop over the bindings.
unfoldable pub find_binding : List Binding → Ident → Resolved
unfolding is_server check_url
find_binding [] server = unresolved BlockReason.not_bound
find_binding (b ∷ bindings) server =
    if is_server server b then check_url b b.server_url else find_binding bindings server

unfoldable pub bindings_of : Option Agent → Ident → Resolved
unfolding find_binding
bindings_of none server = unresolved BlockReason.agent_not_found
bindings_of (some agent) server = find_binding agent.mcp_bindings server

-- `_resolve_mcp_binding`
unfoldable pub resolve_mcp_binding : List Agent → Ident → Ident → Ident → Resolved
unfolding bindings_of
resolve_mcp_binding agents agent org server =
    bindings_of (agent_by_id_and_org agents agent org) server

-- `_trace_is_tainted`, over `mcp_session_repo.get_by_trace`.
unfoldable pub is_success : SessionStatus → Bool
is_success SessionStatus.success = true
is_success _ = false

unfoldable pub sessions_by_trace : List McpSession → Ident → Ident → List McpSession
sessions_by_trace sessions trace org =
    select (λ s. (s.causal_trace_id == trace) && (s.org_id == org)) sessions

unfoldable pub trace_is_tainted : List McpSession → Ident → Ident → Bool
unfolding sessions_by_trace is_success
trace_is_tainted sessions trace org =
    any (λ s. s.source_untrusted && is_success s.status) (sessions_by_trace sessions trace org)

-- `binding.tool_capabilities.get(tool_name, [])`
unfoldable pub capabilities_of : List (Ident × List String) → Ident → List String
capabilities_of [] tool = []
capabilities_of ((t, caps) ∷ rest) tool = if t == tool then caps else capabilities_of rest tool

-- `token_resource is not None and token_resource != mcp_server_id`
unfoldable pub resource_mismatch : Option Ident → Ident → Bool
resource_mismatch none server = false
resource_mismatch (some i) server = not (i == server)

unfoldable pub task_mismatch : Option (List (Ident × Ident)) → Ident → Ident → Bool
task_mismatch none server tool = false
task_mismatch (some entries) server tool = not (any (λ e. (e.0 == server) && (e.1 == tool)) entries)

-- `tool_filter is not None and tool_name not in tool_filter`
unfoldable pub filter_mismatch : Option (List Ident) → Ident → Bool
filter_mismatch none tool = false
filter_mismatch (some tools) tool = not (contains tools tool)

-- The running size of the body passes the limit at some chunk.
unfoldable pub too_large : ℕ → List ℕ → Bool
too_large size [] = false
too_large size (n ∷ chunks) =
    if ltb max_response_bytes (size + n) then true else too_large (size + n) chunks

unfoldable pub read_body : Decoded → Option String × Option ErrorCode
read_body (decoded result) = (result, none)
read_body undecodable = (none, some ErrorCode.invalid_response)
read_body (failed name) = (none, some (ErrorCode.unexpected name))

-- What the reply of the server comes to.
unfoldable pub read_reply : (String → Decoded) → Reply → Option String × Option ErrorCode
unfolding read_body too_large
read_reply decode (response status chunks body) =
    if status == 200
    then (if too_large 0 chunks
        then (none, some ErrorCode.response_too_large)
        else read_body (decode body))
    else (none, some (ErrorCode.http_status status))
read_reply decode timeout = (none, some ErrorCode.timed_out)
read_reply decode connect_error = (none, some ErrorCode.connection_refused)
read_reply decode (other_error name) = (none, some (ErrorCode.unexpected name))

unfoldable pub note_outcome : Breaker → Ident → ℕ → Option ErrorCode → Breaker
note_outcome b server now none = record_success b server
note_outcome b server now (some e) = record_failure b server now
