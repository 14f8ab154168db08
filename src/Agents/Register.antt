-- ===== src/Agents/Register.antt =====
-- `AgentService.register` and `validate_mcp_bindings` (backend/app/services/agent_service.py). The
-- URL parser of the standard library and `str.lower` enter as `Urls`.
pub mod Bindings
use ai_iam_platform.Prelude.{
  ℕ, ◌+◌, ◌*◌, String, Bool, true, false, Option, none, some, List, [], ◌∷◌, ◌++◌, ◌&&◌, ◌||◌, ◌==◌,
  not, ℕ_eq, string_eq, contains, map, if◌then◌else◌, ltb,
}
use ai_iam_platform.Model.{
  Ident, Scope, micros, Agent, AgentStatus, Binding, AuditEvent, AuditAction, Detail,
}
use ai_iam_platform.Service.{
  Db, World, HttpError, Result, return, raise, Method, pure, http_error, and_then, ◌>>=◌, ◌>>◌,
  gets, guard, append_audit, modify_db, or_error,
}
use ai_iam_platform.Delegation.Grants.{agent_by_id_and_org}
use ai_iam_platform.Agents.Rows.{same_status}

-- The parts of a URL that the code reads.
pub record ParsedUrl : Type 0 where
  pub scheme : String
  pub hostname : Option String
  pub has_userinfo : Bool

-- `urlparse` with the reading of its parts, none for a `ValueError`, and `str.lower`.
pub record Urls : Type 0 where
  pub urlparse : String → Option ParsedUrl
  pub lower : String → String

-- `settings.MCP_SERVER_URL_ALLOWED_HOSTS`
abbrev pub allowed_hosts : List String
allowed_hosts = "mock-mcp" ∷ "security-mcp" ∷ "data-mcp" ∷ []

pub data UrlVerdict : Type 0 where
  accepted invalid_url not_plain host_not_allowed : UrlVerdict

unfoldable pub or_blank : Option String → String
or_blank none = ""
or_blank (some s) = s

unfoldable pub check_host : Urls → ParsedUrl → UrlVerdict
unfolding or_blank
check_host u p =
    let hostname = u.lower (or_blank p.hostname) in
    if not (contains ("http" ∷ "https" ∷ []) p.scheme) || ((hostname == "") || p.has_userinfo)
    then not_plain
    else if contains (map u.lower allowed_hosts) hostname
    then accepted
    else host_not_allowed

unfoldable pub check_parsed : Urls → Option ParsedUrl → UrlVerdict
unfolding check_host
check_parsed u none = invalid_url
check_parsed u (some p) = check_host u p

unfoldable pub check_binding : Urls → Option String → UrlVerdict
unfolding check_parsed
check_binding u none = accepted
check_binding u (some url) = check_parsed u (u.urlparse url)

-- The `for` loop: the first binding that is not accepted decides.
unfoldable pub validate_mcp_bindings : Urls → List Binding → UrlVerdict
unfolding check_binding
validate_mcp_bindings u [] = accepted
validate_mcp_bindings u (b ∷ bindings) =
    let rest = validate_mcp_bindings u bindings in
    elim (check_binding u b.server_url) [ accepted ↦ rest | v ↦ v ]

pub record RegisterRequest : Type 0 where
  pub org_id : Ident
  pub name : String
  pub description : Option String
  pub allowed_scopes : List Scope
  pub mcp_bindings : List Binding
  pub parent_agent_id : Option Ident
  pub is_ephemeral : Bool
  pub ephemeral_ttl_seconds : Option ℕ
  pub actor_id : Ident
  -- Whether the database takes the new row.
  pub insert_answers : Bool
  -- What `uuid4` and the clock, in microseconds, give.
  pub agent_id : Ident
  pub trace_id : Ident
  pub now : ℕ

-- `if is_ephemeral and ephemeral_ttl_seconds`: no time for a ttl of 0 either.
unfoldable pub decommission_time : Bool → Option ℕ → ℕ → Option ℕ
decommission_time ephemeral none now = none
decommission_time ephemeral (some ttl) now =
    if ephemeral && ltb 0 ttl then some (now + ttl * micros) else none

unfoldable pub new_agent : RegisterRequest → Agent
unfolding decommission_time
new_agent q = record {
  id = q.agent_id;
  org_id = q.org_id;
  name = q.name;
  description = q.description;
  status = AgentStatus.pending;
  spiffe_id = none;
  parent_agent_id = q.parent_agent_id;
  is_ephemeral = q.is_ephemeral;
  decommission_at = decommission_time q.is_ephemeral q.ephemeral_ttl_seconds q.now;
  allowed_scopes = q.allowed_scopes;
  mcp_bindings = q.mcp_bindings;
  activated_by_user_id = none;
}

unfoldable pub parent_or_null : Option Ident → Detail
parent_or_null none = Detail.null
parent_or_null (some i) = Detail.ident i

unfoldable pub registration_event : RegisterRequest → AuditEvent
unfolding parent_or_null
registration_event q = record {
  org_id = q.org_id;
  action = AuditAction.agent_registered;
  actor_type = "user";
  actor_id = q.actor_id;
  agent_id = some q.agent_id;
  causal_trace_id = q.trace_id;
  outcome = "success";
  resource_id = none;
  details =
      ("agent_name", Detail.text q.name)
      ∷ ("is_ephemeral", Detail.flag q.is_ephemeral)
      ∷ ("parent_agent_id", parent_or_null q.parent_agent_id)
      ∷ ("allowed_scopes", Detail.scopes q.allowed_scopes)
      ∷ [];
}

module _ {S : Type 0} where
  unfoldable pub raise_verdict : UrlVerdict → Method S (Unit {0})
  raise_verdict accepted = pure tt
  raise_verdict invalid_url = http_error 422 "server_url is not a valid URL"
  raise_verdict not_plain = http_error 422 "server_url must be a plain http(s) URL"
  raise_verdict host_not_allowed = http_error 422 "server_url host is not in the allowed hosts"

  unfoldable pub check_parent_agent : Option Ident → Ident → Method S (Unit {0})
  unfolding agent_by_id_and_org same_status
  check_parent_agent none org = pure tt
  check_parent_agent (some i) org = do
    agents ← gets (λ w. w.db.agents)
    parent ← or_error (agent_by_id_and_org agents i org) 404 "Parent agent not found"
    guard
        (same_status parent.status AgentStatus.active
          || same_status parent.status AgentStatus.pending)
        422 "Parent agent cannot register child"

  -- `agent_repo.create`
  unfoldable pub create : Bool → Agent → Method S (Unit {0})
  create true agent = modify_db (λ db. record db { agents = db.agents ++ (agent ∷ []) })
  create false agent = http_error 500 "DBAPIError"

  unfoldable pub register : Urls → RegisterRequest → Method S Agent
  unfolding validate_mcp_bindings raise_verdict check_parent_agent new_agent registration_event
      create
  register u q = do
    raise_verdict (validate_mcp_bindings u q.mcp_bindings)
    check_parent_agent q.parent_agent_id q.org_id
    append_audit (registration_event q)
    create q.insert_answers (new_agent q)
    pure (new_agent q)
