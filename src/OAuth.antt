-- ===== src/OAuth.antt =====
-- The authorization code grant (backend/app/services/oauth_service.py). The codes stand in Redis under
-- their own keys; the two commands on them enter as `CodeRedis`, with the JSON of a code read back as
-- it was written. SHA-256 with its base64 is a function of the verifier. The texts of the redirects
-- are left out: an answer is the code or the error that it carries.
pub mod Single
pub mod Bound
use ai_iam_platform.Prelude.{
  ℕ, ◌+◌, ◌*◌, ◌/◌, ◌≡◌, String, Bool, true, false, Option, none, some, List, [], ◌∷◌, ◌++◌, ◌==◌,
  ◌&&◌, ◌||◌, not, ℕ_eq, string_eq, contains, is_subset, find, ltb, if◌then◌else◌,
}
use ai_iam_platform.Model.{
  Ident, Scope, micros, Agent, Binding, is_active_status, AuditEvent, AuditAction, Detail, Details,
}
use ai_iam_platform.Service.{
  Db, World, HttpError, Result, return, raise, Method, pure, http_error, and_then, ◌>>=◌, ◌>>◌,
  gets, guard, append_audit, or_error,
}
use ai_iam_platform.Revocation.Redis.{Redis, IndexKey}
use ai_iam_platform.Revocation.Index.{track_issued_jti}
use ai_iam_platform.Delegation.Grants.{agent_by_id_and_org, token_scopes}
use ai_iam_platform.Proxy.{is_server, filter_mismatch}
use ai_iam_platform.Agents.Human.{resolve_on_behalf_of}
use ai_iam_platform.Exchange.{
  AuthorizationDetails, AccessToken, create_agent_access_token, is_dangerous,
}

-- The dictionary that a code stands for.
pub record CodeData : Type 0 where
  pub client_id : String
  pub redirect_uri : String
  pub code_challenge : String
  pub agent_id : Ident
  pub org_id : Ident
  pub scopes : List Scope
  pub resource : Option Ident
  pub tool_name : Option Ident

-- `SET oauth_code:{code} … EX ttl` and `GETDEL oauth_code:{code}` at a moment in microseconds.
pub record CodeRedis : Type 1 where
  pub Codes : Type 0
  pub set_code : String → CodeData → ℕ → ℕ → Codes → Codes
  pub getdel : String → ℕ → Codes → Option CodeData × Codes
  pub getdel-set_code :
      (code : String) (d : CodeData) (ttl now t : ℕ) (s : Codes)
      → (getdel code t (set_code code d ttl now s)).0
        ≡ (if ltb t (now + ttl * micros) then some d else none)
  pub getdel-getdel :
      (code : String) (now t : ℕ) (s : Codes) → (getdel code t (getdel code now s).1).0 ≡ none

-- `settings.OAUTH_AUTHORIZATION_CODE_TTL_SECONDS`
abbrev pub code_ttl_seconds : ℕ
code_ttl_seconds = 120

pub record OAuthClient : Type 0 where
  pub org_id : Ident
  pub client_id : String
  pub redirect_uris : List String

unfoldable pub client_by_id : List OAuthClient → String → Option OAuthClient
client_by_id clients client_id = find (λ c. c.client_id == client_id) clients

pub record AuthorizeRequest : Type 0 where
  pub client_id : String
  pub redirect_uri : String
  pub response_type : String
  pub code_challenge : String
  pub code_challenge_method : String
  -- `scope.split()`
  pub requested_scopes : List Scope
  pub resource : Option Ident
  pub tool_name : Option Ident
  pub agent_id : Ident
  pub org_id : Ident
  -- What `token_urlsafe` and the clock give.
  pub code : String
  pub now : ℕ

-- What the redirect carries.
pub data Redirect : Type 0 where
  with_code : String → Redirect
  with_error : String → Redirect

pub data Target : Type 0 where
  target : Option (List Ident) → Target
  not_bound : Target

unfoldable pub target_of : Option Binding → Target
target_of none = not_bound
target_of (some b) = target b.tool_filter

-- The binding of the resource, and its tool filter.
unfoldable pub resource_target : List Binding → Option Ident → Target
unfolding target_of is_server
resource_target bindings none = target none
resource_target bindings (some server) = target_of (find (is_server server) bindings)

unfoldable pub is_given : Option Ident → Bool
is_given none = false
is_given (some i) = true

-- The error of a tool name, if it has one.
unfoldable pub tool_error : Option Ident → Option Ident → Option (List Ident) → Option String
unfolding is_given filter_mismatch
tool_error none resource tools = none
tool_error (some tool) resource tools =
    if not (is_given resource)
    then some "invalid_request"
    else if filter_mismatch tools tool
    then some "invalid_target"
    else none

unfoldable pub code_data : AuthorizeRequest → CodeData
code_data q = record {
  client_id = q.client_id;
  redirect_uri = q.redirect_uri;
  code_challenge = q.code_challenge;
  agent_id = q.agent_id;
  org_id = q.org_id;
  scopes = q.requested_scopes;
  resource = q.resource;
  tool_name = q.tool_name;
}

-- The checks in the order of the code: none where all pass.
unfoldable pub agent_error : AuthorizeRequest → Agent → Target → Option String
unfolding tool_error is_dangerous is_given
agent_error q a not_bound =
    if not (is_active_status a.status)
    then some "invalid_request"
    else if not (is_subset q.requested_scopes a.allowed_scopes)
    then some "invalid_scope"
    else some "invalid_target"
agent_error q a (target tools) =
    if not (is_active_status a.status)
    then some "invalid_request"
    else if not (is_subset q.requested_scopes a.allowed_scopes)
    then some "invalid_scope"
    else elim (tool_error q.tool_name q.resource tools) [
      | some e ↦ some e
      | none ↦
          if is_dangerous q.requested_scopes && not (is_given q.tool_name)
          then some "invalid_scope"
          else none
    ]

unfoldable pub authorize_error : AuthorizeRequest → Option Agent → Option String
unfolding agent_error resource_target
authorize_error q o =
    if not (q.response_type == "code")
    then some "unsupported_response_type"
    else if not (q.code_challenge_method == "S256") || (q.code_challenge == "")
    then some "invalid_request"
    else elim o [
      | none ↦ some "invalid_request"
      | some a ↦ agent_error q a (resource_target a.mcp_bindings q.resource)
    ]

-- `not client or client.org_id != org_id`
unfoldable pub client_of_org : Ident → Option OAuthClient → Option OAuthClient
client_of_org org none = none
client_of_org org (some c) = if c.org_id == org then some c else none

pub record CodeRequest : Type 0 where
  pub grant_type : String
  pub code : String
  pub redirect_uri : String
  pub client_id : String
  pub code_verifier : String
  pub resource : Option Ident
  -- What `uuid4` and the clock give.
  pub trace_id : Ident
  pub jti : Ident
  pub now : ℕ

unfoldable pub same_ident : Option Ident → Option Ident → Bool
same_ident none none = true
same_ident (some i) (some j) = i == j
same_ident _ _ = false

-- `bound_resource is not None and resource != bound_resource`
unfoldable pub resource_differs : Option Ident → Option Ident → Bool
unfolding same_ident
resource_differs none resource = false
resource_differs (some i) resource = not (same_ident resource (some i))

-- The entry of a tool; it holds the resource of the code, which `authorize` has required with a tool.
unfoldable pub task_entry : Option Ident → Option Ident → AuthorizationDetails
task_entry resource none = none
task_entry none (some tool) = none
task_entry (some server) (some tool) = some ((server, tool) ∷ [])

unfoldable pub code_token : CodeRequest → CodeData → Option Ident → AccessToken
unfolding create_agent_access_token token_scopes task_entry
code_token q d human = create_agent_access_token (record {
  agent_id = d.agent_id;
  org_id = d.org_id;
  scopes = token_scopes d.scopes;
  causal_trace_id = q.trace_id;
  resource = d.resource;
  on_behalf_of = human;
  authorization_details = task_entry d.resource d.tool_name;
  jti = q.jti;
  now = q.now;
})

unfoldable pub human_detail : Option Ident → Details
human_detail none = []
human_detail (some i) = ("on_behalf_of", Detail.ident i) ∷ []

unfoldable pub resource_or_null : Option Ident → Detail
resource_or_null none = Detail.null
resource_or_null (some i) = Detail.ident i

unfoldable pub code_event : CodeRequest → CodeData → Option Ident → AuditEvent
unfolding human_detail resource_or_null
code_event q d human = record {
  org_id = d.org_id;
  action = AuditAction.credential_used;
  actor_type = "agent";
  actor_id = d.agent_id;
  agent_id = some d.agent_id;
  causal_trace_id = q.trace_id;
  outcome = "success";
  resource_id = none;
  details =
      ("jti", Detail.ident q.jti)
      ∷ ("grant_type", Detail.text "authorization_code")
      ∷ ("resource", resource_or_null d.resource)
      ∷ human_detail human;
}

module _ (r : Redis) (k : CodeRedis) where
  -- The two parts of the Redis store.
  abbrev pub Stores : Type 0
  Stores = r.Store × k.Codes

  unfoldable pub store_code : AuthorizeRequest → Method Stores (Unit {0})
  unfolding code_data
  store_code q w = (
    return tt,
    record w {
      redis = (w.redis.0, k.set_code q.code (code_data q) code_ttl_seconds q.now w.redis.1);
    },
  )

  unfoldable pub answer_authorize : AuthorizeRequest → Option String → Method Stores Redirect
  unfolding store_code
  answer_authorize q (some e) = pure (with_error e)
  answer_authorize q none = do store_code q; pure (with_code q.code)

  -- `clients` is the table of the clients.
  unfoldable pub build_authorization_redirect :
      List OAuthClient → AuthorizeRequest → Method Stores Redirect
  unfolding client_by_id client_of_org authorize_error answer_authorize agent_by_id_and_org
  build_authorization_redirect clients q = do
    client ←
        or_error (client_of_org q.org_id (client_by_id clients q.client_id)) 400 "Unknown client_id"
    guard (contains client.redirect_uris q.redirect_uri) 400
        "redirect_uri is not registered for this client"
    agents ← gets (λ w. w.db.agents)
    answer_authorize q (authorize_error q (agent_by_id_and_org agents q.agent_id q.org_id))

  unfoldable pub take_code : String → ℕ → Method Stores (Option CodeData)
  take_code code now w =
      let (o, s) = k.getdel code now w.redis.1 in (return o, record w { redis = (w.redis.0, s) })

  unfoldable pub track_code_token : CodeRequest → CodeData → AccessToken → Method Stores (Unit {0})
  unfolding track_issued_jti
  track_code_token q d token w = (
    return tt,
    record w {
      redis = (
        track_issued_jti r (IndexKey.agent_jtis d.agent_id) token.jti token.exp q.now w.redis.0,
        w.redis.1,
      );
    },
  )

  -- From the agent on; without its row the code raises an error that no handler expects.
  unfoldable pub redeem : CodeRequest → CodeData → Method Stores AccessToken
  unfolding agent_by_id_and_org resolve_on_behalf_of code_token track_code_token code_event
  redeem q d = do
    agents ← gets (λ w. w.db.agents)
    agent ← or_error (agent_by_id_and_org agents d.agent_id d.org_id) 500 "Internal Server Error"
    human ← gets (λ w. resolve_on_behalf_of w.db.on_behalf_of_grants q.now agent d.scopes)
    track_code_token q d (code_token q d human)
    append_audit (code_event q d human)
    pure (code_token q d human)

  -- `challenge_of` is `_s256_challenge`.
  unfoldable pub check_code :
      (String → String) → CodeRequest → Option CodeData → Method Stores AccessToken
  unfolding resource_differs redeem
  check_code challenge_of q none = http_error 400 "invalid_grant"
  check_code challenge_of q (some d) = do
    guard (d.client_id == q.client_id) 400 "invalid_grant"
    guard (d.redirect_uri == q.redirect_uri) 400 "invalid_grant"
    guard (challenge_of q.code_verifier == d.code_challenge) 400 "invalid_grant"
    guard (not (resource_differs d.resource q.resource)) 400 "invalid_target"
    redeem q d

  unfoldable pub exchange_authorization_code :
      (String → String) → CodeRequest → Method Stores AccessToken
  unfolding take_code check_code
  exchange_authorization_code challenge_of q =
      if q.grant_type == "authorization_code"
      then (take_code q.code q.now >>= λ o. check_code challenge_of q o)
      else http_error 400 "unsupported_grant_type"
