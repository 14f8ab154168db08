-- ===== src/Exchange.antt =====
-- The exchange of an API key for an access token: `exchange_token` (backend/app/api/token.py) and
-- `create_agent_access_token` (backend/app/core/jwt.py). A token is the claims that it carries; its
-- signature is not modelled.
pub mod Keeps
pub mod Minted
pub mod Issued
pub mod Revoked
pub mod Served
use ai_iam_platform.Prelude.{
  ℕ, ◌+◌, ◌*◌, ◌/◌, ◌-◌, String, Bool, true, false, Option, none, some, List, [], ◌∷◌, ◌++◌, ◌&&◌,
  ◌||◌, ◌==◌, not, ℕ_eq, string_eq, contains, any, if◌then◌else◌,
}
use ai_iam_platform.Model.{Ident, Scope, micros, Agent, AuditEvent, AuditAction, Detail}
use ai_iam_platform.Service.{
  Db, World, HttpError, Result, return, raise, Method, pure, http_error, and_then, ◌>>=◌, ◌>>◌,
  gets, guard, append_audit, modify_redis, or_error, commit,
}
use ai_iam_platform.Revocation.Redis.{Redis, IndexKey}
use ai_iam_platform.Revocation.Index.{track_issued_jti}
use ai_iam_platform.Delegation.Grants.{agent_by_id_and_org, token_scopes}
use ai_iam_platform.Proxy.{Resolved, resolved, unresolved, resolve_mcp_binding, filter_mismatch}
use ai_iam_platform.Agents.Human.{resolve_on_behalf_of}
use ai_iam_platform.Keys.Secrets.{Bcrypt}
use ai_iam_platform.Keys.Verify.{KeyInfo, VerifyRequest, verify_key}

-- `settings.AGENT_ACCESS_TOKEN_EXPIRE_MINUTES`, and `settings.MCP_TASK_SCOPING_REQUIRED_SCOPES`.
abbrev pub access_token_minutes : ℕ
access_token_minutes = 15

abbrev pub task_scoping_required_scopes : List Scope
task_scoping_required_scopes = "credential:rotate" ∷ []

-- The pairs (mcp_server_id, tool_name) that a token is bound to.
abbrev pub AuthorizationDetails : Type 0
AuthorizationDetails = Option (List (Ident × Ident))

pub record AccessToken : Type 0 where
  pub agent_id : Ident
  pub org_id : Ident
  pub scopes : List Scope
  pub causal_trace_id : Ident
  pub parent_agent_id : Option Ident
  pub delegation_depth : ℕ
  pub resource : Option Ident
  pub on_behalf_of : Option Ident
  pub authorization_details : AuthorizationDetails
  pub iat : ℕ
  pub exp : ℕ
  pub jti : Ident

pub record ExchangeRequest : Type 0 where
  pub grant_type : String
  pub credential : String
  -- The trace of the request, or the one for `exchange:api_key`.
  pub causal_trace_id : Ident
  pub intent : Option (Ident × Ident)
  pub unknown : Ident
  -- What `uuid4` and the clock, in microseconds, give.
  pub jti : Ident
  pub now : ℕ

-- The arguments of `create_agent_access_token` that its callers give, and what it takes from outside.
pub record TokenRequest : Type 0 where
  pub agent_id : Ident
  pub org_id : Ident
  pub scopes : List Scope
  pub causal_trace_id : Ident
  pub resource : Option Ident
  pub on_behalf_of : Option Ident
  pub authorization_details : AuthorizationDetails
  pub jti : Ident
  pub now : ℕ

unfoldable pub create_agent_access_token : TokenRequest → AccessToken
create_agent_access_token q = record {
  agent_id = q.agent_id;
  org_id = q.org_id;
  scopes = q.scopes;
  causal_trace_id = q.causal_trace_id;
  parent_agent_id = none;
  delegation_depth = 0;
  resource = q.resource;
  on_behalf_of = q.on_behalf_of;
  authorization_details = q.authorization_details;
  iat = q.now / micros;
  exp = q.now / micros + access_token_minutes * 60;
  jti = q.jti;
}

pub record ExchangeResponse : Type 0 where
  pub access_token : AccessToken
  pub expires_in : ℕ
  pub jti : Ident
  pub scopes : List Scope
  pub causal_trace_id : Ident
  pub on_behalf_of : Option Ident
  pub authorization_details : AuthorizationDetails

unfoldable pub verify_request : ExchangeRequest → VerifyRequest
verify_request q = record {
  causal_trace_id = q.causal_trace_id;
  org_id = none;
  unknown = q.unknown;
  now = q.now;
}

-- `set(key_info["scopes"]) & set(settings.MCP_TASK_SCOPING_REQUIRED_SCOPES)` is not empty.
unfoldable pub is_dangerous : List Scope → Bool
is_dangerous scopes = any (contains task_scoping_required_scopes) scopes

unfoldable pub is_bound : AuthorizationDetails → Bool
is_bound none = false
is_bound (some entries) = true

unfoldable pub exchanged_token :
    ExchangeRequest → KeyInfo → Option Ident → AuthorizationDetails → AccessToken
unfolding create_agent_access_token token_scopes
exchanged_token q info human entries = create_agent_access_token (record {
  agent_id = info.agent_id;
  org_id = info.org_id;
  scopes = token_scopes info.scopes;
  causal_trace_id = q.causal_trace_id;
  resource = none;
  on_behalf_of = human;
  authorization_details = entries;
  jti = q.jti;
  now = q.now;
})

unfoldable pub exchange_response : ExchangeRequest → KeyInfo → AccessToken → ExchangeResponse
exchange_response q info token = record {
  access_token = token;
  expires_in = token.exp - token.iat;
  jti = token.jti;
  scopes = info.scopes;
  causal_trace_id = q.causal_trace_id;
  on_behalf_of = token.on_behalf_of;
  authorization_details = token.authorization_details;
}

unfoldable pub human_entry : ExchangeRequest → KeyInfo → Ident → AuditEvent
human_entry q info human = record {
  org_id = info.org_id;
  action = AuditAction.credential_used;
  actor_type = "agent";
  actor_id = info.agent_id;
  agent_id = some info.agent_id;
  causal_trace_id = q.causal_trace_id;
  outcome = "success";
  resource_id = none;
  details = ("jti", Detail.ident q.jti) ∷ ("on_behalf_of", Detail.ident human) ∷ [];
}

module _ {S : Type 0} where
  -- The binding of an intent that the agent could use itself.
  unfoldable pub allow_intent : Ident × Ident → Resolved → Method S AuthorizationDetails
  unfolding filter_mismatch
  allow_intent intent (unresolved reason) = http_error 422 "invalid_intent"
  allow_intent intent (resolved url b) = do
    guard (not (filter_mismatch b.tool_filter intent.1)) 422 "invalid_intent"
    pure (some (intent ∷ []))

  unfoldable pub check_intent : Option (Ident × Ident) → Agent → Method S AuthorizationDetails
  unfolding allow_intent resolve_mcp_binding
  check_intent none agent = pure none
  check_intent (some intent) agent = do
    agents ← gets (λ w. w.db.agents)
    allow_intent intent (resolve_mcp_binding agents agent.id agent.org_id intent.0)

  unfoldable pub record_human : ExchangeRequest → KeyInfo → Option Ident → Method S (Unit {0})
  unfolding human_entry
  record_human q info none = pure tt
  record_human q info (some human) = append_audit (human_entry q info human)

  -- `if not key_info`
  unfoldable pub require_key : Option KeyInfo → Method S KeyInfo
  require_key none = http_error 401 "Invalid or expired API key"
  require_key (some info) = pure info

module _ (r : Redis) (b : Bcrypt) where
  -- The two reverse indexes of a token.
  unfoldable pub track_token : KeyInfo → AccessToken → ℕ → r.Store → r.Store
  unfolding track_issued_jti
  track_token info token now s =
      track_issued_jti r (IndexKey.key_jtis info.key_id) token.jti token.exp now
        (track_issued_jti r (IndexKey.agent_jtis info.agent_id) token.jti token.exp now s)

  unfoldable pub mint :
      ExchangeRequest
      → KeyInfo
      → Option Ident
      → AuthorizationDetails
      → Method r.Store ExchangeResponse
  unfolding is_dangerous is_bound exchanged_token track_token record_human exchange_response
  mint q info human entries =
      let token = exchanged_token q info human entries in
      do
        guard (not (is_dangerous info.scopes) || is_bound entries) 422 "task_scoping_required"
        modify_redis (track_token info token q.now)
        record_human q info human
        pure (exchange_response q info token)

  -- What follows the commit. The row of the agent is there, by a foreign key; without it the code
  -- raises an error that no handler expects.
  unfoldable pub exchange_verified : ExchangeRequest → KeyInfo → Method r.Store ExchangeResponse
  unfolding agent_by_id_and_org resolve_on_behalf_of check_intent mint
  exchange_verified q info = do
    agents ← gets (λ w. w.db.agents)
    agent ←
        or_error (agent_by_id_and_org agents info.agent_id info.org_id) 500 "Internal Server Error"
    human ← gets (λ w. resolve_on_behalf_of w.db.on_behalf_of_grants q.now agent info.scopes)
    entries ← check_intent q.intent agent
    mint q info human entries

  unfoldable pub exchange_api_key : ExchangeRequest → Method r.Store ExchangeResponse
  unfolding verify_key verify_request require_key exchange_verified
  exchange_api_key q = do
    found ← verify_key b (verify_request q) q.credential
    info ← require_key found
    commit
    exchange_verified q info

  unfoldable pub exchange_token : ExchangeRequest → Method r.Store ExchangeResponse
  unfolding exchange_api_key
  exchange_token q =
      if q.grant_type == "api_key"
      then exchange_api_key q
      else http_error 400 "Unsupported grant_type"
