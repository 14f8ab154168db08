-- ===== src/Tests/Access.antt =====
-- Requests through the middleware, and an authorization code, in the small organisation.
use ai_iam_platform.Prelude.{
  ℕ, ◌*◌, ◌+◌, ◌/◌, ◌<◌, ◌≤◌, ◌≡◌, ◌≢◌, refl, String, Bool, true, false, Option, none, some, [],
  ◌∷◌, arith, ◌==◌, ◌&&◌, string_eq, contains, ltb, if◌then◌else◌, ==_refl, find, is_subset, select,
  any,
}
use ai_iam_platform.Model.{Ident, Scope, micros, Agent, permission_scopes, is_active_status}
use ai_iam_platform.Service.{World, return, raise}
use ai_iam_platform.Revocation.Sample.{sample_redis}
use ai_iam_platform.Agents.Lifecycle.{AgentRequest, suspend}
use ai_iam_platform.Keys.Verify.{KeyInfo}
use ai_iam_platform.Keys.Manage.{RevokeKeyRequest, revoke_key}
use ai_iam_platform.Exchange.{AccessToken, exchange_token}
use ai_iam_platform.Exchange.Issued.{IsExchanged}
use ai_iam_platform.Middleware.{
  Claims, valid, jwt_error, Jose, Identity, bound, open_route, excluded_paths, requires_agent_auth,
  extract_bearer_token, dispatch,
}
use ai_iam_platform.Middleware.Admitted.{IsAuthentic, dispatch_guards}
use ai_iam_platform.Middleware.Ended.{exchange_token-dispatch}
use ai_iam_platform.OAuth.{
  CodeData, CodeRedis, Stores, OAuthClient, AuthorizeRequest, with_code, code_data,
  build_authorization_redirect, CodeRequest, exchange_authorization_code,
}
use ai_iam_platform.OAuth.Single.{exchange_authorization_code_once}
use ai_iam_platform.OAuth.Bound.{IsAuthorized, IsRedeemed, authorize-exchange}
use ai_iam_platform.Tests.{agent_of, sample_db, closed_breaker}
use ai_iam_platform.Tests.Keys.{
  sample_bcrypt, key_world, exchange_request, sample_response, exchange_run,
}

abbrev sample_claims : Claims
sample_claims = record {
  agent_id = some 1;
  org_id = some 9;
  scopes = "tool:execute" ∷ [];
  causal_trace_id = some 8;
  delegation_depth = 0;
  parent_agent_id = none;
  token_type = "access";
  resource = none;
  authorization_details = none;
  on_behalf_of = none;
}

-- A library that knows one token.
abbrev sample_jose : Jose
sample_jose = record {
  unverified_jti = λ token. if token == "signed" then some 402 else none;
  decode = λ token now. if token == "signed" then valid sample_claims else jwt_error;
}

dispatch_guards_example :
    ((i : Identity)
      → dispatch sample_redis sample_jose true 30_000_000
          ([], [])
          "/api/v1/mcp/tools/call"
          "Bearer signed"
        ≡ bound i
      → (requires_agent_auth "/api/v1/mcp/tools/call" ≡ true)
        × ((token : String) × (extract_bearer_token "Bearer signed" ≡ some token)
            × IsAuthentic sample_redis sample_jose true 30_000_000 ([], []) token i))
    × (contains excluded_paths "/api/v1/mcp/tools/call" ≡ false
        → requires_agent_auth "/api/v1/mcp/tools/call" ≡ true
        → dispatch sample_redis sample_jose true 30_000_000
            ([], [])
            "/api/v1/mcp/tools/call"
            "Bearer signed"
          ≢ open_route)
dispatch_guards_example =
    dispatch_guards sample_redis sample_jose true 30_000_000 ([], []) "/api/v1/mcp/tools/call"
      "Bearer signed"

abbrev sample_identity : Identity
sample_identity = record { agent_id = 1; org_id = 9; jti = 402; claims = sample_claims }

-- The request of the test above does reach its handler.
dispatch_run :
    dispatch sample_redis sample_jose true 30_000_000
      ([], [])
      "/api/v1/mcp/tools/call"
      "Bearer signed"
    ≡ bound sample_identity
unfolding dispatch contains
dispatch_run = refl

exchange_token-dispatch_example :
    (info : KeyInfo) × IsExchanged sample_redis sample_bcrypt exchange_request key_world
      (exchange_token sample_redis sample_bcrypt exchange_request key_world).1
      sample_response
      info
    × ((k : RevokeKeyRequest) (up : Bool) (path auth : String) (i : Identity)
        → (revoke_key sample_redis k
            (exchange_token sample_redis sample_bcrypt exchange_request key_world).1).0
          ≡ return true
        → k.key_id ≡ info.key_id
        → k.now / micros ≤ 20_000_000 / micros + 900
        → dispatch sample_redis sample_jose up 30_000_000
            (revoke_key sample_redis k
              (exchange_token sample_redis sample_bcrypt exchange_request key_world).1).1.redis
            path
            auth
          ≡ bound i
        → i.jti ≢ 402)
    × ((s : AgentRequest) (a : Agent) (up : Bool) (path auth : String) (i : Identity)
        → (suspend sample_redis s
            (exchange_token sample_redis sample_bcrypt exchange_request key_world).1).0
          ≡ return a
        → s.agent_id ≡ info.agent_id
        → s.now / micros ≤ 20_000_000 / micros + 900
        → dispatch sample_redis sample_jose up 30_000_000
            (suspend sample_redis s
              (exchange_token sample_redis sample_bcrypt exchange_request key_world).1).1.redis
            path
            auth
          ≡ bound i
        → i.jti ≢ 402)
exchange_token-dispatch_example =
    exchange_token-dispatch sample_redis sample_jose sample_bcrypt exchange_request key_world
      sample_response 30_000_000 exchange_run (omega arith)

-- Codes as a table with the moment at which each ends.
abbrev still : ℕ → Option (CodeData × ℕ) → Option CodeData
still t none = none
still t (some (d, end)) = if ltb t end then some d else none

abbrev sample_codes : CodeRedis
sample_codes = record {
  Codes = String → Option (CodeData × ℕ);
  set_code = λ code d ttl now s c. if code == c then some (d, now + ttl * micros) else s c;
  getdel = λ code t s. (still t (s code), λ c. if code == c then none else s c);
  getdel-set_code = λ code d ttl now t s. rw (==_refl code) refl;
  getdel-getdel = λ code now t s. rw (==_refl code) refl;
}

abbrev code_world : World (Stores sample_redis sample_codes)
code_world = record {
  db = record sample_db { agents = agent_of 1 ∷ [] };
  committed = sample_db;
  redis = (([], []), λ c. none);
  audit = [];
  breaker = closed_breaker;
  outbound = [];
}

abbrev sample_client : OAuthClient
sample_client = record {
  org_id = 9;
  client_id = "mcpc_1";
  redirect_uris = "https://client/callback" ∷ [];
}

abbrev authorize_request : AuthorizeRequest
authorize_request = record {
  client_id = "mcpc_1";
  redirect_uri = "https://client/callback";
  response_type = "code";
  code_challenge = "verifier";
  code_challenge_method = "S256";
  requested_scopes = "tool:execute" ∷ [];
  resource = some 60;
  tool_name = some 7;
  agent_id = 1;
  org_id = 9;
  code = "code_1";
  now = 10_500_000;
}

abbrev code_request : CodeRequest
code_request = record {
  grant_type = "authorization_code";
  code = "code_1";
  redirect_uri = "https://client/callback";
  client_id = "mcpc_1";
  code_verifier = "verifier";
  resource = some 60;
  trace_id = 8;
  jti = 403;
  now = 20_500_000;
}

abbrev code_access_token : AccessToken
code_access_token = record {
  agent_id = 1;
  org_id = 9;
  scopes = "tool:execute" ∷ [];
  causal_trace_id = 8;
  parent_agent_id = none;
  delegation_depth = 0;
  resource = some 60;
  on_behalf_of = none;
  authorization_details = some ((60, 7) ∷ []);
  iat = 20;
  exp = 920;
  jti = 403;
}

authorize_run :
    (build_authorization_redirect sample_redis sample_codes
      (sample_client ∷ [])
      authorize_request
      code_world).0
    ≡ return (with_code "code_1")
unfolding build_authorization_redirect contains find is_subset any is_active_status
authorize_run = refl

code_run :
    (exchange_authorization_code sample_redis sample_codes
      (λ v. v)
      code_request
      (build_authorization_redirect sample_redis sample_codes
        (sample_client ∷ [])
        authorize_request
        code_world).1).0
    ≡ return code_access_token
unfolding build_authorization_redirect exchange_authorization_code contains find is_subset any
    select is_active_status
code_run = refl

authorize-exchange_example :
    IsAuthorized (agent_of 1 ∷ []) authorize_request
    × IsRedeemed (λ v. v) code_request (code_data authorize_request) code_access_token
    × (20_500_000 < 10_500_000 + 120 * micros)
    × (code_access_token.agent_id ≡ 1)
    × ((s : Scope)
        → contains ("tool:execute" ∷ []) s
          ≡ (contains ("tool:execute" ∷ []) s && contains permission_scopes s))
    × ((server : Ident) → some 60 ≡ some server → code_request.resource ≡ some server)
    × (code_access_token.resource ≡ some 60)
    × (authorize_request.tool_name ≡ none → code_access_token.authorization_details ≡ none)
    × ((tool : Ident)
        → some 7 ≡ some tool
        → (server : Ident) × (some 60 ≡ some server)
          × (code_access_token.authorization_details ≡ some ((server, tool) ∷ [])))
authorize-exchange_example =
    authorize-exchange sample_redis sample_codes (λ v. v) (sample_client ∷ []) authorize_request
      code_request code_world "code_1" code_access_token authorize_run code_run refl

-- A first attempt with another client's name, and a second with the right one.
abbrev stolen_request : CodeRequest
stolen_request = record code_request { client_id = "mcpc_2" }

exchange_authorization_code_once_example :
    (exchange_authorization_code sample_redis sample_codes
      (λ v. v)
      code_request
      (exchange_authorization_code sample_redis sample_codes
        (λ v. v)
        stolen_request
        (build_authorization_redirect sample_redis sample_codes
          (sample_client ∷ [])
          authorize_request
          code_world).1).1).0
    ≡ raise (record { status_code = 400; detail = "invalid_grant" })
exchange_authorization_code_once_example =
    exchange_authorization_code_once sample_redis sample_codes (λ v. v) stolen_request code_request
      (build_authorization_redirect sample_redis sample_codes (sample_client ∷ []) authorize_request
        code_world).1
      refl refl refl
