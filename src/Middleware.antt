-- ===== src/Middleware.antt =====
-- `AgentAuthMiddleware` (backend/app/middleware/agent_auth.py): which requests reach a handler, and
-- with which identity. The JWT library enters as `Jose`: what it reads from a token without and with
-- verification.
pub mod Admitted
pub mod Ended
use Prim.Native.String.{len, slice}
use text.Mathlib.Text.{starts_with}
use ai_iam_platform.Prelude.{
  ℕ, ◌≡◌, String, Bool, true, false, Option, none, some, List, [], ◌∷◌, ◌==◌, ◌||◌, string_eq,
  contains, ltb, if◌then◌else◌,
}
use ai_iam_platform.Model.{Ident, Scope}
use ai_iam_platform.Revocation.Redis.{Redis}
use ai_iam_platform.Revocation.Index.{RevocationCheck, known, unavailable, is_revoked}
use ai_iam_platform.Delegation.Validator.{max_delegation_depth}
use ai_iam_platform.Exchange.{AuthorizationDetails}

-- The claims that the code reads; a missing one is none, or the default of its `get`.
pub record Claims : Type 0 where
  pub agent_id : Option Ident
  pub org_id : Option Ident
  pub scopes : List Scope
  pub causal_trace_id : Option Ident
  pub delegation_depth : ℕ
  pub parent_agent_id : Option Ident
  pub token_type : String
  pub resource : Option Ident
  pub authorization_details : AuthorizationDetails
  pub on_behalf_of : Option Ident

-- What `verify_agent_token` gives, or the class of the error that it raises.
pub data Verified : Type 0 where
  valid : Claims → Verified
  expired claims_error jwt_error : Verified

pub record Jose : Type 0 where
  -- `get_unverified_claims(token).get("jti")`, none also where it raises.
  pub unverified_jti : String → Option Ident
  -- `jwt.decode` with the public key, the audience and the issuer, at a moment.
  pub decode : String → ℕ → Verified

pub record Identity : Type 0 where
  pub agent_id : Ident
  pub org_id : Ident
  pub jti : Ident
  -- The other claims, as they are in the token.
  pub claims : Claims

pub data Admission : Type 0 where
  admitted : Identity → Admission
  refused : (status_code : ℕ) → (error : String) → Admission

-- `payload["agent_id"]` and `payload["org_id"]`: a missing key is an error that no handler expects.
unfoldable pub identity_of : Ident → Claims → Option Ident → Option Ident → Admission
identity_of jti c (some agent) (some org) =
    admitted (record { agent_id = agent; org_id = org; jti = jti; claims = c })
identity_of jti c _ _ = refused 500 "Internal Server Error"

unfoldable pub check_claims : Ident → Verified → Admission
unfolding identity_of
check_claims jti expired = refused 401 "token_expired"
check_claims jti claims_error = refused 401 "invalid_claims"
check_claims jti jwt_error = refused 401 "invalid_token"
check_claims jti (valid c) =
    if ltb max_delegation_depth c.delegation_depth
    then refused 403 "delegation_depth_exceeded"
    else identity_of jti c c.agent_id c.org_id

-- `_check_jti_revoked`, and what follows it.
unfoldable pub after_revocation : Jose → ℕ → String → Ident → RevocationCheck → Admission
unfolding check_claims
after_revocation jose now token jti unavailable = refused 401 "revocation_check_unavailable"
after_revocation jose now token jti (known revoked) =
    if revoked then refused 401 "token_revoked" else check_claims jti (jose.decode token now)

-- What the middleware does with a request: the handler runs without an identity, or with one, or the
-- request is answered at once.
pub data Dispatch : Type 0 where
  open_route : Dispatch
  bound : Identity → Dispatch
  denied : (status_code : ℕ) → (error : String) → Dispatch

abbrev pub excluded_paths : List String
excluded_paths =
    "/health" ∷ "/docs" ∷ "/openapi.json" ∷ "/redoc" ∷ "/api/v1/auth/login"
    ∷ "/api/v1/auth/register" ∷ "/api/v1/organizations" ∷ "/.well-known/oauth-authorization-server"
    ∷ "/.well-known/oauth-protected-resource" ∷ "/.well-known/jwks.json" ∷ "/api/v1/oauth/token"
    ∷ []

unfoldable pub requires_agent_auth : String → Bool
requires_agent_auth path =
    starts_with path "/api/v1/mcp/tools/" || starts_with path "/api/v1/token/delegate"

-- The text after `Bearer `; a missing header is an empty one.
unfoldable pub extract_bearer_token : String → Option String
extract_bearer_token auth =
    if starts_with auth "Bearer " then some (slice auth 7 (len auth)) else none

unfoldable pub answer : Admission → Dispatch
answer (admitted identity) = bound identity
answer (refused status_code error) = denied status_code error

module _ (r : Redis) (jose : Jose) where
  unfoldable pub validate_jti : Bool → ℕ → r.Store → String → Option Ident → Admission
  unfolding after_revocation is_revoked
  validate_jti up now s token none = refused 401 "invalid_token"
  validate_jti up now s token (some jti) =
      after_revocation jose now token jti (is_revoked r up jti now s)

  -- `_validate_token`; `up` says whether Redis can be reached.
  unfoldable pub validate_token : Bool → ℕ → r.Store → String → Admission
  unfolding validate_jti
  validate_token up now s token = validate_jti up now s token (jose.unverified_jti token)

  -- `if not token`: a missing token, or an empty one.
  unfoldable pub dispatch_token : Bool → ℕ → r.Store → Option String → Dispatch
  unfolding validate_token answer
  dispatch_token up now s none = denied 401 "missing_token"
  dispatch_token up now s (some token) =
      if token == "" then denied 401 "missing_token" else answer (validate_token up now s token)

  unfoldable pub dispatch : Bool → ℕ → r.Store → String → String → Dispatch
  unfolding requires_agent_auth extract_bearer_token dispatch_token
  dispatch up now s path auth =
      if contains excluded_paths path
      then open_route
      else if requires_agent_auth path
      then dispatch_token up now s (extract_bearer_token auth)
      else open_route
