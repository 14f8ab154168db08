-- ===== src/Delegation/Grants.antt =====
-- `DelegationService.delegate` (backend/app/services/delegation_service.py) and
-- `create_delegation_token` (backend/app/core/jwt.py). What `uuid4` and the clock give are
-- arguments, and a token is the claims that it carries; its signature is not modelled.
pub mod Checked
pub mod Refused
pub mod Issued
pub mod Keeps
use ai_iam_platform.Prelude.{
  ℕ, suc, ◌+◌, ◌-◌, ◌*◌, ◌/◌, String, Bool, true, false, Option, none, some, List, [], ◌∷◌, ◌++◌,
  ◌==◌, ◌&&◌, ℕ_eq, string_eq, if◌then◌else◌, ltb, leb, contains, dedup, intersect, select, find,
  length,
}
use ai_iam_platform.Model.{
  Ident, Scope, micros, Agent, AgentStatus, is_active_status, DelegationGrant, AuditEvent,
  AuditAction, Detail, Details, permission_scopes,
}
use ai_iam_platform.Service.{
  Db, World, HttpError, Result, return, raise, Method, pure, http_error, and_then, ◌>>=◌, ◌>>◌,
  gets, guard, append_audit, modify_redis, modify_db, or_error,
}
use ai_iam_platform.Revocation.Redis.{Redis, IndexKey}
use ai_iam_platform.Revocation.Index.{track_issued_jti}
use ai_iam_platform.Delegation.Validator.{
  Rejection, scope_attenuation, Verdict, approved, rejected, DelegationChain, chain_depth, validate,
  max_delegation_depth,
}
use ai_iam_platform.Delegation.Chain.{load_chain}

-- `agent_repo.get_by_id_and_org` (backend/app/repositories/agent_repo.py)
unfoldable pub agent_by_id_and_org : List Agent → Ident → Ident → Option Agent
agent_by_id_and_org agents i org = find (λ a. (a.id == i) && (a.org_id == org)) agents

pub record DelegationToken : Type 0 where
  pub agent_id : Ident
  pub delegated_by : Ident
  pub org_id : Ident
  pub scopes : List Scope
  pub causal_trace_id : Ident
  pub delegation_depth : ℕ
  pub on_behalf_of : Option Ident
  pub iat : ℕ
  pub exp : ℕ
  pub jti : Ident

-- The keyword arguments of `delegate`; `causal_trace_id` is the parent's trace or a new one.
pub record DelegateRequest : Type 0 where
  pub delegating_agent_id : Ident
  pub delegatee_agent_id : Ident
  pub org_id : Ident
  pub requested_scopes : List Scope
  pub verified_scopes : List Scope
  pub delegating_agent_jti : Option Ident
  pub causal_trace_id : Ident
  pub ttl_seconds : ℕ
  pub on_behalf_of : Option Ident

-- What a call takes from `uuid4` and from the clock, in microseconds.
pub record Fresh : Type 0 where
  pub grant_id : Ident
  pub jti : Ident
  pub now : ℕ

-- `none` is the `ValueError` of a depth at the ceiling.
unfoldable pub create_delegation_token :
    DelegateRequest → Fresh → List Scope → ℕ → Option DelegationToken
create_delegation_token q f scopes current_depth =
    if leb max_delegation_depth current_depth
    then none
    else some (record {
      agent_id = q.delegatee_agent_id;
      delegated_by = q.delegating_agent_id;
      org_id = q.org_id;
      scopes = scopes;
      causal_trace_id = q.causal_trace_id;
      delegation_depth = current_depth + 1;
      on_behalf_of = q.on_behalf_of;
      iat = f.now / micros;
      exp = f.now / micros + 600;
      jti = f.jti;
    })

pub record DelegateResponse : Type 0 where
  pub delegation_token : DelegationToken
  pub jti : Ident
  pub expires_in : ℕ
  pub scopes : List Scope
  pub delegation_depth : ℕ
  pub grant : DelegationGrant
  pub on_behalf_of : Option Ident

-- The scopes of the token: those of the approved that are a `PermissionScope`.
unfoldable pub token_scopes : List Scope → List Scope
token_scopes scopes = select (contains permission_scopes) scopes

unfoldable pub new_grant :
    DelegateRequest → Fresh → DelegationToken → Option Ident → List Scope → ℕ → DelegationGrant
new_grant q f token parent_id scopes depth = record {
  id = f.grant_id;
  org_id = q.org_id;
  delegating_agent_id = q.delegating_agent_id;
  delegatee_agent_id = q.delegatee_agent_id;
  scopes = scopes;
  delegation_depth = depth;
  delegation_jti = token.jti;
  is_active = true;
  expires_at = token.exp * micros;
  revoked_at = none;
  revocation_reason = none;
  causal_trace_id = q.causal_trace_id;
  parent_grant_id = parent_id;
}

unfoldable pub response_of :
    DelegateRequest → DelegationGrant → DelegationToken → List Scope → ℕ → DelegateResponse
response_of q grant token scopes depth = record {
  delegation_token = token;
  jti = token.jti;
  expires_in = token.exp - token.iat;
  scopes = scopes;
  delegation_depth = depth;
  grant = grant;
  on_behalf_of = q.on_behalf_of;
}

unfoldable pub delegation_event : DelegateRequest → String → Details → AuditEvent
delegation_event q outcome details = record {
  org_id = q.org_id;
  action = AuditAction.delegation_granted;
  actor_type = "agent";
  actor_id = q.delegating_agent_id;
  agent_id = some q.delegating_agent_id;
  causal_trace_id = q.causal_trace_id;
  outcome = outcome;
  resource_id = none;
  details = details;
}

abbrev pub ident_or_null : Option Ident → Detail
ident_or_null none = Detail.null
ident_or_null (some i) = Detail.ident i

abbrev pub insert_grant : DelegationGrant → Db → Db
insert_grant g db = record db { grants = db.grants ++ (g ∷ []) }

-- The status of the response to a request that the validator refuses.
unfoldable pub rejection_status : Rejection → ℕ
rejection_status scope_attenuation = 422
rejection_status _ = 403

-- The verified scopes of the token, cut down to what the agent is allowed at present.
unfoldable pub held_scopes : DelegateRequest → Agent → List Scope
held_scopes q agent = intersect q.verified_scopes agent.allowed_scopes

module _ (r : Redis) where
  -- The audited refusals of the two `except` blocks.
  unfoldable pub refuse : DelegateRequest → ℕ → Details → Method r.Store DelegateResponse
  unfolding delegation_event
  refuse q status details = do
    append_audit (delegation_event q "failure" details)
    http_error status "Delegation rejected"

  unfoldable pub issue_token :
      DelegateRequest
      → Fresh
      → Option Ident
      → List Scope
      → ℕ
      → DelegationToken
      → Method r.Store DelegateResponse
  unfolding new_grant delegation_event response_of
  issue_token q f parent_id scopes depth token =
      let grant = new_grant q f token parent_id scopes depth in
      do
        modify_db (insert_grant grant)
        modify_redis (
            track_issued_jti r (IndexKey.agent_jtis q.delegatee_agent_id) token.jti token.exp f.now)
        append_audit (
            delegation_event q "success" (
              ("grant_id", Detail.ident grant.id)
              ∷ ("delegatee_agent_id", Detail.ident q.delegatee_agent_id)
              ∷ ("approved_scopes", Detail.scopes scopes)
              ∷ ("delegation_depth", Detail.number depth)
              ∷ ("expires_at", Detail.number grant.expires_at)
              ∷ ("on_behalf_of", ident_or_null q.on_behalf_of)
              ∷ []))
        pure (response_of q grant token scopes depth)

  unfoldable pub issue_checked :
      DelegateRequest
      → Fresh
      → Option Ident
      → List Scope
      → ℕ
      → Option DelegationToken
      → Method r.Store DelegateResponse
  unfolding issue_token
  issue_checked q f parent_id scopes depth none = http_error 500 "Delegation depth exceeds maximum"
  issue_checked q f parent_id scopes depth (some token) =
      issue_token q f parent_id scopes depth token

  unfoldable pub after_validation :
      DelegateRequest
      → Fresh
      → DelegationChain
      → Option Ident
      → Verdict (List Scope)
      → Method r.Store DelegateResponse
  unfolding issue_checked refuse create_delegation_token token_scopes rejection_status
  after_validation q f chain parent_id (rejected e) = refuse q (rejection_status e) (
      ("error", Detail.text "Delegation rejected")
      ∷ ("requested_scopes", Detail.scopes q.requested_scopes)
      ∷ [])
  after_validation q f chain parent_id (approved scopes) =
      issue_checked q f parent_id scopes (chain_depth chain + 1)
        (create_delegation_token q f (token_scopes scopes) (chain_depth chain))

  unfoldable pub after_chain :
      DelegateRequest
      → Fresh
      → Agent
      → Verdict (DelegationChain × Option Ident)
      → Method r.Store DelegateResponse
  unfolding after_validation held_scopes refuse
  after_chain q f agent (rejected e) =
      refuse q 403 (("error", Detail.text "Delegation rejected") ∷ [])
  after_chain q f agent (approved (chain, parent_id)) = after_validation q f chain parent_id (
      validate chain q.delegating_agent_id q.delegatee_agent_id (held_scopes q agent)
        q.requested_scopes)

  unfoldable pub delegate : DelegateRequest → Fresh → Method r.Store DelegateResponse
  unfolding after_chain agent_by_id_and_org is_active_status
  delegate q f = do
    agents ← gets (λ w. w.db.agents)
    delegating ←
        or_error (agent_by_id_and_org agents q.delegating_agent_id q.org_id) 404
          "Delegating agent not found"
    delegatee ←
        or_error (agent_by_id_and_org agents q.delegatee_agent_id q.org_id) 404
          "Delegatee agent not found"
    guard (is_active_status delegatee.status) 422 "Delegatee agent is not ACTIVE"
    grants ← gets (λ w. w.db.grants)
    after_chain q f delegating (load_chain grants q.delegating_agent_jti)
