-- ===== src/Agents/Human.antt =====
-- The human in whose name an agent acts: `resolve_on_behalf_of`, `grant_on_behalf_of` and
-- `revoke_on_behalf_of` (backend/app/services/agent_service.py), and the rows that they read
-- (backend/app/repositories/on_behalf_of_grant_repo.py).
pub mod Resolved
use ai_iam_platform.Prelude.{
  ℕ, ◌+◌, ◌*◌, String, Bool, true, false, Option, none, some, List, [], ◌∷◌, ◌++◌, ◌&&◌, ◌==◌, ℕ_eq,
  string_eq, contains, is_subset, select, find, update_where, ltb, if◌then◌else◌,
}
use ai_iam_platform.Model.{
  Ident, Scope, micros, Agent, OnBehalfOfGrant, AuditEvent, AuditAction, Detail, Details,
}
use ai_iam_platform.Service.{
  Db, World, HttpError, Result, return, raise, Method, pure, http_error, and_then, ◌>>=◌, ◌>>◌,
  gets, guard, append_audit, modify_db, or_error,
}
use ai_iam_platform.Delegation.Grants.{agent_by_id_and_org}

-- `is_active and expires_at > now` of one agent.
unfoldable pub is_live_grant : Ident → ℕ → OnBehalfOfGrant → Bool
is_live_grant agent now g = (g.agent_id == agent) && (g.is_active && ltb now g.expires_at)

unfoldable pub get_active_for_agent : List OnBehalfOfGrant → Ident → ℕ → List OnBehalfOfGrant
unfolding is_live_grant
get_active_for_agent grants agent now = select (is_live_grant agent now) grants

unfoldable pub human_grant_by_id : List OnBehalfOfGrant → Ident → Ident → Option OnBehalfOfGrant
human_grant_by_id grants i org = find (λ g. (g.id == i) && (g.org_id == org)) grants

-- The `for` loop: the first grant that covers the request decides.
unfoldable pub first_cover : List OnBehalfOfGrant → List Scope → Option Ident → Option Ident
first_cover [] requested fallback = fallback
first_cover (g ∷ grants) requested fallback =
    if is_subset requested g.scopes
    then some g.granted_by_user_id
    else first_cover grants requested fallback

unfoldable pub resolve_on_behalf_of : List OnBehalfOfGrant → ℕ → Agent → List Scope → Option Ident
unfolding get_active_for_agent first_cover
resolve_on_behalf_of grants now agent requested =
    first_cover (get_active_for_agent grants agent.id now) requested agent.activated_by_user_id

pub record HumanGrantRequest : Type 0 where
  pub agent_id : Ident
  pub org_id : Ident
  pub granted_by_user_id : Ident
  pub scopes : List Scope
  pub ttl_seconds : ℕ
  pub actor_id : Ident
  -- What `uuid4` and the clock, in microseconds, give.
  pub grant_id : Ident
  pub trace_id : Ident
  pub now : ℕ

unfoldable pub new_human_grant : HumanGrantRequest → OnBehalfOfGrant
new_human_grant q = record {
  id = q.grant_id;
  org_id = q.org_id;
  agent_id = q.agent_id;
  granted_by_user_id = q.granted_by_user_id;
  scopes = q.scopes;
  is_active = true;
  expires_at = q.now + q.ttl_seconds * micros;
  revoked_at = none;
  revocation_reason = none;
}

unfoldable pub human_event : AuditAction → Ident → Ident → Ident → Ident → Details → AuditEvent
human_event action org actor agent trace details = record {
  org_id = org;
  action = action;
  actor_type = "user";
  actor_id = actor;
  agent_id = some agent;
  causal_trace_id = trace;
  outcome = "success";
  resource_id = none;
  details = details;
}

pub record HumanRevokeRequest : Type 0 where
  pub grant_id : Ident
  pub org_id : Ident
  pub actor_id : Ident
  pub reason : String
  pub trace_id : Ident
  pub now : ℕ

unfoldable pub revoked_human_grant : HumanRevokeRequest → OnBehalfOfGrant → OnBehalfOfGrant
revoked_human_grant q g = record g {
  is_active = false;
  revoked_at = some q.now;
  revocation_reason = some q.reason;
}

module _ {S : Type 0} where
  -- `set(scopes) - set(agent.allowed_scopes)` is empty just when the scopes are a subset.
  unfoldable pub grant_on_behalf_of : HumanGrantRequest → Method S OnBehalfOfGrant
  unfolding agent_by_id_and_org new_human_grant human_event
  grant_on_behalf_of q = do
    agents ← gets (λ w. w.db.agents)
    agent ← or_error (agent_by_id_and_org agents q.agent_id q.org_id) 404 "Agent not found"
    guard (is_subset q.scopes agent.allowed_scopes) 422
        "Requested scopes exceed agent's allowed scopes"
    modify_db (λ db. record db {
      on_behalf_of_grants = db.on_behalf_of_grants ++ (new_human_grant q ∷ []);
    })
    append_audit (
        human_event AuditAction.on_behalf_of_granted q.org_id q.actor_id q.agent_id q.trace_id (
          ("grant_id", Detail.ident q.grant_id)
          ∷ ("granted_by_user_id", Detail.ident q.granted_by_user_id)
          ∷ ("scopes", Detail.scopes q.scopes)
          ∷ ("expires_at", Detail.number (q.now + q.ttl_seconds * micros))
          ∷ []))
    pure (new_human_grant q)

  unfoldable pub revoke_on_behalf_of : HumanRevokeRequest → Method S (Unit {0})
  unfolding human_grant_by_id revoked_human_grant human_event
  revoke_on_behalf_of q = do
    grants ← gets (λ w. w.db.on_behalf_of_grants)
    grant ←
        or_error (human_grant_by_id grants q.grant_id q.org_id) 404 "On-behalf-of grant not found"
    modify_db (λ db. record db {
      on_behalf_of_grants =
          update_where (λ g. g.id == q.grant_id) (revoked_human_grant q) db.on_behalf_of_grants;
    })
    append_audit (
        human_event AuditAction.on_behalf_of_revoked q.org_id q.actor_id grant.agent_id q.trace_id
          (("grant_id", Detail.ident q.grant_id) ∷ ("reason", Detail.text q.reason) ∷ []))
