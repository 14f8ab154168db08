-- ===== src/Delegation/Revoke.antt =====
-- `DelegationService.revoke_grant` and `get_active_grants_for_agent`
-- (backend/app/services/delegation_service.py).
pub mod Effects
mod Rows
pub mod Tokens
pub mod Lapse
use ai_iam_platform.Prelude.{
  ℕ, ◌+◌, ◌-◌, ◌*◌, ◌/◌, String, Bool, true, false, Option, none, some, List, [], ◌∷◌, ◌++◌, ◌==◌,
  ◌&&◌, ℕ_eq, if◌then◌else◌, ltb, contains, select, find, length, update_where,
}
use ai_iam_platform.Model.{Ident, micros, DelegationGrant, AuditEvent, AuditAction, Detail, Details}
use ai_iam_platform.Service.{
  Db, World, HttpError, Result, return, raise, Method, pure, http_error, and_then, ◌>>=◌, ◌>>◌,
  gets, append_audit, modify_redis, modify_db, or_error,
}
use ai_iam_platform.Revocation.Redis.{Redis}
use ai_iam_platform.Revocation.Index.{revoke_jti}
use ai_iam_platform.Delegation.Cascade.{find_descendant_ids}

-- `select(DG).where(DG.id == grant_id, DG.org_id == org_id)`
unfoldable pub grant_by_id_and_org : List DelegationGrant → Ident → Ident → Option DelegationGrant
grant_by_id_and_org grants i org = find (λ g. (g.id == i) && (g.org_id == org)) grants

pub record RevokeRequest : Type 0 where
  pub grant_id : Ident
  pub org_id : Ident
  pub actor_id : Ident
  pub reason : String
  -- What `uuid4` and the clock, in microseconds, give.
  pub trace_id : Ident
  pub now : ℕ

pub record RevokeResponse : Type 0 where
  pub grant_id : Ident
  pub revoked : Bool
  pub descendant_grants_revoked : ℕ
  pub reason : String

-- `.values(is_active=False, revoked_at=now, revocation_reason=reason)`
unfoldable pub deactivated : RevokeRequest → DelegationGrant → DelegationGrant
deactivated q g = record g {
  is_active = false;
  revoked_at = some q.now;
  revocation_reason = some q.reason;
}

-- `update(DG).where(DG.id.in_(all_ids)).values(…)`
unfoldable pub deactivate_all : RevokeRequest → List Ident → Db → Db
unfolding deactivated
deactivate_all q ids db = record db {
  grants = update_where (λ g. contains ids g.id) (deactivated q) db.grants;
}

unfoldable pub revocation_event : RevokeRequest → DelegationGrant → ℕ → AuditEvent
revocation_event q g n = record {
  org_id = q.org_id;
  action = AuditAction.delegation_revoked;
  actor_type = "user";
  actor_id = q.actor_id;
  agent_id = some g.delegating_agent_id;
  causal_trace_id = q.trace_id;
  outcome = "success";
  resource_id = none;
  details =
      ("grant_id", Detail.ident q.grant_id)
      ∷ ("delegatee_agent_id", Detail.ident g.delegatee_agent_id)
      ∷ ("reason", Detail.text q.reason)
      ∷ ("descendant_grants_revoked", Detail.number n)
      ∷ [];
}

-- `select(DG).where(DG.delegatee_agent_id == …, DG.org_id == …, DG.is_active, DG.expires_at > now)`
unfoldable pub get_active_grants_for_agent :
    List DelegationGrant → Ident → Ident → ℕ → List DelegationGrant
get_active_grants_for_agent grants agent org now =
    select
      (λ g.
        (g.delegatee_agent_id == agent) && (g.org_id == org) && g.is_active && ltb now g.expires_at)
      grants

module _ (r : Redis) where
  -- The `for` loop over the revoked rows: a token with a whole second left or more is blacklisted.
  unfoldable pub blacklist : List DelegationGrant → ℕ → r.Store → r.Store
  blacklist [] now s = s
  blacklist (g ∷ grants) now s =
      let remaining = (g.expires_at - now) / micros in
      blacklist grants now
        (if ltb 0 remaining then revoke_jti r g.delegation_jti remaining now s else s)

  unfoldable pub revoke_all :
      RevokeRequest → DelegationGrant → List Ident → Method r.Store RevokeResponse
  unfolding blacklist deactivate_all revocation_event
  revoke_all q g descendant_ids =
      let all_ids = q.grant_id ∷ descendant_ids in
      do
        modify_db (deactivate_all q all_ids)
        rows ← gets (λ w. select (λ x. contains all_ids x.id) w.db.grants)
        modify_redis (blacklist rows q.now)
        append_audit (revocation_event q g (length descendant_ids))
        pure (record {
          grant_id = q.grant_id;
          revoked = true;
          descendant_grants_revoked = length descendant_ids;
          reason = q.reason;
        })

  -- A walk whose fuel ran out stands for one that does not end.
  unfoldable pub revoke_found :
      RevokeRequest → DelegationGrant → Option (List Ident) → Method r.Store RevokeResponse
  unfolding revoke_all
  revoke_found q g none = http_error 500 "unfinished"
  revoke_found q g (some ids) = revoke_all q g ids

  unfoldable pub revoke_grant : ℕ → RevokeRequest → Method r.Store RevokeResponse
  unfolding revoke_found grant_by_id_and_org
  revoke_grant fuel q = do
    grants ← gets (λ w. w.db.grants)
    grant ←
        or_error (grant_by_id_and_org grants q.grant_id q.org_id) 404 "Delegation grant not found"
    revoke_found q grant (find_descendant_ids fuel grants q.grant_id)
