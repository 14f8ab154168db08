-- ===== src/Delegation/Chain.antt =====
-- `DelegationService._load_chain` (backend/app/services/delegation_service.py): the walk over
-- `parent_grant_id` from the grant that authorised the delegating agent's token up to the root.
-- The code appends each ancestor and reverses the list at the end; the model puts it in front.
pub mod Loaded
pub mod Total
use ai_iam_platform.Prelude.{
  ℕ, zero, suc, Bool, true, false, List, [], ◌∷◌, ◌==◌, ℕ_eq, if◌then◌else◌, contains, find, length,
  Option, none, some, map, not,
}
use ai_iam_platform.Model.{Ident, DelegationGrant}
use ai_iam_platform.Delegation.Validator.{
  Verdict, approved, rejected, Rejection, own_grant_revoked, ancestor_revoked, unfinished,
  DelegationChain, DelegationLink,
}

-- `select(DelegationGrant).where(DelegationGrant.id == i)`; `id` is the primary key.
unfoldable pub grant_by_id : List DelegationGrant → Ident → Option DelegationGrant
grant_by_id grants i = find (λ g. g.id == i) grants

-- `select(DelegationGrant).where(DelegationGrant.delegation_jti == jti)`; the column is unique.
unfoldable pub grant_by_jti : List DelegationGrant → Ident → Option DelegationGrant
grant_by_jti grants jti = find (λ g. g.delegation_jti == jti) grants

-- What one round of the `while` loop finds above `current`.
pub data Above : Type 0 where
  top : Above
  broken : Ident → Above
  parent : DelegationGrant → Above

unfoldable pub check_parent : Option DelegationGrant → Above
check_parent none = top
check_parent (some g) = if g.is_active then parent g else broken g.id

unfoldable pub look_up : List DelegationGrant → List Ident → Option Ident → Above
unfolding check_parent grant_by_id
look_up grants visited none = top
look_up grants visited (some i) =
    if contains visited i then top else check_parent (grant_by_id grants i)

-- The loop, with fuel for its rounds: `ancestors` is root first, and `visited` holds their ids.
unfoldable pub walk :
    ℕ
    → List DelegationGrant
    → DelegationGrant
    → List DelegationGrant
    → List Ident
    → Verdict (List DelegationGrant)
walk zero grants current ancestors visited = rejected unfinished
walk (suc fuel) grants current ancestors visited =
    elim (look_up grants visited current.parent_grant_id) [
      | top ↦ approved ancestors
      | broken i ↦ rejected (ancestor_revoked i)
      | parent g ↦ walk fuel grants g (g ∷ ancestors) (g.id ∷ visited)
    ]

unfoldable pub link_of : DelegationGrant → DelegationLink
link_of g = record {
  grant_id = g.id;
  delegating_agent_id = g.delegating_agent_id;
  delegatee_agent_id = g.delegatee_agent_id;
  scopes = g.scopes;
  depth = g.delegation_depth;
  expires_at = g.expires_at;
  causal_trace_id = g.causal_trace_id;
  revoked = not g.is_active;
}

unfoldable pub finish_chain :
    Ident → Verdict (List DelegationGrant) → Verdict (DelegationChain × Option Ident)
finish_chain own (approved ancestors) = approved (map link_of ancestors, some own)
finish_chain own (rejected r) = rejected r

unfoldable pub load_from :
    List DelegationGrant → Option DelegationGrant → Verdict (DelegationChain × Option Ident)
unfolding finish_chain
load_from grants none = approved ([], none)
load_from grants (some own) =
    if own.is_active
    then finish_chain own.id (walk (suc (length grants)) grants own (own ∷ []) (own.id ∷ []))
    else rejected (own_grant_revoked own.id)

unfoldable pub load_chain :
    List DelegationGrant → Option Ident → Verdict (DelegationChain × Option Ident)
unfolding load_from grant_by_jti
load_chain grants none = approved ([], none)
load_chain grants (some jti) = load_from grants (grant_by_jti grants jti)
