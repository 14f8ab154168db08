-- ===== src/Delegation/Grants/Refused.antt =====
-- What a call of `delegate` that raises leaves as it was.
use ai_iam_platform.Prelude.{
  ℕ, ◌+◌, ◌≡◌, inl, inr, refl, Option, none, some, List, ℕ_eq, string_eq, Option-cases, Bool-cases,
}
use ai_iam_platform.Model.{Ident, Scope, Agent, is_active_status}
use ai_iam_platform.Service.{World, Result, return, raise, HttpError}
use ai_iam_platform.Revocation.Redis.{Redis}
use ai_iam_platform.Delegation.Validator.{
  Verdict, approved, rejected, DelegationChain, chain_depth, validate,
}
use ai_iam_platform.Delegation.Chain.{load_chain}
use ai_iam_platform.Delegation.Grants.{
  agent_by_id_and_org, DelegationToken, DelegateRequest, Fresh, issue_checked, after_validation,
  after_chain, delegate, create_delegation_token, token_scopes, held_scopes,
}

module _ (r : Redis) where
  -- A method that raises leaves the tables and the revocation index as they were.
  abbrev IsQuiet : {A : Type 0} → World r.Store → Result A × World r.Store → Type 0
  IsQuiet w (return a, w') = Unit
  IsQuiet w (raise e, w') = (w'.db ≡ w.db) × (w'.committed ≡ w.committed) × (w'.redis ≡ w.redis)

  issue_checked-IsQuiet :
      (q : DelegateRequest) (f : Fresh) (p : Option Ident) (scopes : List Scope) (depth : ℕ)
      (t : Option DelegationToken) (w : World r.Store)
      → IsQuiet w (issue_checked r q f p scopes depth t w)
  unfolding issue_checked
  issue_checked-IsQuiet q f p scopes depth none w = (refl, refl, refl)
  issue_checked-IsQuiet q f p scopes depth (some t) w = tt

  after_validation-IsQuiet :
      (q : DelegateRequest) (f : Fresh) (chain : DelegationChain) (p : Option Ident)
      (v : Verdict (List Scope)) (w : World r.Store)
      → IsQuiet w (after_validation r q f chain p v w)
  unfolding after_validation
  after_validation-IsQuiet q f chain p (rejected e) w = (refl, refl, refl)
  after_validation-IsQuiet q f chain p (approved scopes) w =
      issue_checked-IsQuiet q f p scopes (chain_depth chain + 1)
        (create_delegation_token q f (token_scopes scopes) (chain_depth chain)) w

  after_chain-IsQuiet :
      (q : DelegateRequest) (f : Fresh) (a : Agent) (v : Verdict (DelegationChain × Option Ident))
      (w : World r.Store)
      → IsQuiet w (after_chain r q f a v w)
  unfolding after_chain
  after_chain-IsQuiet q f a (rejected e) w = (refl, refl, refl)
  after_chain-IsQuiet q f a (approved (chain, p)) w =
      after_validation-IsQuiet q f chain p
        (validate chain q.delegating_agent_id q.delegatee_agent_id (held_scopes q a)
          q.requested_scopes)
        w

  delegate-IsQuiet :
      (q : DelegateRequest) (f : Fresh) (w : World r.Store) → IsQuiet w (delegate r q f w)
  unfolding delegate
  delegate-IsQuiet q f w =
      elim (Option-cases (agent_by_id_and_org w.db.agents q.delegating_agent_id q.org_id)) [
        | inl e ↦ rw (e, delegate) (refl, refl, refl)
        | inr (a, e) ↦
            elim (Option-cases (agent_by_id_and_org w.db.agents q.delegatee_agent_id q.org_id)) [
              | inl d ↦ rw (e, d, delegate) (refl, refl, refl)
              | inr (b, d) ↦ elim (Bool-cases (is_active_status b.status)) [
                | inl p ↦
                    rw (e, d, p, delegate)
                      (after_chain-IsQuiet q f a (load_chain w.db.grants q.delegating_agent_jti) w)
                | inr p ↦ rw (e, d, p, delegate) (refl, refl, refl)
              ]
            ]
      ]

  refused :
      {A : Type 0} (w : World r.Store) (x : Result A × World r.Store) (e : HttpError)
      → IsQuiet w x
      → x.0 ≡ raise e
      → (x.1.db ≡ w.db) × (x.1.committed ≡ w.committed) × (x.1.redis ≡ w.redis)
  refused w (return a, w') e quiet h = absurd (cc)
  refused w (raise d, w') e quiet h = quiet

  -- A delegation that is refused, with whatever error, writes no grant, tracks no token and commits
  -- nothing: the tables, what is committed of them and the revocation index stay as they were.
  pub delegate_refused :
      (q : DelegateRequest) (f : Fresh) (w : World r.Store) (e : HttpError)
      → (delegate r q f w).0 ≡ raise e
      → ((delegate r q f w).1.db ≡ w.db)
        × ((delegate r q f w).1.committed ≡ w.committed)
        × ((delegate r q f w).1.redis ≡ w.redis)
  delegate_refused q f w e h = refused w (delegate r q f w) e (delegate-IsQuiet q f w) h
