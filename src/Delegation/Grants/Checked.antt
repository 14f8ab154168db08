-- ===== src/Delegation/Grants/Checked.antt =====
-- The checks that a call of `delegate` that returns has passed.
use ai_iam_platform.Prelude.{
  ℕ, ◌+◌, ◌≡◌, ◌⊎◌, inl, inr, refl, sym, ap, ◌∙◌, true, Option, none, some, List, ℕ_eq, string_eq,
  arith, Option-cases, Bool-cases,
}
use ai_iam_platform.Model.{Ident, Scope, Agent, is_active_status}
use ai_iam_platform.Service.{World, return}
use ai_iam_platform.Revocation.Redis.{Redis}
use ai_iam_platform.Delegation.Validator.{
  Verdict, approved, rejected, Rejection, DelegationChain, chain_depth, validate,
}
use ai_iam_platform.Delegation.Chain.{load_chain}
use ai_iam_platform.Delegation.Grants.{
  agent_by_id_and_org, DelegationToken, DelegateRequest, Fresh, create_delegation_token,
  DelegateResponse, token_scopes, held_scopes, issue_token, issue_checked, after_validation,
  after_chain, delegate,
}

pub Verdict-cases {ℓ} :
    {A : Type ℓ} (v : Verdict A)
    → ((e : Rejection) × (v ≡ rejected e)) ⊎ ((a : A) × (v ≡ approved a))
Verdict-cases (rejected e) = inl (e, refl)
Verdict-cases (approved a) = inr (a, refl)

module _ (r : Redis) where
  -- The checks that a delegation passed, in the order of the code.
  pub record Checked (q : DelegateRequest) (f : Fresh) (w : World r.Store) : Type 0 where
    pub delegating : Agent
    pub delegatee : Agent
    pub chain : DelegationChain
    pub parent_id : Option Ident
    pub scopes : List Scope
    pub token : DelegationToken
    pub found_delegating :
        agent_by_id_and_org w.db.agents q.delegating_agent_id q.org_id ≡ some delegating
    pub found_delegatee :
        agent_by_id_and_org w.db.agents q.delegatee_agent_id q.org_id ≡ some delegatee
    pub active : is_active_status delegatee.status ≡ true
    pub loaded : load_chain w.db.grants q.delegating_agent_jti ≡ approved (chain, parent_id)
    pub validated :
        validate chain q.delegating_agent_id q.delegatee_agent_id
          (held_scopes q delegating)
          q.requested_scopes
        ≡ approved scopes
    pub created : create_delegation_token q f (token_scopes scopes) (chain_depth chain) ≡ some token
    pub issued :
        delegate r q f w ≡ issue_token r q f parent_id scopes (chain_depth chain + 1) token w

  delegate-eq-after_chain :
      (q : DelegateRequest) (f : Fresh) (w : World r.Store) (resp : DelegateResponse)
      → (delegate r q f w).0 ≡ return resp
      → (a : Agent) × (b : Agent) × (agent_by_id_and_org w.db.agents q.delegating_agent_id q.org_id
          ≡ some a)
        × (agent_by_id_and_org w.db.agents q.delegatee_agent_id q.org_id ≡ some b)
        × (is_active_status b.status ≡ true)
        × (delegate r q f w ≡ after_chain r q f a (load_chain w.db.grants q.delegating_agent_jti) w)
  unfolding delegate
  delegate-eq-after_chain q f w resp h =
      elim (Option-cases (agent_by_id_and_org w.db.agents q.delegating_agent_id q.org_id)) [
        | inl e ↦ absurd (ground arith)
        | inr (a, e) ↦
            elim (Option-cases (agent_by_id_and_org w.db.agents q.delegatee_agent_id q.org_id)) [
              | inl d ↦ absurd (ground arith)
              | inr (b, d) ↦ elim (Bool-cases (is_active_status b.status)) [
                | inl p ↦ (a, b, e, d, p, rw (e, d, p) refl)
                | inr p ↦ absurd (ground arith)
              ]
            ]
      ]

  issue_checked-return :
      (q : DelegateRequest) (f : Fresh) (p : Option Ident) (scopes : List Scope) (depth : ℕ)
      (t : Option DelegationToken) (w : World r.Store) (resp : DelegateResponse)
      → (issue_checked r q f p scopes depth t w).0 ≡ return resp
      → (token : DelegationToken) × (t ≡ some token)
        × (issue_checked r q f p scopes depth t w ≡ issue_token r q f p scopes depth token w)
  unfolding issue_checked
  issue_checked-return q f p scopes depth none w resp h = absurd (cc)
  issue_checked-return q f p scopes depth (some token) w resp h = (token, refl, refl)

  -- A call of `delegate` that returns has passed every check.
  pub delegate-Checked :
      (q : DelegateRequest) (f : Fresh) (w : World r.Store) (resp : DelegateResponse)
      → (delegate r q f w).0 ≡ return resp
      → Checked q f w
  unfolding after_chain after_validation
  delegate-Checked q f w resp h =
      let (a, b, found_a, found_b, active, same) = delegate-eq-after_chain q f w resp h in
      let k : (after_chain r q f a (load_chain w.db.grants q.delegating_agent_jti) w).0
          ≡ return resp =
        sym (ap (λ x. x.0) same) ∙ h in
      elim (Verdict-cases (load_chain w.db.grants q.delegating_agent_jti)) [
        | inl (e, v) ↦ absurd (let bad = rw (v, after_chain) at k in cc)
        | inr ((chain, parent_id), v) ↦
            let verdict =
              validate chain q.delegating_agent_id q.delegatee_agent_id (held_scopes q a)
                q.requested_scopes in
            let k' : (after_validation r q f chain parent_id verdict w).0 ≡ return resp =
              rw (v, after_chain) at k in
            elim (Verdict-cases verdict) [
              | inl (e, u) ↦ absurd (let bad = rw (u, after_validation) at k' in cc)
              | inr (scopes, u) ↦
                  let minted =
                    create_delegation_token q f (token_scopes scopes) (chain_depth chain) in
                  let (token, created, done) =
                    issue_checked-return q f parent_id scopes (chain_depth chain + 1) minted w resp
                      (rw (u, after_validation) at k') in
                  record {
                    delegating = a;
                    delegatee = b;
                    chain = chain;
                    parent_id = parent_id;
                    scopes = scopes;
                    token = token;
                    found_delegating = found_a;
                    found_delegatee = found_b;
                    active = active;
                    loaded = v;
                    validated = u;
                    created = created;
                    issued =
                        same
                        ∙ ap (λ x. after_chain r q f a x w) v
                        ∙ ap (λ x. after_validation r q f chain parent_id x w) u
                        ∙ done;
                  }
            ]
      ]
