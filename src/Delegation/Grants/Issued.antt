-- ===== src/Delegation/Grants/Issued.antt =====
-- What a call of `delegate` that returns has issued.
use ai_iam_platform.Prelude.{
  ℕ, ◌+◌, ◌*◌, ◌/◌, ◌≤◌, ◌≡◌, refl, sym, ap, subst, ◌∙◌, true, some, List, ◌&&◌, ℕ_eq, string_eq,
  contains, arith, contains-select, contains-intersect, intersect,
}
use ai_iam_platform.Model.{Scope, micros, Agent, is_active_status, permission_scopes}
use ai_iam_platform.Service.{World, Result, return}
use ai_iam_platform.Revocation.Redis.{Redis, IndexKey}
use ai_iam_platform.Revocation.Index.{track_issued_jti}
use ai_iam_platform.Delegation.Validator.{chain_depth, max_delegation_depth, validate-IsAllowed}
use ai_iam_platform.Delegation.Grants.{
  agent_by_id_and_org, DelegationToken, DelegateRequest, Fresh, create_delegation_token,
  DelegateResponse, response_of, token_scopes, new_grant, held_scopes, issue_token, delegate,
  insert_grant,
}
use ai_iam_platform.Delegation.Grants.Checked.{Checked, delegate-Checked}

module _ (r : Redis) where
  -- What a delegation has issued, with the request that it answers.
  pub record IsIssued (q : DelegateRequest) (f : Fresh) (w w' : World r.Store)
      (resp : DelegateResponse) : Type 0 where
    pub delegating : Agent
    pub delegatee : Agent
    pub found_delegating :
        agent_by_id_and_org w.db.agents q.delegating_agent_id q.org_id ≡ some delegating
    pub found_delegatee :
        agent_by_id_and_org w.db.agents q.delegatee_agent_id q.org_id ≡ some delegatee
    pub active : is_active_status delegatee.status ≡ true
    pub appended : w'.db ≡ insert_grant resp.grant w.db
    pub tracked :
        w'.redis
        ≡ track_issued_jti r
            (IndexKey.agent_jtis q.delegatee_agent_id)
            resp.jti
            (f.now / micros + 600)
            f.now
            w.redis
    pub within_depth : resp.delegation_depth ≤ max_delegation_depth
    pub same_depth :
        (resp.grant.delegation_depth ≡ resp.delegation_depth)
        × (resp.delegation_token.delegation_depth ≡ resp.delegation_depth)
    pub same_jti : (resp.grant.delegation_jti ≡ f.jti) × (resp.delegation_token.jti ≡ f.jti)
    pub human : resp.delegation_token.on_behalf_of ≡ q.on_behalf_of
    pub granted :
        (s : Scope)
        → contains resp.scopes s ≡ true
        → (contains q.requested_scopes s ≡ true)
          × (contains q.verified_scopes s ≡ true)
          × (contains delegating.allowed_scopes s ≡ true)
    pub carried :
        (s : Scope)
        → contains resp.delegation_token.scopes s
          ≡ (contains resp.scopes s && contains permission_scopes s)
    pub expires : resp.grant.expires_at ≡ (f.now / micros + 600) * micros

  created-token :
      (q : DelegateRequest) (f : Fresh) (scopes : List Scope) (depth : ℕ) (t : DelegationToken)
      → create_delegation_token q f scopes depth ≡ some t
      → (t.jti ≡ f.jti)
        × (t.exp ≡ f.now / micros + 600)
        × (t.delegation_depth ≡ depth + 1)
        × (t.scopes ≡ scopes)
        × (t.on_behalf_of ≡ q.on_behalf_of)
  unfolding create_delegation_token
  created-token q f scopes depth t h = ground arith

  granted_scopes :
      (q : DelegateRequest) (agent : Agent) (scopes : List Scope) (s : Scope)
      → scopes ≡ intersect q.requested_scopes (held_scopes q agent)
      → contains scopes s ≡ true
      → (contains q.requested_scopes s ≡ true)
        × (contains q.verified_scopes s ≡ true)
        × (contains agent.allowed_scopes s ≡ true)
  unfolding held_scopes
  granted_scopes q agent scopes s same h =
      let k = rw same at h in
      ground (
        arith,
        contains-intersect q.requested_scopes (intersect q.verified_scopes agent.allowed_scopes) s,
        contains-intersect q.verified_scopes agent.allowed_scopes s,
      )

  pub Checked-IsIssued :
      (q : DelegateRequest) (f : Fresh) (w : World r.Store) (c : Checked r q f w)
      → IsIssued q f w
          (issue_token r q f c.parent_id c.scopes (chain_depth c.chain + 1) c.token w).1
          (response_of q
            (new_grant q f c.token c.parent_id c.scopes (chain_depth c.chain + 1))
            c.token
            c.scopes
            (chain_depth c.chain + 1))
  unfolding issue_token token_scopes
  Checked-IsIssued q f w c =
      let (jti, exp, depth, scopes, human) =
        created-token q f (token_scopes c.scopes) (chain_depth c.chain) c.token c.created in
      let (allowed, same) =
        validate-IsAllowed c.chain q.delegating_agent_id q.delegatee_agent_id
          (held_scopes q c.delegating) q.requested_scopes c.scopes c.validated in
      record {
        delegating = c.delegating;
        delegatee = c.delegatee;
        found_delegating = c.found_delegating;
        found_delegatee = c.found_delegatee;
        active = c.active;
        appended = refl;
        tracked =
            ap
              (λ e.
                track_issued_jti r (IndexKey.agent_jtis q.delegatee_agent_id) c.token.jti e f.now
                  w.redis)
              exp;
        within_depth = allowed.within_depth;
        same_depth = (refl, depth);
        same_jti = (jti, jti);
        human = human;
        granted = λ s. granted_scopes q c.delegating c.scopes s same;
        carried = λ s. rw scopes (contains-select (contains permission_scopes) c.scopes s);
        expires = ap (λ e. e * micros) exp;
      }

  -- A delegation that is granted finds both agents in the organisation and the delegatee active. It
  -- adds exactly the new grant to the table and its token to the index of the delegatee. Its depth
  -- is within the maximum; each scope that it grants was requested, was verified, and is allowed to
  -- the delegating agent; its token carries those of them that are permission scopes, the same jti
  -- and depth as the grant, and the human of the request; and it expires after ten minutes.
  pub delegate-IsIssued :
      (q : DelegateRequest) (f : Fresh) (w : World r.Store) (resp : DelegateResponse)
      → (delegate r q f w).0 ≡ return resp
      → IsIssued q f w (delegate r q f w).1 resp
  delegate-IsIssued q f w resp h =
      let c = delegate-Checked r q f w resp h in
      let built =
        response_of q (new_grant q f c.token c.parent_id c.scopes (chain_depth c.chain + 1)) c.token
          c.scopes (chain_depth c.chain + 1) in
      let outcome : (issue_token r q f c.parent_id c.scopes (chain_depth c.chain + 1) c.token w).0
          ≡ return built =
        unfold issue_token in refl in
      let same : built ≡ resp = return-injective (sym outcome ∙ sym (ap (λ x. x.0) c.issued) ∙ h) in
      let ended = ap (λ x. x.1) c.issued in
      subst (IsIssued q f w (delegate r q f w).1) same
        (subst (λ v. IsIssued q f w v built) (sym ended) (Checked-IsIssued q f w c))
    where
      return-injective : {a b : DelegateResponse} → ◌≡◌ {A = Result _} (return a) (return b) → a ≡ b
      return-injective e = cc
