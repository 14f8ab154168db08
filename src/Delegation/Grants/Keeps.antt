-- ===== src/Delegation/Grants/Keeps.antt =====
-- What a granted delegation keeps: the shape of the grant table.
use ai_iam_platform.Prelude.{
  ◌+◌, ◌≡◌, ◌⊎◌, inl, inr, refl, sym, ap, subst, ◌∙◌, true, Option, none, some, List, [], ◌∷◌, ◌++◌,
  ◌==◌, ℕ_eq, string_eq, is_subset, find, arith, Option-cases, In, In-find, In-append_left,
  In-append→, find-append_some, find-append_none, nat_eq_iff, is_subset→contains,
  contains→is_subset,
}
use ai_iam_platform.Model.{Ident, DelegationGrant}
use ai_iam_platform.Service.{World, return}
use ai_iam_platform.Revocation.Redis.{Redis}
use ai_iam_platform.Delegation.Validator.{
  approved, DelegationChain, chain_depth, validate-IsAllowed,
}
use ai_iam_platform.Delegation.Chain.{grant_by_id, grant_by_jti, load_chain}
use ai_iam_platform.Delegation.Table.{IsWellFormed, IsPlaced}
use ai_iam_platform.Delegation.Table.Depth.{load_chain-depth}
use ai_iam_platform.Delegation.Grants.{
  DelegateRequest, Fresh, DelegateResponse, new_grant, issue_token, delegate, response_of,
  held_scopes,
}
use ai_iam_platform.Delegation.Grants.Checked.{Checked, delegate-Checked}
use ai_iam_platform.Delegation.Grants.Issued.{Checked-IsIssued}

-- What the verified token of a delegating agent says agrees with the grant that issued the token,
-- where there is one: the agent is the delegatee of the grant, and holds no scope beyond it.
pub record ClaimsAgree (grants : List DelegationGrant) (q : DelegateRequest) : Type 0 where
  pub agree :
      (jti : Ident) (own : DelegationGrant)
      → q.delegating_agent_jti ≡ some jti
      → grant_by_jti grants jti ≡ some own
      → (q.delegating_agent_id ≡ own.delegatee_agent_id)
        × (is_subset q.verified_scopes own.scopes ≡ true)

-- The chain and the parent that load for a request, from the grant behind its token.
LoadedFrom : List DelegationGrant → Option Ident → DelegationChain → Option Ident → Type 0
LoadedFrom grants jti chain parent_id =
    ((chain_depth chain ≡ 0) × (parent_id ≡ none))
    ⊎ ((i : Ident) × (own : DelegationGrant) × (jti ≡ some i)
        × (grant_by_jti grants i ≡ some own)
        × In own grants
        × (chain_depth chain ≡ own.delegation_depth)
        × (parent_id ≡ some own.id))

load_chain-LoadedFrom :
    (grants : List DelegationGrant) (jti : Option Ident) (chain : DelegationChain)
    (parent_id : Option Ident)
    → IsWellFormed grants
    → load_chain grants jti ≡ approved (chain, parent_id)
    → LoadedFrom grants jti chain parent_id
unfolding LoadedFrom load_chain
load_chain-LoadedFrom grants none chain p wf h = inl (ground arith, ground arith)
load_chain-LoadedFrom grants (some i) chain p wf h = elim (Option-cases (grant_by_jti grants i)) [
  | inl e ↦ inl (ground arith, ground arith)
  | inr (own, e) ↦
      let (place, _) = In-find (λ g. g.delegation_jti == i) grants own (unfold grant_by_jti in e) in
      let (depth, parent) = load_chain-depth grants i own chain p wf e h in
      inr (i, own, refl, e, place, depth, parent)
]

IsPlaced-append :
    (grants : List DelegationGrant) (n g : DelegationGrant)
    → IsPlaced grants g
    → IsPlaced (grants ++ (n ∷ [])) g
unfolding grant_by_id
IsPlaced-append grants n g placed = record {
  by_id = find-append_some (λ x. x.id == g.id) grants (n ∷ []) g placed.by_id;
  bounded = placed.bounded;
  lineage = elim placed.lineage [
    | inl root ↦ inl root
    | inr (p, c) ↦ inr (
      p,
      record {
        linked = c.linked;
        held = In-append_left p grants (n ∷ []) c.held;
        deeper = c.deeper;
        same_agent = c.same_agent;
        attenuated = c.attenuated;
      },
    )
  ];
}

by_id_new :
    (grants : List DelegationGrant) (n : DelegationGrant)
    → grant_by_id grants n.id ≡ none
    → grant_by_id (grants ++ (n ∷ [])) n.id ≡ some n
unfolding grant_by_id
by_id_new grants n fresh =
    find-append_none (λ x. x.id == n.id) grants (n ∷ []) fresh
    ∙ (unfold find in (ground (arith, nat_eq_iff n.id n.id)))

IsWellFormed-append :
    (grants : List DelegationGrant) (n : DelegationGrant)
    → IsWellFormed grants
    → IsPlaced (grants ++ (n ∷ [])) n
    → IsWellFormed (grants ++ (n ∷ []))
IsWellFormed-append grants n wf placed g place = elim (In-append→ g grants (n ∷ []) place) [
  | inl k ↦ IsPlaced-append grants n g (wf g k)
  | inr (inl same) ↦ subst (IsPlaced (grants ++ (n ∷ []))) same placed
  | inr (inr k) ↦ absurd k
]

module _ (r : Redis) where
  -- The scopes that are granted are scopes of the grant behind the token.
  attenuates :
      (q : DelegateRequest) (f : Fresh) (w : World r.Store) (c : Checked r q f w)
      (own : DelegationGrant)
      → is_subset q.verified_scopes own.scopes ≡ true
      → is_subset c.scopes own.scopes ≡ true
  unfolding response_of
  attenuates q f w c own within = contains→is_subset c.scopes own.scopes (λ s k.
      is_subset→contains q.verified_scopes own.scopes s within
        ((Checked-IsIssued r q f w c).granted s k).1)

  new_grant-IsPlaced :
      (q : DelegateRequest) (f : Fresh) (w : World r.Store) (c : Checked r q f w)
      → IsWellFormed w.db.grants
      → ClaimsAgree w.db.grants q
      → grant_by_id w.db.grants f.grant_id ≡ none
      → IsPlaced
          (w.db.grants
            ++ (new_grant q f c.token c.parent_id c.scopes (chain_depth c.chain + 1) ∷ []))
          (new_grant q f c.token c.parent_id c.scopes (chain_depth c.chain + 1))
  unfolding new_grant LoadedFrom
  new_grant-IsPlaced q f w c wf claims fresh =
      let grants = w.db.grants in
      let n = new_grant q f c.token c.parent_id c.scopes (chain_depth c.chain + 1) in
      let (allowed, _) =
        validate-IsAllowed c.chain q.delegating_agent_id q.delegatee_agent_id
          (held_scopes q c.delegating) q.requested_scopes c.scopes c.validated in
      record {
        by_id = by_id_new grants n fresh;
        bounded = allowed.within_depth;
        lineage =
            elim (load_chain-LoadedFrom grants q.delegating_agent_jti c.chain c.parent_id wf
              c.loaded) [
                | inl (empty, no_parent) ↦ inl (no_parent, omega arith)
                | inr (i, own, token, found, place, depth, parent) ↦
                    let (agent, within) = claims.agree i own token found in
                    inr (
                      own,
                      record {
                        linked = parent;
                        held = In-append_left own grants (n ∷ []) place;
                        deeper = omega arith;
                        same_agent = agent;
                        attenuated = attenuates q f w c own within;
                      },
                    )
              ];
      }

  -- A delegation that is granted keeps the table well-formed, for a new id and for claims that
  -- agree with the grant behind the token: the new row is one hop deeper than its parent, within the
  -- depth ceiling, starts at the agent that the parent empowers, and has no scope that the parent
  -- lacks. So scopes only shrink along every chain of the table.
  pub delegate-IsWellFormed :
      (q : DelegateRequest) (f : Fresh) (w : World r.Store) (resp : DelegateResponse)
      → (delegate r q f w).0 ≡ return resp
      → IsWellFormed w.db.grants
      → ClaimsAgree w.db.grants q
      → grant_by_id w.db.grants f.grant_id ≡ none
      → IsWellFormed (delegate r q f w).1.db.grants
  delegate-IsWellFormed q f w resp h wf claims fresh =
      let c = delegate-Checked r q f w resp h in
      let n = new_grant q f c.token c.parent_id c.scopes (chain_depth c.chain + 1) in
      let written : w.db.grants ++ (n ∷ [])
          ≡ (issue_token r q f c.parent_id c.scopes (chain_depth c.chain + 1) c.token
              w).1.db.grants =
        unfold issue_token in refl in
      subst IsWellFormed (written ∙ sym (ap (λ x. x.1.db.grants) c.issued))
        (IsWellFormed-append w.db.grants n wf (new_grant-IsPlaced q f w c wf claims fresh))
