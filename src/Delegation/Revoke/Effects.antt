-- ===== src/Delegation/Revoke/Effects.antt =====
-- What a revocation does: it ends, it deactivates the grant and all below it and nothing else, and
-- it blacklists their tokens.
use ai_iam_platform.Prelude.{
  ℕ, ◌≤◌, ◌≡◌, ◌⊎◌, inl, inr, refl, sym, ap, subst, ◌∙◌, true, false, some, List, ◌∷◌, ◌==◌, ◌&&◌,
  ℕ_eq, contains, arith, Option-cases, Bool-cases, In, In-find, In-update_where, update_where,
  nat_eq_iff, length,
}
use ai_iam_platform.Model.{Ident, DelegationGrant}
use ai_iam_platform.Service.{World, return}
use ai_iam_platform.Revocation.Redis.{Redis}
use ai_iam_platform.Delegation.Validator.{max_delegation_depth, rejected, own_grant_revoked}
use ai_iam_platform.Delegation.Chain.{grant_by_jti, load_chain, load_from}
use ai_iam_platform.Delegation.Table.{IsWellFormed}
use ai_iam_platform.Delegation.Cascade.{find_descendant_ids}
use ai_iam_platform.Delegation.Cascade.Reach.{Descends, find_descendant_ids_iff}
use ai_iam_platform.Delegation.Cascade.Bounds.{find_descendant_ids_total}
use ai_iam_platform.Delegation.Revoke.{
  grant_by_id_and_org, RevokeRequest, RevokeResponse, deactivated, revoke_all, revoke_grant,
}

-- A grant is the one that is revoked, or lies below it.
abbrev pub IsReached : List DelegationGrant → Ident → Ident → Type 0
IsReached grants root i = (root ≡ i) ⊎ Descends grants root i

found_grant :
    (grants : List DelegationGrant) (i org : Ident) (g : DelegationGrant)
    → grant_by_id_and_org grants i org ≡ some g
    → In g grants × (g.id ≡ i)
unfolding grant_by_id_and_org
found_grant grants i org g h =
    let (place, holds) = In-find (λ x. (x.id == i) && (x.org_id == org)) grants g h in
    (place, ground (arith, nat_eq_iff g.id i))

depth_pos :
    (grants : List DelegationGrant) (g : DelegationGrant)
    → IsWellFormed grants
    → In g grants
    → 1 ≤ g.delegation_depth
depth_pos grants g wf place = elim (wf g place).lineage [
  | inl (_, first) ↦ omega arith
  | inr (p, c) ↦ let deeper = c.deeper in omega arith
]

module _ (r : Redis) where
  -- In a well-formed table, the revocation of a grant of the organisation ends and succeeds: the
  -- walk over its descendants needs no more rounds than the depth ceiling.
  pub revoke_grant_total :
      (q : RevokeRequest) (w : World r.Store) (g : DelegationGrant)
      → IsWellFormed w.db.grants
      → grant_by_id_and_org w.db.grants q.grant_id q.org_id ≡ some g
      → (resp : RevokeResponse) × ((revoke_grant r max_delegation_depth q w).0 ≡ return resp)
        × (resp.revoked ≡ true)
  unfolding revoke_grant
  revoke_grant_total q w g wf found =
      let (place, named) = found_grant w.db.grants q.grant_id q.org_id g found in
      let deep = depth_pos w.db.grants g wf place in
      let (ds, walked) =
        find_descendant_ids_total max_delegation_depth w.db.grants g wf place (omega arith) in
      let walked' : find_descendant_ids max_delegation_depth w.db.grants q.grant_id ≡ some ds =
        subst (λ i. find_descendant_ids max_delegation_depth w.db.grants i ≡ some ds) named
          walked in
      (
        record {
          grant_id = q.grant_id;
          revoked = true;
          descendant_grants_revoked = length ds;
          reason = q.reason;
        },
        rw (found, walked', revoke_grant) refl,
        refl,
      )

  -- A revocation that returns has run its update over the ids that the walk found.
  pub revoke_grant-return :
      (fuel : ℕ) (q : RevokeRequest) (w : World r.Store) (resp : RevokeResponse)
      → (revoke_grant r fuel q w).0 ≡ return resp
      → (g : DelegationGrant) × (ds : List Ident) × (grant_by_id_and_org w.db.grants q.grant_id
            q.org_id
          ≡ some g)
        × (find_descendant_ids fuel w.db.grants q.grant_id ≡ some ds)
        × (revoke_grant r fuel q w ≡ revoke_all r q g ds w)
  unfolding revoke_grant
  revoke_grant-return fuel q w resp h =
      elim (Option-cases (grant_by_id_and_org w.db.grants q.grant_id q.org_id)) [
        | inl e ↦ absurd (let bad = rw (e, revoke_grant) at h in cc)
        | inr (g, e) ↦ elim (Option-cases (find_descendant_ids fuel w.db.grants q.grant_id)) [
          | inl d ↦ absurd (let bad = rw (e, d, revoke_grant) at h in cc)
          | inr (ds, d) ↦ (g, ds, e, d, rw (e, d, revoke_grant) refl)
        ]
      ]

  pub contains-IsReached :
      (fuel : ℕ) (grants : List DelegationGrant) (root : Ident) (ds : List Ident) (i : Ident)
      → find_descendant_ids fuel grants root ≡ some ds
      → ((contains (root ∷ ds) i ≡ true) → IsReached grants root i)
        × (IsReached grants root i → contains (root ∷ ds) i ≡ true)
  unfolding contains
  contains-IsReached fuel grants root ds i walked =
      let e = find_descendant_ids_iff fuel grants root ds i walked in
      (
        λ h. elim (Bool-cases (root == i)) [
          | inl p ↦ inl ((nat_eq_iff root i).0 p)
          | inr p ↦ inr (e.0 (ground arith))
        ],
        λ h. elim h [
          | inl p ↦ ground (arith, nat_eq_iff root i)
          | inr d ↦ let inside = e.1 d in ground arith
        ],
      )

  revoke_grant_cascades :
      (fuel : ℕ) (q : RevokeRequest) (w : World r.Store) (resp : RevokeResponse)
      (x : DelegationGrant)
      → (revoke_grant r fuel q w).0 ≡ return resp
      → In x (revoke_grant r fuel q w).1.db.grants
      → (IsReached w.db.grants q.grant_id x.id → x.is_active ≡ false)
        × (¬ IsReached w.db.grants q.grant_id x.id → In x w.db.grants)
  unfolding revoke_all
  revoke_grant_cascades fuel q w resp x h place =
      let (g, ds, found, walked, done) = revoke_grant-return fuel q w resp h in
      let moved : In x
          (update_where (λ y. contains (q.grant_id ∷ ds) y.id) (deactivated q) w.db.grants) =
        subst (λ v. In x v.1.db.grants) done place in
      let (y, before, same) =
        In-update_where (λ y. contains (q.grant_id ∷ ds) y.id) (deactivated q) w.db.grants x
          moved in
      elim (Bool-cases (contains (q.grant_id ∷ ds) y.id)) [
        | inl p ↦
            let changed : x ≡ deactivated q y = same ∙ rw p refl in
            (
              λ _. ap (λ v. v.is_active) changed,
              λ apart. absurd (
                  apart (
                    subst (IsReached w.db.grants q.grant_id) (sym (ap (λ v. v.id) changed))
                      ((contains-IsReached fuel w.db.grants q.grant_id ds y.id walked).0 p))),
            )
        | inr p ↦
            let kept : x ≡ y = same ∙ rw p refl in
            (
              λ reached. absurd (
                  let inside =
                    (contains-IsReached fuel w.db.grants q.grant_id ds y.id walked).1
                      (subst (λ v. IsReached w.db.grants q.grant_id v.id) kept reached) in
                  cc),
              λ _. subst (λ v. In v w.db.grants) (sym kept) before,
            )
      ]

load_chain-revoked :
    (grants : List DelegationGrant) (g : DelegationGrant)
    → grant_by_jti grants g.delegation_jti ≡ some g
    → g.is_active ≡ false
    → load_chain grants (some g.delegation_jti) ≡ rejected (own_grant_revoked g.id)
unfolding load_chain
load_chain-revoked grants g found inactive = rw (found, load_from, inactive) refl

module _ (r : Redis) where
  -- After a revocation that returns, the grant and every grant below it in the table are inactive.
  pub revoke_grant_deactivates :
      (fuel : ℕ) (q : RevokeRequest) (w : World r.Store) (resp : RevokeResponse)
      (x : DelegationGrant)
      → (revoke_grant r fuel q w).0 ≡ return resp
      → In x (revoke_grant r fuel q w).1.db.grants
      → IsReached w.db.grants q.grant_id x.id
      → x.is_active ≡ false
  revoke_grant_deactivates fuel q w resp x h place =
      (revoke_grant_cascades r fuel q w resp x h place).0

  -- After a revocation that returns, a row that is neither the grant nor below it is a row that was
  -- in the table before, unchanged.
  pub revoke_grant_spares :
      (fuel : ℕ) (q : RevokeRequest) (w : World r.Store) (resp : RevokeResponse)
      (x : DelegationGrant)
      → (revoke_grant r fuel q w).0 ≡ return resp
      → In x (revoke_grant r fuel q w).1.db.grants
      → ¬ IsReached w.db.grants q.grant_id x.id
      → In x w.db.grants
  revoke_grant_spares fuel q w resp x h place = (revoke_grant_cascades r fuel q w resp x h place).1

  -- After a revocation no token of the grant or of a grant below it can start another delegation:
  -- the chain that `delegate` would load is rejected.
  pub revoke_grant_stops_delegation :
      (fuel : ℕ) (q : RevokeRequest) (w : World r.Store) (resp : RevokeResponse)
      (g : DelegationGrant)
      → (revoke_grant r fuel q w).0 ≡ return resp
      → IsReached w.db.grants q.grant_id g.id
      → grant_by_jti (revoke_grant r fuel q w).1.db.grants g.delegation_jti ≡ some g
      → load_chain (revoke_grant r fuel q w).1.db.grants (some g.delegation_jti)
        ≡ rejected (own_grant_revoked g.id)
  revoke_grant_stops_delegation fuel q w resp g h reached found =
      let after = (revoke_grant r fuel q w).1.db.grants in
      let (place, _) =
        In-find (λ x. x.delegation_jti == g.delegation_jti) after g
          (unfold grant_by_jti in found) in
      load_chain-revoked after g found ((revoke_grant_cascades r fuel q w resp g h place).0 reached)
