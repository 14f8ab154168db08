-- ===== src/Delegation/Revoke/Lapse.antt =====
-- A blacklist entry lasts for whole seconds, rounded down.
use ai_iam_platform.Prelude.{
  ℕ, ◌+◌, ◌-◌, ◌*◌, ◌/◌, ◌≤◌, ◌<◌, ◌≡◌, inl, inr, refl, sym, ap, subst, true, false, List, [], ◌∷◌,
  ◌==◌, ℕ_eq, contains, select, arith, max, ltb, Bool-cases, In, update_where, nat_eq_iff,
}
use ai_iam_platform.Model.{Ident, micros, DelegationGrant}
use ai_iam_platform.Service.{World, return}
use ai_iam_platform.Revocation.Redis.{Redis}
use ai_iam_platform.Revocation.Index.{known, is_revoked}
use ai_iam_platform.Revocation.Laws.{revoke_jti_lem}
use ai_iam_platform.Delegation.Revoke.Effects.{revoke_grant-return}
use ai_iam_platform.Delegation.Revoke.Rows.{row_expires}
use ai_iam_platform.Delegation.Revoke.{
  RevokeRequest, RevokeResponse, deactivated, blacklist, revoke_all, revoke_grant,
}

module _ (r : Redis) where
  -- The entries of the loop have lapsed at a moment that no row with the jti reaches in whole
  -- seconds.
  blacklist_lapses :
      (rows : List DelegationGrant) (j : Ident) (now t : ℕ) (s : r.Store)
      → ((x : DelegationGrant)
          → In x rows
          → x.delegation_jti ≡ j
          → now + (x.expires_at - now) / micros * micros ≤ t)
      → r.exists j t s ≡ false
      → r.exists j t (blacklist r rows now s) ≡ false
  unfolding blacklist
  blacklist_lapses [] j now t s each h = h
  blacklist_lapses (g ∷ rows) j now t s each h =
      blacklist_lapses rows j now t _ (λ x k. each x (inr k))
        (elim (Bool-cases (ltb 0 ((g.expires_at - now) / micros))) [
          | inl p ↦
              rw (p, revoke_jti_lem r g.delegation_jti j ((g.expires_at - now) / micros) now t s)
                (elim (Bool-cases (g.delegation_jti == j)) [
                  | inl e ↦
                      let bound = each g (inl refl) ((nat_eq_iff g.delegation_jti j).0 e) in
                      let pos : 0 < (g.expires_at - now) / micros = ground arith in
                      let late : now + max ((g.expires_at - now) / micros) 1 * micros ≤ t =
                        omega arith in
                      rw e (ground arith)
                  | inr e ↦ rw e h
                ])
          | inr p ↦ rw p h
        ])

  -- A revoked token is accepted again before its grant expires, if the revocation did not fall on a
  -- whole second before the expiry: its entry lapses after the whole seconds that were left. This is
  -- stated for a token that is not on the blacklist already, and a jti that is unique in the table.
  pub revoke_grant_lapses :
      (fuel : ℕ) (q : RevokeRequest) (w : World r.Store) (resp : RevokeResponse)
      (g : DelegationGrant) (t : ℕ)
      → (revoke_grant r fuel q w).0 ≡ return resp
      → ((x : DelegationGrant) → In x w.db.grants → x.delegation_jti ≡ g.delegation_jti → x ≡ g)
      → q.now + (g.expires_at - q.now) / micros * micros ≤ t
      → is_revoked r true g.delegation_jti t w.redis ≡ known false
      → is_revoked r true g.delegation_jti t (revoke_grant r fuel q w).1.redis ≡ known false
  unfolding is_revoked revoke_all
  revoke_grant_lapses fuel q w resp g t h unique late free =
      let (_, ds, _, walked, done) = revoke_grant-return r fuel q w resp h in
      let rows =
        select (λ x. contains (q.grant_id ∷ ds) x.id)
          (update_where (λ x. contains (q.grant_id ∷ ds) x.id) (deactivated q) w.db.grants) in
      let each : (x : DelegationGrant)
          → In x rows
          → x.delegation_jti ≡ g.delegation_jti
          → q.now + (x.expires_at - q.now) / micros * micros ≤ t =
        λ x k same.
          subst (λ e. q.now + (e - q.now) / micros * micros ≤ t)
            (sym (row_expires r q w g x ds unique k same)) late in
      subst (λ v. known (r.exists g.delegation_jti t v.1.redis) ≡ known false) (sym done)
        (ap known (blacklist_lapses rows g.delegation_jti q.now t w.redis each (cc)))
