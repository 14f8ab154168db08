-- ===== src/Delegation/Revoke/Tokens.antt =====
-- The tokens of the grants that a revocation reaches are blacklisted.
use ai_iam_platform.Prelude.{
  ℕ, ◌+◌, ◌-◌, ◌*◌, ◌/◌, ◌≤◌, ◌<◌, ◌≡◌, inl, inr, refl, sym, ap, subst, true, List, [], ◌∷◌, ◌==◌,
  ℕ_eq, if◌then◌else◌, contains, select, arith, max, ltb, Bool-cases, In, select-In,
  update_where-In, update_where, nat_eq_iff,
}
use ai_iam_platform.Model.{Ident, micros, DelegationGrant}
use ai_iam_platform.Service.{World, return}
use ai_iam_platform.Revocation.Redis.{Redis}
use ai_iam_platform.Revocation.Index.{known, is_revoked, revoke_jti}
use ai_iam_platform.Revocation.Laws.{revoke_jti_lem}
use ai_iam_platform.Delegation.Revoke.Effects.{IsReached, revoke_grant-return, contains-IsReached}
use ai_iam_platform.Delegation.Revoke.Rows.{row_expires}
use ai_iam_platform.Delegation.Revoke.{
  RevokeRequest, RevokeResponse, deactivated, blacklist, revoke_all, revoke_grant,
}

module _ (r : Redis) where
  -- A blacklisted token stays so through the loop, as no row with its jti expires earlier.
  blacklist_keeps :
      (rows : List DelegationGrant) (j : Ident) (now t : ℕ) (s : r.Store)
      → ((x : DelegationGrant)
          → In x rows
          → x.delegation_jti ≡ j
          → t < now + (x.expires_at - now) / micros * micros)
      → r.exists j t s ≡ true
      → r.exists j t (blacklist r rows now s) ≡ true
  unfolding blacklist
  blacklist_keeps [] j now t s each h = h
  blacklist_keeps (g ∷ rows) j now t s each h =
      blacklist_keeps rows j now t _ (λ x k. each x (inr k))
        (elim (Bool-cases (ltb 0 ((g.expires_at - now) / micros))) [
          | inl p ↦
              rw (p, revoke_jti_lem r g.delegation_jti j ((g.expires_at - now) / micros) now t s)
                (elim (Bool-cases (g.delegation_jti == j)) [
                  | inl e ↦
                      let bound = each g (inl refl) ((nat_eq_iff g.delegation_jti j).0 e) in
                      rw e (covers g bound)
                  | inr e ↦ rw e h
                ])
          | inr p ↦ rw p h
        ])
    where
      covers :
          (x : DelegationGrant)
          → t < now + (x.expires_at - now) / micros * micros
          → ltb t (now + max ((x.expires_at - now) / micros) 1 * micros) ≡ true
      covers x bound =
          let longer : t < now + max ((x.expires_at - now) / micros) 1 * micros = omega arith in
          ground arith

  blacklist_reaches :
      (rows : List DelegationGrant) (g : DelegationGrant) (now t : ℕ) (s : r.Store)
      → ((x : DelegationGrant)
          → In x rows
          → x.delegation_jti ≡ g.delegation_jti
          → t < now + (x.expires_at - now) / micros * micros)
      → In g rows
      → 0 < (g.expires_at - now) / micros
      → r.exists g.delegation_jti t (blacklist r rows now s) ≡ true
  unfolding blacklist
  blacklist_reaches [] g now t s each place live = elim place [ ]
  blacklist_reaches (x ∷ rows) g now t s each (inr place) live =
      blacklist_reaches rows g now t _ (λ y k. each y (inr k)) place live
  blacklist_reaches (x ∷ rows) g now t s each (inl same) live =
      blacklist_keeps rows g.delegation_jti now t _ (λ y k. each y (inr k))
        (subst
          (λ y.
            r.exists g.delegation_jti t (
              if ltb 0 ((y.expires_at - now) / micros)
              then revoke_jti r y.delegation_jti ((y.expires_at - now) / micros) now s
              else s)
            ≡ true)
          (sym same)
          (rw
            (
              lives,
              revoke_jti_lem r g.delegation_jti g.delegation_jti ((g.expires_at - now) / micros) now
                  t s,
              self,
            )
            covered))
    where
      lives : ltb 0 ((g.expires_at - now) / micros) ≡ true
      lives = ground arith

      self : (g.delegation_jti == g.delegation_jti) ≡ true
      self = (nat_eq_iff g.delegation_jti g.delegation_jti).1 refl

      bound : t < now + (g.expires_at - now) / micros * micros
      bound =
          subst (λ y. t < now + (y.expires_at - now) / micros * micros) same
            (each x (inl refl) (ap (λ y. y.delegation_jti) same))

      covered : ltb t (now + max ((g.expires_at - now) / micros) 1 * micros) ≡ true
      covered =
          let longer : t < now + max ((g.expires_at - now) / micros) 1 * micros =
            omega (arith, bound) in
          ground arith

  -- After a revocation, the token of the grant and of every grant below it is rejected, for as many
  -- whole seconds as the grant had left; the jti of a grant is taken to be unique in the table.
  pub revoke_grant_blacklists :
      (fuel : ℕ) (q : RevokeRequest) (w : World r.Store) (resp : RevokeResponse)
      (g : DelegationGrant) (t : ℕ)
      → (revoke_grant r fuel q w).0 ≡ return resp
      → In g w.db.grants
      → IsReached w.db.grants q.grant_id g.id
      → ((x : DelegationGrant) → In x w.db.grants → x.delegation_jti ≡ g.delegation_jti → x ≡ g)
      → t < q.now + (g.expires_at - q.now) / micros * micros
      → q.now ≤ t
      → is_revoked r true g.delegation_jti t (revoke_grant r fuel q w).1.redis ≡ known true
  unfolding is_revoked revoke_all
  revoke_grant_blacklists fuel q w resp g t h place reached unique early late =
      let (_, ds, _, walked, done) = revoke_grant-return r fuel q w resp h in
      let inside = (contains-IsReached r fuel w.db.grants q.grant_id ds g.id walked).1 reached in
      let rows =
        select (λ x. contains (q.grant_id ∷ ds) x.id)
          (update_where (λ x. contains (q.grant_id ∷ ds) x.id) (deactivated q) w.db.grants) in
      let kept : In (deactivated q g) rows =
        select-In (λ x. contains (q.grant_id ∷ ds) x.id) _ (deactivated q g)
          (rw inside at (
            update_where-In (λ x. contains (q.grant_id ∷ ds) x.id) (deactivated q) w.db.grants g
              place))
          (unfold deactivated in inside) in
      let each : (x : DelegationGrant)
          → In x rows
          → x.delegation_jti ≡ g.delegation_jti
          → t < q.now + (x.expires_at - q.now) / micros * micros =
        λ x k same.
          subst (λ e. t < q.now + (e - q.now) / micros * micros)
            (sym (row_expires r q w g x ds unique k same)) early in
      subst (λ v. known (r.exists g.delegation_jti t v.1.redis) ≡ known true) (sym done)
        (ap known
          (blacklist_reaches rows (deactivated q g) q.now t w.redis each kept (omega arith)))
