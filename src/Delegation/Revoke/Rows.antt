-- ===== src/Delegation/Revoke/Rows.antt =====
-- The rows that a revocation reads back after its update.
use ai_iam_platform.Prelude.{
  ◌≡◌, refl, sym, ap, ◌∙◌, Bool, true, false, List, ◌∷◌, ℕ_eq, if◌then◌else◌, contains, select, In,
  In-select, In-update_where, update_where,
}
use ai_iam_platform.Model.{Ident, DelegationGrant}
use ai_iam_platform.Service.{World}
use ai_iam_platform.Revocation.Redis.{Redis}
use ai_iam_platform.Delegation.Revoke.{RevokeRequest, deactivated}

module _ (r : Redis) where
  deactivated_same :
      (q : RevokeRequest) (y : DelegationGrant) (b : Bool)
      → ((if b then deactivated q y else y).delegation_jti ≡ y.delegation_jti)
        × ((if b then deactivated q y else y).expires_at ≡ y.expires_at)
  unfolding deactivated
  deactivated_same q y true = (refl, refl)
  deactivated_same q y false = (refl, refl)

  -- A row that was updated expires with the row that has its jti.
  pub row_expires :
      (q : RevokeRequest) (w : World r.Store) (g : DelegationGrant) (x : DelegationGrant)
      (ds : List Ident)
      → ((y : DelegationGrant) → In y w.db.grants → y.delegation_jti ≡ g.delegation_jti → y ≡ g)
      → In x (
          select
            (λ y. contains (q.grant_id ∷ ds) y.id)
            (update_where (λ y. contains (q.grant_id ∷ ds) y.id) (deactivated q) w.db.grants))
      → x.delegation_jti ≡ g.delegation_jti
      → x.expires_at ≡ g.expires_at
  row_expires q w g x ds unique k same =
      let (moved, _) = In-select (λ y. contains (q.grant_id ∷ ds) y.id) _ x k in
      let (y, before, eq) =
        In-update_where (λ y. contains (q.grant_id ∷ ds) y.id) (deactivated q) w.db.grants x
          moved in
      let (jti, expiry) = deactivated_same q y (contains (q.grant_id ∷ ds) y.id) in
      let is_g = unique y before (sym jti ∙ sym (ap (λ v. v.delegation_jti) eq) ∙ same) in
      ap (λ v. v.expires_at) eq ∙ expiry ∙ ap (λ v. v.expires_at) is_g
