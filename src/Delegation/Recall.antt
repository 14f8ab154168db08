-- ===== src/Delegation/Recall.antt =====
-- Delegation and the revocation index together: the index of the delegatee reaches the token that
-- `delegate` has issued (backend/app/services/delegation_service.py, backend/app/core/revocation.py).
use ai_iam_platform.Prelude.{ℕ, ◌+◌, ◌*◌, ◌/◌, ◌<◌, ◌≤◌, ◌≡◌, true, some, sym, subst, arith}
use ai_iam_platform.Model.{micros}
use ai_iam_platform.Service.{World, return}
use ai_iam_platform.Revocation.Redis.{Redis, IndexKey}
use ai_iam_platform.Revocation.Index.{is_revoked, known, revoke_all_in_index}
use ai_iam_platform.Revocation.Laws.{revoke_all_in_index_reaches, track_issued_jti_lem}
use ai_iam_platform.Delegation.Grants.{DelegateRequest, Fresh, DelegateResponse, delegate}
use ai_iam_platform.Delegation.Grants.Issued.{delegate-IsIssued}

module _ (r : Redis) where
  -- When a delegation is granted and the index of the delegatee is revoked next, within the ten
  -- minutes that the token lives, the new token is rejected at every moment before its expiry.
  pub delegate-revoke_all_in_index :
      (q : DelegateRequest) (f : Fresh) (w : World r.Store) (resp : DelegateResponse) (now t : ℕ)
      → (delegate r q f w).0 ≡ return resp
      → now / micros ≤ f.now / micros + 600
      → t < (f.now / micros + 600) * micros
      → is_revoked r true resp.jti t
          (revoke_all_in_index r
            (IndexKey.agent_jtis q.delegatee_agent_id)
            now
            (delegate r q f w).1.redis).0
        ≡ known true
  delegate-revoke_all_in_index q f w resp now t h live before =
      let issued = delegate-IsIssued r q f w resp h in
      let key = IndexKey.agent_jtis q.delegatee_agent_id in
      let tracked : r.score key resp.jti (delegate r q f w).1.redis ≡ some (f.now / micros + 600) =
        subst (λ s. r.score key resp.jti s ≡ some (f.now / micros + 600)) (sym issued.tracked)
          (track_issued_jti_lem r key resp.jti (f.now / micros + 600) f.now w.redis
            (omega arith)) in
      (revoke_all_in_index_reaches r key resp.jti (f.now / micros + 600) now t
        (delegate r q f w).1.redis tracked live before).0
