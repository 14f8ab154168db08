-- ===== src/Revocation/Persist.antt =====
-- Several revocations in a row: what one has reached stays rejected, and what it has not reached is
-- still tracked for the next (backend/app/core/revocation.py).
use ai_iam_platform.Prelude.{
  ℕ, ◌*◌, ◌/◌, ◌<◌, ◌≡◌, ◌∙◌, refl, sym, ap, true, none, some, List, [], ◌∷◌, inl, inr,
  if◌then◌else◌, Bool-cases,
}
use ai_iam_platform.Model.{Ident, micros}
use ai_iam_platform.Revocation.Redis.{Redis, IndexKey, same_key}
use ai_iam_platform.Revocation.Index.{
  revoke_jti, revoke_members, revoke_all_in_index, is_revoked, known,
}
use ai_iam_platform.Revocation.Laws.{revoke_members_keeps}

module _ (r : Redis) where
  open r use {
    Store, exists, score, zrangebyscore, exists-delete, score-set_ex, score-delete,
    zrangebyscore_iff,
  }

  -- A moment before each expiry that an index records for the token.
  abbrev pub IsBefore : Ident → ℕ → Store → Type 0
  IsBefore j t s = (l : IndexKey) (d : ℕ) → score l j s ≡ some d → t < d * micros

  revoke_members_score :
      (members : List (Ident × ℕ)) (l : IndexKey) (j : Ident) (now : ℕ) (s : Store)
      → score l j (revoke_members r members now s) ≡ score l j s
  unfolding revoke_members revoke_jti
  revoke_members_score [] l j now s = refl
  revoke_members_score ((i, e) ∷ members) l j now s =
      revoke_members_score members l j now _ ∙ score-set_ex l i j _ now s

  -- After the revocation of an index, the others are as they were, and it is empty.
  pub revoke_all_in_index_score :
      (key l : IndexKey) (j : Ident) (now : ℕ) (s : Store)
      → score l j (revoke_all_in_index r key now s).0
        ≡ (if same_key key l then none else score l j s)
  unfolding revoke_all_in_index
  revoke_all_in_index_score key l j now s =
      score-delete key l j _
      ∙ ap (λ x. if same_key key l then none else x)
          (revoke_members_score (zrangebyscore key (now / micros) s) l j now s)

  pub revoke_all_in_index-IsBefore :
      (key : IndexKey) (j : Ident) (now t : ℕ) (s : Store)
      → IsBefore j t s
      → IsBefore j t (revoke_all_in_index r key now s).0
  revoke_all_in_index-IsBefore key j now t s h l d e =
      let moved = sym (revoke_all_in_index_score key l j now s) ∙ e in
      elim (Bool-cases (same_key key l)) [
        | inl p ↦ absurd (let k = rw p at moved in cc)
        | inr p ↦ h l d (rw p at moved)
      ]

  -- A token that is rejected at a moment before its expiry stays so.
  pub revoke_all_in_index_keeps :
      (key : IndexKey) (j : Ident) (now t : ℕ) (s : Store)
      → IsBefore j t s
      → is_revoked r true j t s ≡ known true
      → is_revoked r true j t (revoke_all_in_index r key now s).0 ≡ known true
  unfolding revoke_all_in_index is_revoked
  revoke_all_in_index_keeps key j now t s h k =
      let members = zrangebyscore key (now / micros) s in
      let before : exists j t s ≡ true = cc in
      ap known (
        exists-delete key j t (revoke_members r members now s)
        ∙ revoke_members_keeps r members j now t s
            (λ d place. h key d ((zrangebyscore_iff key j (now / micros) d s).0 place).0) before)
