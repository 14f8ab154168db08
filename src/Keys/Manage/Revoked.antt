-- ===== src/Keys/Manage/Revoked.antt =====
-- What a revoked key leaves behind: no credential of it, and no token that was exchanged for it.
use ai_iam_platform.Prelude.{
  ℕ, ◌*◌, ◌/◌, ◌≤◌, ◌<◌, ◌≡◌, ◌≢◌, ◌∙◌, refl, sym, ap, subst, inl, inr, String, true, false, Option,
  some, List, ◌==◌, string_eq, In, In-update_where, update_where, Bool-cases, Option-cases, ==_refl,
}
use ai_iam_platform.Model.{Ident, ApiKey, micros}
use ai_iam_platform.Service.{World, return}
use ai_iam_platform.Revocation.Redis.{Redis, IndexKey}
use ai_iam_platform.Revocation.Index.{revoke_all_in_index, is_revoked, known}
use ai_iam_platform.Revocation.Laws.{revoke_all_in_index_reaches}
use ai_iam_platform.Agents.Lifecycle.{revoke_index}
use ai_iam_platform.Agents.Rows.{deactivate_key, update_key, inactive}
use ai_iam_platform.Keys.Secrets.{Bcrypt}
use ai_iam_platform.Keys.Verify.{KeyInfo, info_of, VerifyRequest, verify_key}
use ai_iam_platform.Keys.Verify.Sound.{IsVerified, verify_key_sound}
use ai_iam_platform.Keys.Manage.{key_of_org, RevokeKeyRequest, revoke_key}

accepted_id :
    (b : Bcrypt) (keys : List ApiKey) (v : VerifyRequest) (parts : Option String × String)
    (info : KeyInfo) (c : IsVerified b keys v parts info)
    → info.key_id ≡ c.row.key_id
unfolding info_of
accepted_id b keys v parts info c = elim c.accepted.matches [
  | inl (_, same) ↦ ap (λ i. i.key_id) same
  | inr (_, same) ↦ ap (λ i. i.key_id) same
]

-- No active row bears a key id that has been deactivated.
deactivated_lem :
    (keys : List ApiKey) (i : String) (k : ApiKey)
    → In k (update_where (λ x. x.key_id == i) inactive keys)
    → k.is_active ≡ true
    → k.key_id ≢ i
deactivated_lem keys i k place on named =
    let (x, _, same) = In-update_where (λ y. y.key_id == i) inactive keys k place in
    elim (Bool-cases (x.key_id == i)) [
      | inl e ↦
          let gone : k ≡ inactive x = same ∙ rw e refl in
          absurd (let off = ap (λ y. y.is_active) gone in cc)
      | inr e ↦
          let kept : k ≡ x = same ∙ rw e refl in
          absurd (
            let apart = subst (λ n. (n == i) ≡ false) (ap (λ y. y.key_id) (sym kept) ∙ named) e in
            let self = ==_refl i in cc)
    ]

module _ (r : Redis) where
  revoke_key-return :
      (q : RevokeKeyRequest) (w : World r.Store)
      → (revoke_key r q w).0 ≡ return true
      → ((revoke_key r q w).1.db.api_keys
          ≡ update_where (λ k. k.key_id == q.key_id) inactive w.db.api_keys)
        × ((revoke_key r q w).1.redis
            ≡ (revoke_all_in_index r (IndexKey.key_jtis q.key_id) q.now w.redis).0)
  unfolding revoke_key deactivate_key update_key revoke_index
  revoke_key-return q w h = elim (Option-cases (key_of_org w.db.api_keys q.key_id q.org_id)) [
    | inl e ↦ absurd (let bad = rw e at h in cc)
    | inr (k, e) ↦ (rw e refl, rw e refl)
  ]

  -- After a key has been revoked, no credential of any form is accepted as that key, at any time, and
  -- each token that is tracked in the index of the key and has not expired is rejected at every moment
  -- before its expiry.
  pub revoke_key_stops :
      (b : Bcrypt) (q : RevokeKeyRequest) (w : World r.Store)
      → (revoke_key r q w).0 ≡ return true
      → ((v : VerifyRequest) (plaintext : String) (info : KeyInfo)
          → (verify_key b v plaintext (revoke_key r q w).1).0 ≡ return (some info)
          → info.key_id ≢ q.key_id)
        × ((j : Ident) (e t : ℕ)
            → r.score (IndexKey.key_jtis q.key_id) j w.redis ≡ some e
            → q.now / micros ≤ e
            → t < e * micros
            → is_revoked r true j t (revoke_key r q w).1.redis ≡ known true)
  revoke_key_stops b q w h =
      let (rows, store) = revoke_key-return q w h in
      (
        λ v plaintext info accepted named.
            let c = verify_key_sound b v plaintext (revoke_key r q w).1 info accepted in
            deactivated_lem w.db.api_keys q.key_id c.row
              (subst (λ keys. In c.row keys) rows c.place) c.active
              (sym (accepted_id b _ v _ info c) ∙ named),
        λ j e t tracked live early.
            subst (λ s. is_revoked r true j t s ≡ known true) (sym store)
              (revoke_all_in_index_reaches r (IndexKey.key_jtis q.key_id) j e q.now t w.redis
                tracked live early).0,
      )
