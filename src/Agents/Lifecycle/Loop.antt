-- ===== src/Agents/Lifecycle/Loop.antt =====
-- The loop of `decommission` over the active keys of the agent: it reaches the tokens of each key,
-- and loses none that is still to be reached (backend/app/services/agent_service.py).
use ai_iam_platform.Prelude.{
  ℕ, ◌/◌, ◌≤◌, ◌≡◌, ◌⊎◌, ◌∙◌, refl, sym, ap, subst, inl, inr, true, false, some, List, [], ◌∷◌,
  ◌==◌, ℕ_eq, string_eq, In, In-update_where, Bool-cases, ==→≡, ==_refl, String,
}
use ai_iam_platform.Model.{Ident, micros, ApiKey}
use ai_iam_platform.Service.{World, return}
use ai_iam_platform.Revocation.Redis.{Redis, IndexKey, same_key}
use ai_iam_platform.Revocation.Index.{is_revoked, known}
use ai_iam_platform.Revocation.Laws.{revoke_all_in_index_reaches, same_key_refl}
use ai_iam_platform.Revocation.Persist.{
  IsBefore, revoke_all_in_index_score, revoke_all_in_index-IsBefore, revoke_all_in_index_keeps,
}
use ai_iam_platform.Agents.Rows.{deactivate_key, update_key, inactive}
use ai_iam_platform.Agents.Lifecycle.{AgentRequest, revoke_index, revoke_keys}

module _ (r : Redis) where
  open r use {Store, score}

  same_key_id : (a b : String) → same_key (IndexKey.key_jtis a) (IndexKey.key_jtis b) ≡ true → a ≡ b
  unfolding same_key
  same_key_id a b h = ==→≡ a b h

  pub revoke_keys_returns :
      (q : AgentRequest) (p : Ident) (keys : List ApiKey) (w : World Store)
      → (revoke_keys r q p keys w).0 ≡ return tt
  unfolding revoke_keys revoke_index
  revoke_keys_returns q p [] w = refl
  revoke_keys_returns q p (k ∷ keys) w = revoke_keys_returns q p keys _

  -- What a step of the loop keeps: tokens rejected so far, and the moments before the expiries.
  pub revoke_keys_keeps :
      (q : AgentRequest) (p : Ident) (keys : List ApiKey) (j : Ident) (t : ℕ) (w : World Store)
      → IsBefore r j t w.redis
      → is_revoked r true j t w.redis ≡ known true
      → is_revoked r true j t (revoke_keys r q p keys w).1.redis ≡ known true
  unfolding revoke_keys revoke_index
  revoke_keys_keeps q p [] j t w before h = h
  revoke_keys_keeps q p (k ∷ keys) j t w before h =
      revoke_keys_keeps q p keys j t _
        (revoke_all_in_index-IsBefore r (IndexKey.key_jtis k.key_id) j q.now t w.redis before)
        (revoke_all_in_index_keeps r (IndexKey.key_jtis k.key_id) j q.now t w.redis before h)

  pub revoke_keys-IsBefore :
      (q : AgentRequest) (p : Ident) (keys : List ApiKey) (j : Ident) (t : ℕ) (w : World Store)
      → IsBefore r j t w.redis
      → IsBefore r j t (revoke_keys r q p keys w).1.redis
  unfolding revoke_keys revoke_index
  revoke_keys-IsBefore q p [] j t w before = before
  revoke_keys-IsBefore q p (k ∷ keys) j t w before =
      revoke_keys-IsBefore q p keys j t _
        (revoke_all_in_index-IsBefore r (IndexKey.key_jtis k.key_id) j q.now t w.redis before)

  pub revoke_keys_agent :
      (q : AgentRequest) (p : Ident) (keys : List ApiKey) (i j : Ident) (w : World Store)
      → score (IndexKey.agent_jtis i) j (revoke_keys r q p keys w).1.redis
        ≡ score (IndexKey.agent_jtis i) j w.redis
  unfolding revoke_keys revoke_index same_key
  revoke_keys_agent q p [] i j w = refl
  revoke_keys_agent q p (k ∷ keys) i j w =
      revoke_keys_agent q p keys i j _
      ∙ revoke_all_in_index_score r (IndexKey.key_jtis k.key_id) (IndexKey.agent_jtis i) j q.now
          w.redis

  pub revoke_keys_reaches :
      (q : AgentRequest) (p : Ident) (keys : List ApiKey) (k : ApiKey) (j : Ident) (e t : ℕ)
      (w : World Store)
      → In k keys
      → score (IndexKey.key_jtis k.key_id) j w.redis ≡ some e
      → q.now / micros ≤ e
      → IsBefore r j t w.redis
      → is_revoked r true j t (revoke_keys r q p keys w).1.redis ≡ known true
  unfolding revoke_keys revoke_index
  revoke_keys_reaches q p [] k j e t w place tracked live before = elim place [ ]
  revoke_keys_reaches q p (x ∷ keys) k j e t w place tracked live before =
      let key = IndexKey.key_jtis x.key_id in
      let after = revoke_all_in_index-IsBefore r key j q.now t w.redis before in
      elim (Bool-cases (same_key key (IndexKey.key_jtis k.key_id))) [
        | inl same ↦
            revoke_keys_keeps q p keys j t _ after
              (revoke_all_in_index_reaches r key j e q.now t w.redis
                (ap (λ i. score (IndexKey.key_jtis i) j w.redis)
                    (same_key_id x.key_id k.key_id same)
                  ∙ tracked)
                live (before (IndexKey.key_jtis k.key_id) e tracked)).0
        | inr other ↦ elim place [
          | inl e' ↦ absurd (
              let self = same_key_refl (IndexKey.key_jtis k.key_id) in
              let apart =
                subst
                  (λ y. same_key (IndexKey.key_jtis y.key_id) (IndexKey.key_jtis k.key_id) ≡ false)
                  e' other in
              cc)
          | inr rest ↦
              revoke_keys_reaches q p keys k j e t _ rest
                (revoke_all_in_index_score r key (IndexKey.key_jtis k.key_id) j q.now w.redis
                  ∙ rw other tracked)
                live after
        ]
      ]

  pub revoke_keys_agents :
      (q : AgentRequest) (p : Ident) (keys : List ApiKey) (w : World Store)
      → (revoke_keys r q p keys w).1.db.agents ≡ w.db.agents
  unfolding revoke_keys revoke_index deactivate_key update_key
  revoke_keys_agents q p [] w = refl
  revoke_keys_agents q p (k ∷ keys) w = revoke_keys_agents q p keys _

  -- A row after the loop is a row before it, and inactive when the loop has met it.
  pub revoke_keys_rows :
      (q : AgentRequest) (p : Ident) (keys : List ApiKey) (w : World Store) (y : ApiKey)
      → In y (revoke_keys r q p keys w).1.db.api_keys
      → (x : ApiKey) × In x w.db.api_keys
        × ((y ≡ x) ⊎ (y ≡ inactive x))
        × (In x keys → y.is_active ≡ false)
  unfolding revoke_keys revoke_index deactivate_key update_key
  revoke_keys_rows q p [] w y place = (y, place, inl refl, λ h. elim h [ ])
  revoke_keys_rows q p (k ∷ keys) w y place =
      let (x, before, shape, met) = revoke_keys_rows q p keys _ y place in
      let (z, first, same) =
        In-update_where (λ x. x.key_id == k.key_id) inactive w.db.api_keys x before in
      elim (Bool-cases (z.key_id == k.key_id)) [
        | inl e ↦
            let off = same ∙ rw e refl in
            let gone : y ≡ inactive z = elim shape [
              | inl s ↦ s ∙ off
              | inr s ↦ s ∙ ap inactive off
            ] in
            (z, first, inr gone, λ h. ap (λ v. v.is_active) gone)
        | inr e ↦
            let kept = same ∙ rw e refl in
            (
              z,
              first,
              elim shape [ inl s ↦ inl (s ∙ kept) | inr s ↦ inr (s ∙ ap inactive kept) ],
              λ h. elim h [
                | inl s ↦ absurd (
                    let self = ==_refl k.key_id in
                    let apart = subst (λ v. (v.key_id == k.key_id) ≡ false) (sym s) e in cc)
                | inr rest ↦ met (subst (λ v. In v keys) (sym kept) rest)
              ],
            )
      ]
