-- ===== src/Agents/Lifecycle/Sealed.antt =====
-- What `suspend` and `decommission` leave behind: no live token and no active key.
use ai_iam_platform.Prelude.{
  ℕ, ◌*◌, ◌/◌, ◌<◌, ◌≤◌, ◌≡◌, ◌⊎◌, ◌∙◌, refl, sym, ap, subst, inl, inr, true, false, some, List,
  ◌==◌, ◌&&◌, ℕ_eq, string_eq, not, In, select-In, update_where, In-update_where, Bool-cases,
  Option-cases, ==_refl, length,
}
use ai_iam_platform.Model.{Ident, micros, Agent, AgentStatus, ApiKey}
use ai_iam_platform.Service.{World, return}
use ai_iam_platform.Revocation.Redis.{Redis, IndexKey}
use ai_iam_platform.Revocation.Index.{revoke_all_in_index, is_revoked, known}
use ai_iam_platform.Revocation.Laws.{revoke_all_in_index_reaches}
use ai_iam_platform.Revocation.Persist.{IsBefore, revoke_all_in_index_keeps}
use ai_iam_platform.Delegation.Grants.{agent_by_id_and_org}
use ai_iam_platform.Agents.Rows.{
  same_status, update_agent, with_status, update_status, get_active_keys_for_agent, inactive,
}
use ai_iam_platform.Agents.Lifecycle.{
  AgentRequest, require_agent, revoke_index, suspend, revoke_keys, seal, revoke_credentials,
  decommission,
}
use ai_iam_platform.Agents.Lifecycle.Loop.{
  revoke_keys_returns, revoke_keys-IsBefore, revoke_keys_agent, revoke_keys_reaches,
  revoke_keys_rows,
}

-- After a change of the status of an agent, its rows have that status.
pub with_status_all :
    (i : Ident) (s : AgentStatus) (agents : List Agent) (a : Agent)
    → In a (update_where (λ v. v.id == i) (with_status s) agents)
    → a.id ≡ i
    → a.status ≡ s
with_status_all i s agents a place named =
    let (x, _, same) = In-update_where (λ v. v.id == i) (with_status s) agents a place in
    elim (Bool-cases (x.id == i)) [
      | inl e ↦ let changed : a ≡ with_status s x = same ∙ rw e refl in ap (λ v. v.status) changed
      | inr e ↦ absurd (
          let back : a ≡ x = same ∙ rw e refl in
          let kept : x.id ≡ i = ap (λ v. v.id) (sym back) ∙ named in
          let self = ==_refl i in let apart = subst (λ n. (n == i) ≡ false) kept e in cc)
    ]

-- A key that is the changed row of an active key of the agent, or no active key, is inactive.
row_is_off :
    (keys : List ApiKey) (i : Ident) (x y : ApiKey)
    → In x keys
    → (y ≡ x) ⊎ (y ≡ inactive x)
    → (In x (get_active_keys_for_agent keys i) → y.is_active ≡ false)
    → y.agent_id ≡ i
    → y.is_active ≡ false
unfolding get_active_keys_for_agent
row_is_off keys i x y place (inr s) met named = ap (λ v. v.is_active) s
row_is_off keys i x y place (inl s) met named = elim (Bool-cases x.is_active) [
  | inr off ↦ ap (λ v. v.is_active) s ∙ off
  | inl on ↦
      let owner : x.agent_id ≡ i = ap (λ v. v.agent_id) (sym s) ∙ named in
      met (
        select-In (λ k. (k.agent_id == i) && k.is_active) keys x place
          (rw (owner, on, ==_refl i) refl))
]

module _ (r : Redis) where
  open r use {Store, score}

  -- The end of `decommission` adds the index of the agent.
  seal_keeps :
      (q : AgentRequest) (n : ℕ) (a : Agent) (j : Ident) (t : ℕ) (w : World Store)
      → IsBefore r j t w.redis
      → is_revoked r true j t w.redis ≡ known true
      → is_revoked r true j t (seal r q n a w).1.redis ≡ known true
  unfolding seal revoke_index
  seal_keeps q n a j t w =
      revoke_all_in_index_keeps r (IndexKey.agent_jtis q.agent_id) j q.now t w.redis

  seal_reaches :
      (q : AgentRequest) (n : ℕ) (a : Agent) (j : Ident) (e t : ℕ) (w : World Store)
      → score (IndexKey.agent_jtis q.agent_id) j w.redis ≡ some e
      → q.now / micros ≤ e
      → IsBefore r j t w.redis
      → is_revoked r true j t (seal r q n a w).1.redis ≡ known true
  unfolding seal revoke_index
  seal_reaches q n a j e t w tracked live before =
      (revoke_all_in_index_reaches r (IndexKey.agent_jtis q.agent_id) j e q.now t w.redis tracked
        live (before (IndexKey.agent_jtis q.agent_id) e tracked)).0

  pub revoke_credentials_runs :
      (q : AgentRequest) (p : Ident) (a : Agent) (w : World Store)
      → revoke_credentials r q p a w
        ≡ seal r q
            (length (get_active_keys_for_agent w.db.api_keys q.agent_id))
            a
            (revoke_keys r q p (get_active_keys_for_agent w.db.api_keys q.agent_id) w).1
  unfolding revoke_credentials
  revoke_credentials_runs q p a w =
      rw (revoke_keys_returns r q p (get_active_keys_for_agent w.db.api_keys q.agent_id) w) refl

  -- A call that returns has found an agent that was not decommissioned, and has run to its end.
  pub decommission-return :
      (p : Ident) (q : AgentRequest) (w : World Store) (b : Agent)
      → (decommission r p q w).0 ≡ return b
      → (a : Agent) × (agent_by_id_and_org w.db.agents q.agent_id q.org_id ≡ some a)
        × (decommission r p q w
            ≡ seal r q
                (length (get_active_keys_for_agent w.db.api_keys q.agent_id))
                a
                (revoke_keys r q p (get_active_keys_for_agent w.db.api_keys q.agent_id) w).1)
  unfolding decommission require_agent
  decommission-return p q w b h =
      elim (Option-cases (agent_by_id_and_org w.db.agents q.agent_id q.org_id)) [
        | inl e ↦ absurd (let bad = rw e at h in cc)
        | inr (a, e) ↦ elim (Bool-cases (not (same_status a.status AgentStatus.decommissioned))) [
          | inl s ↦ (a, e, rw (e, s) (revoke_credentials_runs q p a w))
          | inr s ↦ absurd (let bad = rw (e, s) at h in cc)
        ]
      ]

  -- When `decommission` returns, each token that is tracked, in the index of the agent or in that of
  -- an active key of the agent, and that has not expired is rejected at every moment before its
  -- expiries.
  pub decommission_revokes :
      (p : Ident) (q : AgentRequest) (w : World Store) (b : Agent) (j : Ident) (e t : ℕ)
      → (decommission r p q w).0 ≡ return b
      → (score (IndexKey.agent_jtis q.agent_id) j w.redis ≡ some e)
        ⊎ ((k : ApiKey) × In k w.db.api_keys
            × (k.agent_id ≡ q.agent_id)
            × (k.is_active ≡ true)
            × (score (IndexKey.key_jtis k.key_id) j w.redis ≡ some e))
      → q.now / micros ≤ e
      → IsBefore r j t w.redis
      → is_revoked r true j t (decommission r p q w).1.redis ≡ known true
  unfolding get_active_keys_for_agent
  decommission_revokes p q w b j e t h tracked live before =
      let (a, _, runs) = decommission-return p q w b h in
      let keys = get_active_keys_for_agent w.db.api_keys q.agent_id in
      let later = revoke_keys-IsBefore r q p keys j t w before in
      subst (λ v. is_revoked r true j t v.1.redis ≡ known true) (sym runs)
        (elim tracked [
          | inl s ↦
              seal_reaches q (length keys) a j e t _
                (revoke_keys_agent r q p keys q.agent_id j w ∙ s) live later
          | inr (k, place, owner, on, s) ↦ seal_keeps q (length keys) a j t _ later (
              revoke_keys_reaches r q p keys k j e t w
                (select-In (λ x. (x.agent_id == q.agent_id) && x.is_active) w.db.api_keys k place
                  (rw (owner, on, ==_refl q.agent_id) refl))
                s live before)
        ])

  -- When `decommission` returns, each row of the agent is decommissioned and each API key of the
  -- agent is inactive.
  pub decommission_deactivates :
      (p : Ident) (q : AgentRequest) (w : World Store) (b : Agent)
      → (decommission r p q w).0 ≡ return b
      → ((a : Agent)
          → In a (decommission r p q w).1.db.agents
          → a.id ≡ q.agent_id
          → a.status ≡ AgentStatus.decommissioned)
        × ((k : ApiKey)
            → In k (decommission r p q w).1.db.api_keys
            → k.agent_id ≡ q.agent_id
            → k.is_active ≡ false)
  unfolding seal revoke_index update_status update_agent get_active_keys_for_agent
  decommission_deactivates p q w b h =
      let (c, _, runs) = decommission-return p q w b h in
      let keys = get_active_keys_for_agent w.db.api_keys q.agent_id in
      (
        λ a place named.
            with_status_all q.agent_id AgentStatus.decommissioned
              (revoke_keys r q p keys w).1.db.agents a (subst (λ v. In a v.1.db.agents) runs place)
              named,
        λ k place named.
            let (x, before, shape, met) =
              revoke_keys_rows r q p keys w k (subst (λ v. In k v.1.db.api_keys) runs place) in
            row_is_off w.db.api_keys q.agent_id x k before shape met named,
      )

  pub suspend-return :
      (q : AgentRequest) (w : World Store) (b : Agent)
      → (suspend r q w).0 ≡ return b
      → (a : Agent) × (agent_by_id_and_org w.db.agents q.agent_id q.org_id ≡ some a)
        × (same_status a.status AgentStatus.decommissioned ≡ false)
        × ((suspend r q w).1.redis
            ≡ (revoke_all_in_index r (IndexKey.agent_jtis q.agent_id) q.now w.redis).0)
        × ((suspend r q w).1.db ≡ update_status q.agent_id AgentStatus.suspended w.db)
  unfolding suspend require_agent revoke_index
  suspend-return q w b h =
      elim (Option-cases (agent_by_id_and_org w.db.agents q.agent_id q.org_id)) [
        | inl e ↦ absurd (let bad = rw e at h in cc)
        | inr (a, e) ↦ elim (Bool-cases (same_status a.status AgentStatus.decommissioned)) [
          | inl s ↦ absurd (let bad = rw (e, s) at h in cc)
          | inr s ↦ (a, e, s, rw (e, s) refl, rw (e, s) refl)
        ]
      ]

  -- When `suspend` returns, the rows of the agent are suspended, each token that is tracked in the
  -- index of the agent and has not expired is rejected at every moment before its expiry, and no API
  -- key has changed.
  pub suspend_revokes :
      (q : AgentRequest) (w : World Store) (b : Agent) (j : Ident) (e t : ℕ)
      → (suspend r q w).0 ≡ return b
      → score (IndexKey.agent_jtis q.agent_id) j w.redis ≡ some e
      → q.now / micros ≤ e
      → t < e * micros
      → ((a : Agent)
          → In a (suspend r q w).1.db.agents
          → a.id ≡ q.agent_id
          → a.status ≡ AgentStatus.suspended)
        × (is_revoked r true j t (suspend r q w).1.redis ≡ known true)
        × ((suspend r q w).1.db.api_keys ≡ w.db.api_keys)
  unfolding update_status update_agent
  suspend_revokes q w b j e t h tracked live before =
      let (_, _, _, store, rows) = suspend-return q w b h in
      (
        λ a place named.
            with_status_all q.agent_id AgentStatus.suspended w.db.agents a
              (subst (λ v. In a v.agents) rows place) named,
        subst (λ v. is_revoked r true j t v ≡ known true) (sym store)
            (revoke_all_in_index_reaches r (IndexKey.agent_jtis q.agent_id) j e q.now t w.redis
              tracked live before).0,
        ap (λ v. v.api_keys) rows,
      )
