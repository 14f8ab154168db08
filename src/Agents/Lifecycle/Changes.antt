-- ===== src/Agents/Lifecycle/Changes.antt =====
-- Each operation of the life cycle leaves the table of agents alone, or makes one move of one agent
-- (backend/app/services/agent_service.py).
use ai_iam_platform.Prelude.{
  ℕ, ◌≡◌, ◌≢◌, ◌⊎◌, ◌∙◌, refl, sym, ap, subst, inl, inr, true, false, some, String, List, [], ◌∷◌,
  ◌==◌, ℕ_eq, In, In-find, ◌+◌, ◌*◌, update_where, Bool-cases, Option-cases, ==→≡, ◌&&◌,
}
use ai_iam_platform.Model.{Ident, micros, Agent, AgentStatus}
use ai_iam_platform.Service.{World}
use ai_iam_platform.Revocation.Redis.{Redis}
use ai_iam_platform.Delegation.Grants.{agent_by_id_and_org}
use ai_iam_platform.Agents.Rows.{
  same_status, get_active_keys_for_agent, update_agent, with_status, update_status, set_spiffe_id,
  set_activated_by,
}
use ai_iam_platform.Agents.Lifecycle.{
  AgentRequest, require_agent, activated, jit_activated, activate, jit_activate, suspend,
  decommission, seal,
}
use ai_iam_platform.Agents.Lifecycle.Loop.{revoke_keys_agents}
use ai_iam_platform.Agents.Lifecycle.Sealed.{revoke_credentials_runs}
use ai_iam_platform.Agents.Lifecycle.Machine.{
  Moves, activates, revives, suspends, decommissions, IsChange,
}

decommissioned_lem :
    (s : AgentStatus)
    → same_status s AgentStatus.decommissioned ≡ false
    → s ≢ AgentStatus.decommissioned
unfolding same_status
decommissioned_lem s h e = absurd (let k = rw e at h in cc)

pending_lem : (s : AgentStatus) → same_status s AgentStatus.pending ≡ true → s ≡ AgentStatus.pending
unfolding same_status
pending_lem AgentStatus.pending h = refl
pending_lem AgentStatus.active h = absurd (cc)
pending_lem AgentStatus.suspended h = absurd (cc)
pending_lem AgentStatus.decommissioned h = absurd (cc)

-- A change that keeps the tested column can be joined with the next.
update_where_join :
    (i : Ident) (f g : Agent → Agent) (agents : List Agent)
    → ((x : Agent) → (f x).id ≡ x.id)
    → update_where (λ x. x.id == i) g (update_where (λ x. x.id == i) f agents)
      ≡ update_where (λ x. x.id == i) (λ x. g (f x)) agents
unfolding update_where
update_where_join i f g [] h = refl
update_where_join i f g (x ∷ agents) h = elim (Bool-cases (x.id == i)) [
  | inl e ↦ rw (e, h x, e, update_where_join i f g agents h) refl
  | inr e ↦ rw (e, e, update_where_join i f g agents h) refl
]

pub found_agent :
    (agents : List Agent) (i org : Ident) (a : Agent)
    → agent_by_id_and_org agents i org ≡ some a
    → In a agents × (a.id ≡ i)
unfolding agent_by_id_and_org
found_agent agents i org a h =
    let (place, holds) = In-find (λ x. (x.id == i) && (x.org_id == org)) agents a h in
    (
      place,
      elim (Bool-cases (a.id == i)) [
        | inl e ↦ ==→≡ a.id i e
        | inr e ↦ absurd (let k = rw e at holds in cc)
      ],
    )

-- A call that has found its agent and changed its rows.
target-IsChange :
    (before after : List Agent) (i org : Ident) (f : Agent → Agent) (a : Agent)
    → agent_by_id_and_org before i org ≡ some a
    → ((x : Agent) → ((f x).id ≡ x.id) × ((f x).is_ephemeral ≡ x.is_ephemeral))
    → Moves a.is_ephemeral a.status (f a).status
    → after ≡ update_where (λ x. x.id == i) f before
    → IsChange before after
target-IsChange before after i org f a found keeps moves result =
    let (place, named) = found_agent before i org a found in
    record {
      target = a;
      change = f;
      place = place;
      keeps = keeps;
      moves = moves;
      result = result ∙ ap (λ n. update_where (λ x. x.id == n) f before) (sym named);
    }

module _ (r : Redis) where
  pub activate-IsChange :
      (spiffe : String) (user : Ident) (q : AgentRequest) (w : World r.Store)
      → ((activate spiffe user q w).1.db.agents ≡ w.db.agents)
        ⊎ IsChange w.db.agents (activate spiffe user q w).1.db.agents
  unfolding activate require_agent set_spiffe_id update_status set_activated_by update_agent
  activate-IsChange spiffe user q w =
      elim (Option-cases (agent_by_id_and_org w.db.agents q.agent_id q.org_id)) [
        | inl e ↦ inl (rw e refl)
        | inr (a, e) ↦ elim (Bool-cases (same_status a.status AgentStatus.pending)) [
          | inr s ↦ inl (rw (e, s) refl)
          | inl s ↦ inr (
              target-IsChange w.db.agents _ q.agent_id q.org_id (activated spiffe user) a e
                (λ x. (refl, refl))
                (subst (λ v. Moves a.is_ephemeral v AgentStatus.active)
                  (sym (pending_lem a.status s)) activates)
                (rw (e, s)
                  (ap
                      (update_where (λ x. x.id == q.agent_id)
                        (λ x. record x { activated_by_user_id = some user }))
                      (update_where_join q.agent_id (λ x. record x { spiffe_id = some spiffe })
                        (with_status AgentStatus.active) w.db.agents (λ x. refl))
                    ∙ update_where_join q.agent_id
                        (λ x. with_status AgentStatus.active (record x { spiffe_id = some spiffe }))
                        (λ x. record x { activated_by_user_id = some user }) w.db.agents
                        (λ x. refl))))
        ]
      ]

  pub jit_activate-IsChange :
      (task : Ident) (ttl : ℕ) (q : AgentRequest) (w : World r.Store)
      → ((jit_activate task ttl q w).1.db.agents ≡ w.db.agents)
        ⊎ IsChange w.db.agents (jit_activate task ttl q w).1.db.agents
  unfolding jit_activate require_agent update_agent
  jit_activate-IsChange task ttl q w =
      elim (Option-cases (agent_by_id_and_org w.db.agents q.agent_id q.org_id)) [
        | inl e ↦ inl (rw e refl)
        | inr (a, e) ↦ elim (Bool-cases a.is_ephemeral) [
          | inr s ↦ inl (rw (e, s) refl)
          | inl s ↦ inr (
              target-IsChange w.db.agents _ q.agent_id q.org_id
                (jit_activated (q.now + ttl * micros)) a e (λ x. (refl, refl))
                (subst (λ v. Moves v a.status AgentStatus.active) (sym s) revives) (rw (e, s) refl))
        ]
      ]

  pub suspend-IsChange :
      (q : AgentRequest) (w : World r.Store)
      → ((suspend r q w).1.db.agents ≡ w.db.agents)
        ⊎ IsChange w.db.agents (suspend r q w).1.db.agents
  unfolding suspend require_agent update_status update_agent
  suspend-IsChange q w = elim (Option-cases (agent_by_id_and_org w.db.agents q.agent_id q.org_id)) [
    | inl e ↦ inl (rw e refl)
    | inr (a, e) ↦ elim (Bool-cases (same_status a.status AgentStatus.decommissioned)) [
      | inl s ↦ inl (rw (e, s) refl)
      | inr s ↦ inr (
          target-IsChange w.db.agents _ q.agent_id q.org_id (with_status AgentStatus.suspended) a e
            (λ x. (refl, refl)) (suspends (decommissioned_lem a.status s)) (rw (e, s) refl))
    ]
  ]

  pub decommission-IsChange :
      (p : Ident) (q : AgentRequest) (w : World r.Store)
      → ((decommission r p q w).1.db.agents ≡ w.db.agents)
        ⊎ IsChange w.db.agents (decommission r p q w).1.db.agents
  unfolding decommission require_agent update_status update_agent seal
  decommission-IsChange p q w =
      elim (Option-cases (agent_by_id_and_org w.db.agents q.agent_id q.org_id)) [
        | inl e ↦ inl (rw e refl)
        | inr (a, e) ↦ elim (Bool-cases (same_status a.status AgentStatus.decommissioned)) [
          | inl s ↦ inl (rw (e, s) refl)
          | inr s ↦ inr (
              target-IsChange w.db.agents _ q.agent_id q.org_id
                (with_status AgentStatus.decommissioned) a e (λ x. (refl, refl))
                (decommissions (decommissioned_lem a.status s))
                (rw (e, s)
                  (ap (λ v. v.1.db.agents) (revoke_credentials_runs r q p a w)
                    ∙ ap
                        (update_where (λ x. x.id == q.agent_id)
                          (with_status AgentStatus.decommissioned))
                        (revoke_keys_agents r q p
                          (get_active_keys_for_agent w.db.api_keys q.agent_id) w))))
        ]
      ]
