-- ===== src/Workers/Rotator/Reaped.antt =====
-- What one turn of `decommission_expired_ephemeral_agents` (backend/app/worker/credential_rotator.py)
-- does with the agents whose time is over.
use ai_iam_platform.Prelude.{
  ℕ, zero, suc, ◌≡◌, ◌⊎◌, string_eq, if◌then◌else◌, ◌∙◌, refl, sym, ap, subst, inl, inr, true,
  false, Option, none, some, List, [], ◌∷◌, ◌==◌, ◌&&◌, ℕ_eq, In, find-In, select-In,
  In-update_where, update_where-In, update_where, Bool-cases, Option-cases, ==_refl,
}
use ai_iam_platform.Model.{Ident, Agent, AgentStatus, ApiKey, is_active_status}
use ai_iam_platform.Service.{World, return}
use ai_iam_platform.Revocation.Redis.{Redis}
use ai_iam_platform.Delegation.Grants.{agent_by_id_and_org}
use ai_iam_platform.Agents.Rows.{
  same_status, get_active_keys_for_agent, get_expiring_ephemeral, is_due, update_agent, update_key,
  deactivate_key, with_status, update_status,
}
use ai_iam_platform.Agents.Lifecycle.{AgentRequest, require_agent, revoke_index, decommission, seal}
use ai_iam_platform.Agents.Lifecycle.Loop.{revoke_keys_agents}
use ai_iam_platform.Agents.Lifecycle.Sealed.{revoke_credentials_runs, with_status_all}
use ai_iam_platform.Agents.Lifecycle.Machine.{IsKeyed}
use ai_iam_platform.Agents.Lifecycle.Changes.{found_agent}
use ai_iam_platform.Workers.Rotator.{
  ReapSummary, Cut, ReaperFresh, redis_fails, revoke_until, decommission_until, decommission_with,
  reap_agent, attempt, reaper_request, reap_agents, note_reaped, nothing_reaped,
  decommission_expired_ephemeral_agents,
}

-- The rows with an identifier are decommissioned.
abbrev IsDead : Ident → List Agent → Type 0
IsDead i agents = (y : Agent) → In y agents → y.id ≡ i → y.status ≡ AgentStatus.decommissioned

-- There is a row with the identifiers of an agent.
abbrev IsPresent : Agent → List Agent → Type 0
IsPresent a agents = (y : Agent) × In y agents × (y.id ≡ a.id) × (y.org_id ≡ a.org_id)

abbrev retire : Ident → List Agent → List Agent
retire i agents = update_where (λ x. x.id == i) (with_status AgentStatus.decommissioned) agents

retire-IsDead : (i j : Ident) (agents : List Agent) → IsDead i agents → IsDead i (retire j agents)
retire-IsDead i j agents dead y place named =
    let (x, first, same) =
      In-update_where (λ v. v.id == j) (with_status AgentStatus.decommissioned) agents y place in
    elim (Bool-cases (x.id == j)) [
      | inl e ↦
          let changed : y ≡ with_status AgentStatus.decommissioned x = same ∙ rw e refl in
          ap (λ v. v.status) changed
      | inr e ↦
          let kept : y ≡ x = same ∙ rw e refl in
          ap (λ v. v.status) kept ∙ dead x first (ap (λ v. v.id) (sym kept) ∙ named)
    ]

retire-IsPresent :
    (a : Agent) (j : Ident) (agents : List Agent)
    → IsPresent a agents
    → IsPresent a (retire j agents)
retire-IsPresent a j agents (y, place, named, owned) = (
  _,
  update_where-In (λ v. v.id == j) (with_status AgentStatus.decommissioned) agents y place,
  elim (Bool-cases (y.id == j)) [ inl e ↦ rw e named | inr e ↦ rw e named ],
  elim (Bool-cases (y.id == j)) [ inl e ↦ rw e owned | inr e ↦ rw e owned ],
)

retire-IsKeyed : (j : Ident) (agents : List Agent) → IsKeyed agents → IsKeyed (retire j agents)
retire-IsKeyed j agents keyed x y px py same =
    let (u, pu, su) =
      In-update_where (λ v. v.id == j) (with_status AgentStatus.decommissioned) agents x px in
    let (v, pv, sv) =
      In-update_where (λ v. v.id == j) (with_status AgentStatus.decommissioned) agents y py in
    let iu : x.id ≡ u.id = ap (λ a. a.id) su ∙ kept u in
    let iv : y.id ≡ v.id = ap (λ a. a.id) sv ∙ kept v in
    su
    ∙ ap (λ a. if a.id == j then with_status AgentStatus.decommissioned a else a)
        (keyed u v pu pv (sym iu ∙ same ∙ iv))
    ∙ sym sv
  where
    kept :
        (a : Agent) → (if a.id == j then with_status AgentStatus.decommissioned a else a).id ≡ a.id
    kept a = elim (Bool-cases (a.id == j)) [ inl e ↦ rw e refl | inr e ↦ rw e refl ]

dead_status :
    (s : AgentStatus)
    → same_status s AgentStatus.decommissioned ≡ true
    → s ≡ AgentStatus.decommissioned
unfolding same_status
dead_status AgentStatus.pending h = absurd (cc)
dead_status AgentStatus.active h = absurd (cc)
dead_status AgentStatus.suspended h = absurd (cc)
dead_status AgentStatus.decommissioned h = refl

module _ (r : Redis) where
  -- The table after a call that has found its agent or not.
  decommission_agents :
      (p : Ident) (q : AgentRequest) (w : World r.Store)
      → (((decommission r p q w).1.db.agents ≡ w.db.agents)
          × ((agent_by_id_and_org w.db.agents q.agent_id q.org_id ≡ none)
              ⊎ ((c : Agent) × In c w.db.agents
                  × (c.id ≡ q.agent_id)
                  × (c.status ≡ AgentStatus.decommissioned))))
        ⊎ ((decommission r p q w).1.db.agents ≡ retire q.agent_id w.db.agents)
  unfolding decommission require_agent update_status update_agent seal
  decommission_agents p q w =
      elim (Option-cases (agent_by_id_and_org w.db.agents q.agent_id q.org_id)) [
        | inl e ↦ inl (rw e refl, inl e)
        | inr (a, e) ↦ elim (Bool-cases (same_status a.status AgentStatus.decommissioned)) [
          | inl s ↦
              let (place, named) = found_agent w.db.agents q.agent_id q.org_id a e in
              inl (rw (e, s) refl, inr (a, place, named, dead_status a.status s))
          | inr s ↦ inr (
              rw (e, s)
                (ap (λ v. v.1.db.agents) (revoke_credentials_runs r q p a w)
                  ∙ ap (retire q.agent_id) (
                      revoke_keys_agents r q p (get_active_keys_for_agent w.db.api_keys q.agent_id)
                        w)))
        ]
      ]

  revoke_until_agents :
      (q : AgentRequest) (p : Ident) (left_by : r.Store → r.Store) (n : ℕ) (keys : List ApiKey)
      (w : World r.Store)
      → ((revoke_until r q p left_by n keys w).1.db.agents ≡ w.db.agents)
        ⊎ ((revoke_until r q p left_by n keys w).1.db.agents ≡ retire q.agent_id w.db.agents)
  unfolding revoke_until redis_fails revoke_index deactivate_key update_key update_status
      update_agent
  revoke_until_agents q p left_by n [] w = inr refl
  revoke_until_agents q p left_by zero (k ∷ keys) w = inl refl
  revoke_until_agents q p left_by (suc n) (k ∷ keys) w = revoke_until_agents q p left_by n keys _

  decommission_until_agents :
      (cut : Cut r.Store) (p : Ident) (q : AgentRequest) (w : World r.Store)
      → ((decommission_until r cut p q w).1.db.agents ≡ w.db.agents)
        ⊎ ((decommission_until r cut p q w).1.db.agents ≡ retire q.agent_id w.db.agents)
  unfolding decommission_until require_agent
  decommission_until_agents cut p q w =
      elim (Option-cases (agent_by_id_and_org w.db.agents q.agent_id q.org_id)) [
        | inl e ↦ inl (rw e refl)
        | inr (a, e) ↦ elim (Bool-cases (same_status a.status AgentStatus.decommissioned)) [
          | inl s ↦ inl (rw (e, s) refl)
          | inr s ↦
              rw (e, s)
                (revoke_until_agents q p cut.left_by cut.revocations
                  (get_active_keys_for_agent w.db.api_keys q.agent_id) w)
        ]
      ]

  decommission_with_agents :
      (o : Option (Cut r.Store)) (p : Ident) (q : AgentRequest) (w : World r.Store)
      → ((decommission_with r o p q w).1.db.agents ≡ w.db.agents)
        ⊎ ((decommission_with r o p q w).1.db.agents ≡ retire q.agent_id w.db.agents)
  unfolding decommission_with
  decommission_with_agents none p q w = elim (decommission_agents p q w) [
    | inl (same, _) ↦ inl same
    | inr same ↦ inr same
  ]
  decommission_with_agents (some cut) p q w = decommission_until_agents cut p q w

  -- Whatever becomes of the call on one agent, the agents stay as they were or it is decommissioned.
  reap_agent_agents :
      (f : ReaperFresh r.Store) (a : Agent) (w : World r.Store)
      → ((reap_agent r f a w).1.db.agents ≡ w.db.agents)
        ⊎ ((reap_agent r f a w).1.db.agents ≡ retire a.id w.db.agents)
  unfolding reap_agent reaper_request
  reap_agent_agents f a w =
      decommission_with_agents (f.cut_of a.id) f.process (reaper_request f a) w

  reap_agent-IsDead :
      (f : ReaperFresh r.Store) (a : Agent) (w : World r.Store) (i : Ident)
      → IsDead i w.db.agents
      → IsDead i (reap_agent r f a w).1.db.agents
  reap_agent-IsDead f a w i dead = elim (reap_agent_agents f a w) [
    | inl same ↦ subst (IsDead i) (sym same) dead
    | inr same ↦ subst (IsDead i) (sym same) (retire-IsDead i a.id w.db.agents dead)
  ]

  reap_agent-IsPresent :
      (f : ReaperFresh r.Store) (b : Agent) (w : World r.Store) (a : Agent)
      → IsPresent a w.db.agents
      → IsPresent a (reap_agent r f b w).1.db.agents
  reap_agent-IsPresent f b w a here = elim (reap_agent_agents f b w) [
    | inl same ↦ subst (IsPresent a) (sym same) here
    | inr same ↦ subst (IsPresent a) (sym same) (retire-IsPresent a b.id w.db.agents here)
  ]

  reap_agent-IsKeyed :
      (f : ReaperFresh r.Store) (a : Agent) (w : World r.Store)
      → IsKeyed w.db.agents
      → IsKeyed (reap_agent r f a w).1.db.agents
  reap_agent-IsKeyed f a w keyed = elim (reap_agent_agents f a w) [
    | inl same ↦ subst IsKeyed (sym same) keyed
    | inr same ↦ subst IsKeyed (sym same) (retire-IsKeyed a.id w.db.agents keyed)
  ]

  -- The call on an agent that has a row, whether it returns or raises.
  decommission_retires :
      (f : ReaperFresh r.Store) (a : Agent) (w : World r.Store)
      → IsKeyed w.db.agents
      → IsPresent a w.db.agents
      → IsDead a.id (decommission r f.process (reaper_request f a) w).1.db.agents
  unfolding reaper_request agent_by_id_and_org
  decommission_retires f a w keyed (x, place, named, owned) =
      elim (decommission_agents f.process (reaper_request f a) w) [
        | inl (same, inl missing) ↦ absurd (
            find-In (λ v. (v.id == a.id) && (v.org_id == a.org_id)) w.db.agents x place
              (rw (named, owned, ==_refl a.id) (==_refl a.org_id)) missing)
        | inl (same, inr (c, there, called, dead)) ↦
            subst (IsDead a.id) (sym same)
              (λ y row name. ap (λ v. v.status) (keyed y c row there (name ∙ sym called)) ∙ dead)
        | inr same ↦
            subst (IsDead a.id) (sym same)
              (with_status_all a.id AgentStatus.decommissioned w.db.agents)
      ]

  reap_agent_retires :
      (f : ReaperFresh r.Store) (a : Agent) (w : World r.Store)
      → f.cut_of a.id ≡ none
      → IsKeyed w.db.agents
      → IsPresent a w.db.agents
      → IsDead a.id (reap_agent r f a w).1.db.agents
  unfolding reap_agent decommission_with
  reap_agent_retires f a w uncut keyed here =
      subst (λ o. IsDead a.id (decommission_with r o f.process (reaper_request f a) w).1.db.agents)
        (sym uncut) (decommission_retires f a w keyed here)

  reap_agents_returns :
      (f : ReaperFresh r.Store) (agents : List Agent) (w : World r.Store)
      → (s : ReapSummary) × (reap_agents r f agents w ≡ (return s, (reap_agents r f agents w).1))
  unfolding reap_agents attempt
  reap_agents_returns f [] w = (nothing_reaped false, refl)
  reap_agents_returns f (a ∷ agents) w =
      let result = reap_agent r f a w in
      let (s, runs) = reap_agents_returns f agents result.1 in
      (note_reaped a.id result.0 s, rw runs refl)

  reap_agents_step :
      (f : ReaperFresh r.Store) (a : Agent) (agents : List Agent) (w : World r.Store)
      → (reap_agents r f agents (reap_agent r f a w).1).1 ≡ (reap_agents r f (a ∷ agents) w).1
  unfolding reap_agents attempt
  reap_agents_step f a agents w =
      let (s, runs) = reap_agents_returns f agents (reap_agent r f a w).1 in rw runs refl

  reap_agents-IsDead :
      (f : ReaperFresh r.Store) (agents : List Agent) (w : World r.Store) (i : Ident)
      → IsDead i w.db.agents
      → IsDead i (reap_agents r f agents w).1.db.agents
  unfolding reap_agents attempt
  reap_agents-IsDead f [] w i dead = dead
  reap_agents-IsDead f (a ∷ agents) w i dead =
      subst (λ v. IsDead i v.db.agents) (reap_agents_step f a agents w)
        (reap_agents-IsDead f agents (reap_agent r f a w).1 i (reap_agent-IsDead f a w i dead))

  reap_agents-IsPresent :
      (f : ReaperFresh r.Store) (agents : List Agent) (w : World r.Store) (a : Agent)
      → IsPresent a w.db.agents
      → IsPresent a (reap_agents r f agents w).1.db.agents
  unfolding reap_agents attempt
  reap_agents-IsPresent f [] w a here = here
  reap_agents-IsPresent f (b ∷ agents) w a here =
      subst (λ v. IsPresent a v.db.agents) (reap_agents_step f b agents w)
        (reap_agents-IsPresent f agents (reap_agent r f b w).1 a
          (reap_agent-IsPresent f b w a here))

  reap_agents_retires :
      (f : ReaperFresh r.Store) (agents : List Agent) (w : World r.Store) (a : Agent)
      → f.cut_of a.id ≡ none
      → IsKeyed w.db.agents
      → IsPresent a w.db.agents
      → In a agents
      → IsDead a.id (reap_agents r f agents w).1.db.agents
  unfolding reap_agents attempt
  reap_agents_retires f [] w a uncut keyed here place = elim place [ ]
  reap_agents_retires f (b ∷ agents) w a uncut keyed here (inl e) =
      subst (λ v. IsDead a.id v.db.agents) (reap_agents_step f b agents w)
        (reap_agents-IsDead f agents (reap_agent r f b w).1 a.id (
          subst (λ v. IsDead v.id (reap_agent r f b w).1.db.agents) e
            (reap_agent_retires f b w (subst (λ v. f.cut_of v.id ≡ none) (sym e) uncut) keyed
              (subst (λ v. IsPresent v w.db.agents) (sym e) here))))
  reap_agents_retires f (b ∷ agents) w a uncut keyed here (inr place) =
      subst (λ v. IsDead a.id v.db.agents) (reap_agents_step f b agents w)
        (reap_agents_retires f agents (reap_agent r f b w).1 a uncut
          (reap_agent-IsKeyed f b w keyed) (reap_agent-IsPresent f b w a here) place)

  -- When the identifiers of the agents are a primary key and the turn has the lock, it returns a
  -- summary, also where Redis fails in the calls on single agents. And for each row of an active
  -- ephemeral agent whose time is over, and in whose own call Redis does not fail, the committed table
  -- has a row with its identifier and every such row is decommissioned, wherever Redis fails in the
  -- calls on other agents.
  pub reaper_retires :
      (f : ReaperFresh r.Store) (w : World r.Store) (a : Agent)
      → IsKeyed w.db.agents
      → f.cut_of a.id ≡ none
      → In a w.db.agents
      → a.is_ephemeral ≡ true
      → is_due f.now a.decommission_at ≡ true
      → a.status ≡ AgentStatus.active
      → ((s : ReapSummary) × ((decommission_expired_ephemeral_agents r true f w).0 ≡ return s))
        × ((y : Agent) × In y (decommission_expired_ephemeral_agents r true f w).1.committed.agents
            × (y.id ≡ a.id))
        × ((y : Agent)
            → In y (decommission_expired_ephemeral_agents r true f w).1.committed.agents
            → y.id ≡ a.id
            → y.status ≡ AgentStatus.decommissioned)
  unfolding decommission_expired_ephemeral_agents get_expiring_ephemeral is_active_status
  reaper_retires f w a keyed uncut place ephemeral due active =
      let expired = get_expiring_ephemeral w.db.agents f.now in
      let (s, runs) = reap_agents_returns f expired w in
      let met =
        select-In
          (λ v. v.is_ephemeral && is_due f.now v.decommission_at && is_active_status v.status)
          w.db.agents a place (rw (ephemeral, due, active) refl) in
      let (y, row, named, _) = reap_agents-IsPresent f expired w a (a, place, refl, refl) in
      rw runs (
        (s, refl),
        (y, row, named),
        reap_agents_retires f expired w a uncut keyed (a, place, refl, refl) met,
      )
