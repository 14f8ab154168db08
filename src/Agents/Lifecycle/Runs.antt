-- ===== src/Agents/Lifecycle/Runs.antt =====
-- What any sequence of calls of the life cycle can make of an agent.
use ai_iam_platform.Prelude.{
  ℕ, ◌≡◌, ◌≢◌, ◌⊎◌, ◌∙◌, refl, sym, ap, subst, inl, inr, Bool, true, false, some, List, [], ◌∷◌,
  ◌==◌, ℕ_eq, if◌then◌else◌, In, ◌+◌, ◌*◌, find-update_where, In-update_where, update_where,
  Bool-cases, ==_refl, ==→≡, ◌&&◌,
}
use ai_iam_platform.Model.{Ident, micros, Agent, AgentStatus}
use ai_iam_platform.Service.{World, return}
use ai_iam_platform.Revocation.Redis.{Redis}
use ai_iam_platform.Delegation.Grants.{agent_by_id_and_org}
use ai_iam_platform.Agents.Rows.{
  get_active_keys_for_agent, update_agent, with_status, update_status,
}
use ai_iam_platform.Agents.Lifecycle.{
  AgentRequest, require_agent, jit_activated, jit_activate, decommission, seal, revoke_index,
}
use ai_iam_platform.Agents.Lifecycle.Loop.{revoke_keys_agents}
use ai_iam_platform.Agents.Lifecycle.Sealed.{decommission-return}
use ai_iam_platform.Agents.Lifecycle.Machine.{
  Moves, activates, revives, suspends, decommissions, Operation, IsKeyed, IsStep, IsChange,
  activation, jit_activation, suspension, decommissioning, run, run_all,
}
use ai_iam_platform.Agents.Lifecycle.Changes.{
  found_agent, activate-IsChange, jit_activate-IsChange, suspend-IsChange, decommission-IsChange,
}

-- The statuses that moves lead to.
pub data Reaches (e : Bool) : AgentStatus → AgentStatus → Type 0 where
  stays : {s : AgentStatus} → Reaches e s s
  moves_then : {s t u : AgentStatus} → Moves e s t → Reaches e t u → Reaches e s u

no_move : {e : Bool} {s t : AgentStatus} → Moves e s t → e ≡ false → s ≢ AgentStatus.decommissioned
no_move activates h k = absurd (cc)
no_move revives h k = absurd (cc)
no_move (suspends n) h k = n k
no_move (decommissions n) h k = n k

not_to_pending : {e : Bool} {s t : AgentStatus} → Moves e s t → t ≢ AgentStatus.pending
not_to_pending activates k = absurd (cc)
not_to_pending revives k = absurd (cc)
not_to_pending (suspends n) k = absurd (cc)
not_to_pending (decommissions n) k = absurd (cc)

Reaches-absorbs :
    {e : Bool} {s t : AgentStatus}
    → Reaches e s t
    → e ≡ false
    → s ≡ AgentStatus.decommissioned
    → t ≡ AgentStatus.decommissioned
Reaches-absorbs stays h k = k
Reaches-absorbs (moves_then m rest) h k = absurd (no_move m h k)

Reaches-pending :
    {e : Bool} {s t : AgentStatus}
    → Reaches e s t
    → t ≡ AgentStatus.pending
    → s ≡ AgentStatus.pending
Reaches-pending stays k = k
Reaches-pending (moves_then m rest) k = absurd (not_to_pending m (Reaches-pending rest k))

-- The rows after a change are steps of the rows before it.
change-IsStep :
    (before after : List Agent) (y : Agent)
    → IsKeyed before
    → IsChange before after
    → In y after
    → (x : Agent) × In x before × IsStep x y
change-IsStep before after y keyed c place =
    let (x, first, same) =
      In-update_where (λ v. v.id == c.target.id) c.change before y
        (subst (λ v. In y v) c.result place) in
    elim (Bool-cases (x.id == c.target.id)) [
      | inl e ↦
          let changed : y ≡ c.change x = same ∙ rw e refl in
          let named : x ≡ c.target = keyed x c.target first c.place (==→≡ x.id c.target.id e) in
          (
            x,
            first,
            (
              ap (λ v. v.id) changed ∙ (c.keeps x).0,
              ap (λ v. v.is_ephemeral) changed ∙ (c.keeps x).1,
              inr (
                  subst (λ v. Moves x.is_ephemeral x.status v.status) (sym changed)
                    (subst (λ v. Moves v.is_ephemeral v.status (c.change v).status) (sym named)
                      c.moves)),
            ),
          )
      | inr e ↦
          let kept : y ≡ x = same ∙ rw e refl in
          (
            x,
            first,
            (ap (λ v. v.id) kept, ap (λ v. v.is_ephemeral) kept, inl (ap (λ v. v.status) kept)),
          )
    ]

change-IsKeyed :
    (before after : List Agent) → IsKeyed before → IsChange before after → IsKeyed after
change-IsKeyed before after keyed c x y px py same =
    let (u, pu, su) =
      In-update_where (λ v. v.id == c.target.id) c.change before x
        (subst (λ v. In x v) c.result px) in
    let (v, pv, sv) =
      In-update_where (λ v. v.id == c.target.id) c.change before y
        (subst (λ v. In y v) c.result py) in
    let iu : x.id ≡ u.id = ap (λ a. a.id) su ∙ kept u in
    let iv : y.id ≡ v.id = ap (λ a. a.id) sv ∙ kept v in
    su
    ∙ ap (λ a. if a.id == c.target.id then c.change a else a) (keyed u v pu pv (sym iu ∙ same ∙ iv))
    ∙ sym sv
  where
    kept : (a : Agent) → (if a.id == c.target.id then c.change a else a).id ≡ a.id
    kept a = elim (Bool-cases (a.id == c.target.id)) [
      | inl e ↦ rw e (c.keeps a).0
      | inr e ↦ rw e refl
    ]

module _ (r : Redis) where
  run-IsChange :
      (op : Operation) (w : World r.Store)
      → ((run r op w).db.agents ≡ w.db.agents) ⊎ IsChange w.db.agents (run r op w).db.agents
  unfolding run
  run-IsChange (activation spiffe user q) w = activate-IsChange r spiffe user q w
  run-IsChange (jit_activation task ttl q) w = jit_activate-IsChange r task ttl q w
  run-IsChange (suspension q) w = suspend-IsChange r q w
  run-IsChange (decommissioning p q) w = decommission-IsChange r p q w

  -- Identifiers that are a primary key remain one, and each row after a call, returned or raised, is a
  -- row before it whose status is the same or has made a move of the state machine.
  pub run_refines :
      (op : Operation) (w : World r.Store)
      → IsKeyed w.db.agents
      → IsKeyed (run r op w).db.agents
        × ((y : Agent) → In y (run r op w).db.agents → (x : Agent) × In x w.db.agents × IsStep x y)
  run_refines op w keyed = elim (run-IsChange op w) [
    | inl same ↦ (
      subst IsKeyed (sym same) keyed,
      λ y place. (y, subst (λ v. In y v) same place, (refl, refl, inl refl)),
    )
    | inr c ↦ (
      change-IsKeyed w.db.agents (run r op w).db.agents keyed c,
      λ y place. change-IsStep w.db.agents (run r op w).db.agents y keyed c place,
    )
  ]

  step_back :
      (x y z : Agent)
      → IsStep x y
      → Reaches y.is_ephemeral y.status z.status
      → Reaches x.is_ephemeral x.status z.status
  step_back x y z (_, kind, inl same) h =
      subst (λ v. Reaches x.is_ephemeral v z.status) same
        (subst (λ v. Reaches v y.status z.status) kind h)
  step_back x y z (_, kind, inr m) h =
      moves_then m (subst (λ v. Reaches v y.status z.status) kind h)

  -- Each row after any sequence of calls is a row before them whose status has made moves of the state
  -- machine.
  pub run_all_refines :
      (ops : List Operation) (w : World r.Store) (z : Agent)
      → IsKeyed w.db.agents
      → In z (run_all r ops w).db.agents
      → (x : Agent) × In x w.db.agents × (z.id ≡ x.id) × Reaches x.is_ephemeral x.status z.status
  unfolding run_all
  run_all_refines [] w z keyed place = (z, place, refl, stays)
  run_all_refines (op ∷ ops) w z keyed place =
      let (next, rows) = run_refines op w keyed in
      let (y, there, named, reached) = run_all_refines ops (run r op w) z next place in
      let (x, here, s) = rows y there in (x, here, named ∙ s.0, step_back x y z s reached)

  -- Through any sequence of calls, an agent that is decommissioned and not ephemeral stays
  -- decommissioned, and no agent comes to be pending that was not.
  pub run_all_absorbs :
      (ops : List Operation) (w : World r.Store) (x z : Agent)
      → IsKeyed w.db.agents
      → In x w.db.agents
      → In z (run_all r ops w).db.agents
      → z.id ≡ x.id
      → (x.is_ephemeral ≡ false
          → x.status ≡ AgentStatus.decommissioned
          → z.status ≡ AgentStatus.decommissioned)
        × (z.status ≡ AgentStatus.pending → x.status ≡ AgentStatus.pending)
  run_all_absorbs ops w x z keyed here place named =
      let (y, there, same, reached) = run_all_refines ops w z keyed place in
      let e : y ≡ x = keyed y x there here (sym same ∙ named) in
      let path : Reaches x.is_ephemeral x.status z.status =
        subst (λ v. Reaches v.is_ephemeral v.status z.status) e reached in
      (Reaches-absorbs path, Reaches-pending path)

jit_activate_lem :
    {S : Type 0} (task : Ident) (ttl : ℕ) (q : AgentRequest) (w : World S) (a : Agent)
    → agent_by_id_and_org w.db.agents q.agent_id q.org_id ≡ some a
    → a.is_ephemeral ≡ true
    → (jit_activate task ttl q w).0 ≡ return (jit_activated (q.now + ttl * micros) a)
unfolding jit_activate require_agent
jit_activate_lem task ttl q w a found kind = rw (found, kind) refl

module _ (r : Redis) where
  decommission_rows :
      (p : Ident) (q : AgentRequest) (w : World r.Store) (b : Agent)
      → (decommission r p q w).0 ≡ return b
      → agent_by_id_and_org (decommission r p q w).1.db.agents q.agent_id q.org_id ≡ some b
  unfolding seal revoke_index update_status update_agent agent_by_id_and_org
  decommission_rows p q w b h =
      let (a, found, runs) = decommission-return r p q w b h in
      let (place, named) = found_agent w.db.agents q.agent_id q.org_id a found in
      let keys = get_active_keys_for_agent w.db.api_keys q.agent_id in
      let same : b ≡ with_status AgentStatus.decommissioned a =
        let k : (decommission r p q w).0 ≡ return (with_status AgentStatus.decommissioned a) =
          ap (λ v. v.0) runs in
        cc in
      let met : (a.id == q.agent_id) ≡ true = rw named (==_refl q.agent_id) in
      let rows : (decommission r p q w).1.db.agents
          ≡ update_where (λ x. x.id == q.agent_id) (with_status AgentStatus.decommissioned)
              w.db.agents =
        ap (λ v. v.1.db.agents) runs
        ∙ ap (update_where (λ x. x.id == q.agent_id) (with_status AgentStatus.decommissioned))
            (revoke_keys_agents r q p keys w) in
      ap (λ v. agent_by_id_and_org v q.agent_id q.org_id) rows
      ∙ find-update_where (λ x. (x.id == q.agent_id) && (x.org_id == q.org_id))
          (λ x. x.id == q.agent_id) (with_status AgentStatus.decommissioned) w.db.agents a
          (λ x. refl) found
      ∙ rw met (ap some (sym same))

  -- An ephemeral agent that has just been decommissioned can be activated again: `jit_activate` by
  -- the same request returns it active.
  pub decommission-jit_activate :
      (p : Ident) (q : AgentRequest) (w : World r.Store) (b : Agent) (task : Ident) (ttl : ℕ)
      → (decommission r p q w).0 ≡ return b
      → b.is_ephemeral ≡ true
      → (jit_activate task ttl q (decommission r p q w).1).0
        ≡ return (jit_activated (q.now + ttl * micros) b)
  decommission-jit_activate p q w b task ttl h kind =
      jit_activate_lem task ttl q (decommission r p q w).1 b (decommission_rows p q w b h) kind
