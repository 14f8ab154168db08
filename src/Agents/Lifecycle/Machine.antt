-- ===== src/Agents/Lifecycle/Machine.antt =====
-- The life cycle as a state machine: the moves between the statuses of an agent, and the operations
-- of the service over a table as steps of it (backend/app/services/agent_service.py).
use ai_iam_platform.Prelude.{
  ℕ, ◌≡◌, ◌≢◌, ◌⊎◌, Bool, true, String, List, [], ◌∷◌, ◌==◌, ℕ_eq, In, update_where,
}
use ai_iam_platform.Model.{Ident, Agent, AgentStatus}
use ai_iam_platform.Service.{World}
use ai_iam_platform.Revocation.Redis.{Redis}
use ai_iam_platform.Agents.Lifecycle.{AgentRequest, activate, jit_activate, suspend, decommission}

-- The moves of an agent that is ephemeral or not. Only an ephemeral agent is activated again.
pub data Moves : Bool → AgentStatus → AgentStatus → Type 0 where
  activates : {e : Bool} → Moves e AgentStatus.pending AgentStatus.active
  revives : {s : AgentStatus} → Moves true s AgentStatus.active
  suspends :
      {e : Bool} {s : AgentStatus}
      → s ≢ AgentStatus.decommissioned
      → Moves e s AgentStatus.suspended
  decommissions :
      {e : Bool} {s : AgentStatus}
      → s ≢ AgentStatus.decommissioned
      → Moves e s AgentStatus.decommissioned

-- One call of the service.
pub data Operation : Type 0 where
  activation : String → Ident → AgentRequest → Operation
  jit_activation : Ident → ℕ → AgentRequest → Operation
  suspension : AgentRequest → Operation
  decommissioning : Ident → AgentRequest → Operation

-- The identifiers of the agents are a primary key.
abbrev pub IsKeyed : List Agent → Type 0
IsKeyed agents = (x y : Agent) → In x agents → In y agents → x.id ≡ y.id → x ≡ y

-- What one row may become in a call: nothing changes, or its status makes a move.
abbrev pub IsStep : Agent → Agent → Type 0
IsStep x y =
    (y.id ≡ x.id)
    × (y.is_ephemeral ≡ x.is_ephemeral)
    × ((y.status ≡ x.status) ⊎ Moves x.is_ephemeral x.status y.status)

-- The table after a call: as it was, or with the rows of one agent changed.
pub record IsChange (before after : List Agent) : Type 0 where
  pub target : Agent
  pub change : Agent → Agent
  pub place : In target before
  pub keeps : (x : Agent) → ((change x).id ≡ x.id) × ((change x).is_ephemeral ≡ x.is_ephemeral)
  pub moves : Moves target.is_ephemeral target.status (change target).status
  pub result : after ≡ update_where (λ x. x.id == target.id) change before

module _ (r : Redis) where
  -- The world after a call, whether it has returned or raised.
  unfoldable pub run : Operation → World r.Store → World r.Store
  run (activation spiffe user q) w = (activate spiffe user q w).1
  run (jit_activation task ttl q) w = (jit_activate task ttl q w).1
  run (suspension q) w = (suspend r q w).1
  run (decommissioning p q) w = (decommission r p q w).1

  unfoldable pub run_all : List Operation → World r.Store → World r.Store
  unfolding run
  run_all [] w = w
  run_all (op ∷ ops) w = run_all ops (run op w)
