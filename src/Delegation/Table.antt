-- ===== src/Delegation/Table.antt =====
-- The `delegation_grants` table (backend/app/models/delegation_grant.py): what holds of every row,
-- which the operations of the service keep.
pub mod Depth
use ai_iam_platform.Prelude.{
  ℕ, suc, ◌+◌, ◌≤◌, ◌≡◌, ◌⊎◌, Bool, true, List, Option, none, some, is_subset, string_eq, In,
}
use ai_iam_platform.Model.{Ident, DelegationGrant}
use ai_iam_platform.Delegation.Validator.{max_delegation_depth}
use ai_iam_platform.Delegation.Chain.{grant_by_id}

-- `g` continues the grant `p`: one hop deeper, from the agent that `p` empowers, and with no scope
-- that `p` lacks.
pub record Continues (grants : List DelegationGrant) (g p : DelegationGrant) : Type 0 where
  pub linked : g.parent_grant_id ≡ some p.id
  pub held : In p grants
  pub deeper : g.delegation_depth ≡ p.delegation_depth + 1
  pub same_agent : g.delegating_agent_id ≡ p.delegatee_agent_id
  pub attenuated : is_subset g.scopes p.scopes ≡ true

-- A row is found by its id, lies within the depth ceiling, and starts a chain or continues one.
pub record IsPlaced (grants : List DelegationGrant) (g : DelegationGrant) : Type 0 where
  pub by_id : grant_by_id grants g.id ≡ some g
  pub bounded : g.delegation_depth ≤ max_delegation_depth
  pub lineage :
      ((g.parent_grant_id ≡ none) × (g.delegation_depth ≡ 1))
      ⊎ ((p : DelegationGrant) × Continues grants g p)

abbrev pub IsWellFormed : List DelegationGrant → Type 0
IsWellFormed grants = (g : DelegationGrant) → In g grants → IsPlaced grants g
