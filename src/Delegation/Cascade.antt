-- ===== src/Delegation/Cascade.antt =====
-- `DelegationService._find_descendant_ids` (backend/app/services/delegation_service.py): the
-- breadth-first walk from a grant to every grant below it. `none` stands for a walk whose fuel ran
-- out; the code has no such bound, and relies on the depth ceiling.
pub mod Reach
pub mod Bounds
use ai_iam_platform.Prelude.{
  ℕ, zero, suc, Bool, true, false, List, [], ◌∷◌, ◌++◌, ◌==◌, ℕ_eq, if◌then◌else◌, contains, select,
  Option, none, some, map,
}
use ai_iam_platform.Model.{Ident, DelegationGrant}

-- `DG.parent_grant_id.in_(frontier)`
unfoldable pub is_child : List Ident → DelegationGrant → Bool
is_child frontier g = elim g.parent_grant_id [ none ↦ false | some i ↦ contains frontier i ]

-- `select(DG.id).where(DG.parent_grant_id.in_(frontier))`
unfoldable pub children : List DelegationGrant → List Ident → List Ident
children grants frontier = map (λ g. g.id) (select (is_child frontier) grants)

-- `descendants.extend(children)`
unfoldable pub extend : List Ident → Option (List Ident) → Option (List Ident)
extend found none = none
extend found (some rest) = some (found ++ rest)

unfoldable pub descend : ℕ → List DelegationGrant → List Ident → Option (List Ident)
unfolding extend
descend zero grants frontier = none
descend (suc fuel) grants frontier = elim (children grants frontier) [
  | [] ↦ some []
  | c ∷ cs ↦ extend (c ∷ cs) (descend fuel grants (c ∷ cs))
]

unfoldable pub find_descendant_ids : ℕ → List DelegationGrant → Ident → Option (List Ident)
find_descendant_ids fuel grants grant_id = descend fuel grants (grant_id ∷ [])
