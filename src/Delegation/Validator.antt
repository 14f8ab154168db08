-- ===== src/Delegation/Validator.antt =====
-- `DelegationValidator.validate` (backend/app/core/delegation.py) and `validate_scope_subset`
-- (backend/app/core/permissions.py).
use ai_iam_platform.Prelude.{
  ℕ, ◌+◌, ◌≤◌, ◌≡◌, ◌↔◌, ◌&&◌, Bool, true, false, List, [], ◌∷◌, arith, ltb, ◌==◌, if◌then◌else◌,
  length, contains, dedup, intersect, is_nodup, is_subset, ℕ_eq, string_eq, contains-intersect,
  contains-dedup, length-intersect→, length-intersect←, Option, none, some,
}
use ai_iam_platform.Model.{Ident, Scope}

-- `settings.MAX_DELEGATION_DEPTH`
abbrev pub max_delegation_depth : ℕ
max_delegation_depth = 5

-- Why a delegation is refused: the exceptions of `DelegationValidator`, of `validate_scope_subset`
-- and of `DelegationService._load_chain`. `unfinished` is no exception of the program: it stands for
-- a walk whose fuel ran out, and is proved not to occur.
pub data Rejection : Type 0 where
  depth_exceeded : ℕ → Rejection
  cycle_detected self_delegation scope_attenuation : Rejection
  own_grant_revoked ancestor_revoked : Ident → Rejection
  unfinished : Rejection

pub data Verdict {ℓ} (A : Type ℓ) : Type ℓ where
  approved : A → Verdict A
  rejected : Rejection → Verdict A

pub record DelegationLink : Type 0 where
  pub grant_id : Ident
  pub delegating_agent_id : Ident
  pub delegatee_agent_id : Ident
  pub scopes : List Scope
  pub depth : ℕ
  pub expires_at : ℕ
  pub causal_trace_id : Ident
  pub revoked : Bool

-- `DelegationChain.links`, root first.
abbrev pub DelegationChain : Type 0
DelegationChain = List DelegationLink

-- `DelegationChain.depth`
abbrev pub chain_depth : DelegationChain → ℕ
chain_depth links = length links

-- `DelegationChain.all_agent_ids`, before `set` drops the repetitions.
unfoldable pub chain_agent_ids : DelegationChain → List Ident
chain_agent_ids [] = []
chain_agent_ids (l ∷ links) = l.delegating_agent_id ∷ l.delegatee_agent_id ∷ chain_agent_ids links

unfoldable pub all_agent_ids : DelegationChain → List Ident
all_agent_ids chain = dedup (chain_agent_ids chain)

-- `DelegationChain.root_agent_id`
unfoldable pub root_agent_id : DelegationChain → Option Ident
root_agent_id [] = none
root_agent_id (l ∷ links) = some l.delegating_agent_id

-- `DelegationChain.current_scopes`
unfoldable pub current_scopes : DelegationChain → List Scope
current_scopes [] = []
current_scopes (l ∷ []) = l.scopes
current_scopes (l ∷ m ∷ links) = current_scopes (m ∷ links)

unfoldable pub validate_scope_subset : List Scope → List Scope → Verdict (List Scope)
validate_scope_subset requested held =
    let valid = intersect requested held in
    if length valid == length requested then approved valid else rejected scope_attenuation

unfoldable pub validate :
    DelegationChain → Ident → Ident → List Scope → List Scope → Verdict (List Scope)
validate chain delegating delegatee held requested =
    let new_depth = chain_depth chain + 1 in
    if ltb max_delegation_depth new_depth
    then rejected (depth_exceeded new_depth)
    else if contains (all_agent_ids chain) delegatee
    then rejected cycle_detected
    else if delegating == delegatee
    then rejected self_delegation
    else validate_scope_subset requested held

-- A request is approved just when it names no scope twice and only scopes that are held.
pub validate_scope_subset_iff :
    (requested held : List Scope)
    → (validate_scope_subset requested held ≡ approved (intersect requested held))
      ↔ ((is_nodup requested ≡ true) × (is_subset requested held ≡ true))
unfolding validate_scope_subset
validate_scope_subset_iff requested held = (
  λ h. length-intersect→ requested held (ground arith),
  λ h. rw (length-intersect← requested held h.0 h.1) (ground arith),
)

-- What `validate` asks of a request.
pub record IsAllowed (chain : DelegationChain) (delegating delegatee : Ident)
    (held requested : List Scope) : Type 0 where
  pub within_depth : chain_depth chain + 1 ≤ max_delegation_depth
  pub no_cycle : contains (chain_agent_ids chain) delegatee ≡ false
  pub not_self : (delegating == delegatee) ≡ false
  pub no_repetition : is_nodup requested ≡ true
  pub attenuated : is_subset requested held ≡ true

pub validate_iff :
    (chain : DelegationChain) (delegating delegatee : Ident) (held requested : List Scope)
    → (validate chain delegating delegatee held requested ≡ approved (intersect requested held))
      ↔ IsAllowed chain delegating delegatee held requested
unfolding validate all_agent_ids validate_scope_subset
validate_iff chain delegating delegatee held requested = (
  λ h.
      ground
        (arith, contains-dedup (chain_agent_ids chain) delegatee, length-intersect→ requested held),
  λ h. ground (
    arith,
    contains-dedup (chain_agent_ids chain) delegatee,
    length-intersect← requested held h.no_repetition h.attenuated,
  ),
)

-- Whatever `validate` approves are the requested scopes under a request that is allowed.
pub validate-IsAllowed :
    (chain : DelegationChain) (delegating delegatee : Ident) (held requested scopes : List Scope)
    → validate chain delegating delegatee held requested ≡ approved scopes
    → IsAllowed chain delegating delegatee held requested × (scopes ≡ intersect requested held)
unfolding validate validate_scope_subset
validate-IsAllowed chain delegating delegatee held requested scopes h =
    let same : scopes ≡ intersect requested held = ground arith in
    ((validate_iff chain delegating delegatee held requested).0 (rw same at h), same)

-- An approved scope was both requested and held.
pub validate_attenuates :
    (chain : DelegationChain) (delegating delegatee : Ident) (held requested scopes : List Scope)
    (s : Scope)
    → validate chain delegating delegatee held requested ≡ approved scopes
    → contains scopes s ≡ (contains requested s && contains held s)
validate_attenuates chain delegating delegatee held requested scopes s h =
    let (_, same) = validate-IsAllowed chain delegating delegatee held requested scopes h in
    rw same (contains-intersect requested held s)
