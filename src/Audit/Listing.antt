-- ===== src/Audit/Listing.antt =====
-- The listing of an agent's audit entries: `get_by_agent`
-- (backend/app/repositories/audit_repo.py), with the texts of the actions
-- (backend/app/core/constants.py).
use ai_iam_platform.Prelude.{
  ℕ, zero, suc, ◌≤◌, ◌≡◌, subst, inl, inr, Bool, true, false, Option, none, some, String, ◌&&◌,
  List, [], ◌∷◌, ◌==◌, ℕ_eq, string_eq, if◌then◌else◌, arith, length, select, In, In-select,
  In-append→, Option-cases, ==→≡, reverse, take,
}
use mathlib.Core.List.{reverse-cons}
use ai_iam_platform.Model.{Ident, AuditAction}
use ai_iam_platform.Audit.{AuditLog, by_sequence}
use ai_iam_platform.Audit.Queries.{In-by_sequence}

-- `action.value`
unfoldable pub action_value : AuditAction → String
action_value AuditAction.agent_registered = "agent.registered"
action_value AuditAction.agent_activated = "agent.activated"
action_value AuditAction.agent_suspended = "agent.suspended"
action_value AuditAction.agent_decommissioned = "agent.decommissioned"
action_value AuditAction.credential_issued = "credential.issued"
action_value AuditAction.credential_rotated = "credential.rotated"
action_value AuditAction.credential_revoked = "credential.revoked"
action_value AuditAction.credential_used = "credential.used"
action_value AuditAction.access_granted = "access.granted"
action_value AuditAction.access_denied = "access.denied"
action_value AuditAction.mcp_tool_called = "mcp.tool_called"
action_value AuditAction.mcp_tool_completed = "mcp.tool_completed"
action_value AuditAction.mcp_tool_blocked = "mcp.tool_blocked"
action_value AuditAction.delegation_granted = "delegation.granted"
action_value AuditAction.delegation_revoked = "delegation.revoked"
action_value AuditAction.delegation_used = "delegation.used"
action_value AuditAction.on_behalf_of_granted = "on_behalf_of.granted"
action_value AuditAction.on_behalf_of_revoked = "on_behalf_of.revoked"
action_value AuditAction.organization_created = "organization.created"

-- `if action:` with the filter that it adds; an empty text adds none.
unfoldable pub has_action : Option String → AuditLog → Bool
unfolding action_value
has_action none e = true
has_action (some a) e = if a == "" then true else action_value e.action == a

unfoldable pub of_agent : Ident → Ident → AuditLog → Bool
of_agent agent org e = (elim e.agent_id [ none ↦ false | some i ↦ i == agent ]) && (e.org_id == org)

unfoldable pub get_by_agent : List AuditLog → Ident → Ident → ℕ → Option String → List AuditLog
unfolding has_action of_agent
get_by_agent table agent org limit action =
    take limit
      (reverse (by_sequence (select (has_action action) (select (of_agent agent org) table))))

In-take : (n : ℕ) (e : AuditLog) (rows : List AuditLog) → In e (take n rows) → In e rows
In-take zero e rows h = elim h [ ]
In-take (suc n) e [] h = elim h [ ]
In-take (suc n) e (x ∷ rows) h = elim h [ inl same ↦ inl same | inr k ↦ inr (In-take n e rows k) ]

length-take : (n : ℕ) (rows : List AuditLog) → length (take n rows) ≤ n
length-take zero rows = omega arith
length-take (suc n) [] = omega arith
length-take (suc n) (x ∷ rows) = omega (arith, length-take n rows)

In-reverse : (e : AuditLog) (rows : List AuditLog) → In e (reverse rows) → In e rows
In-reverse e [] h = elim h [ ]
In-reverse e (x ∷ rows) h =
    elim (In-append→ e (reverse rows) (x ∷ []) (subst (In e) (reverse-cons x rows) h)) [
      | inl k ↦ inr (In-reverse e rows k)
      | inr k ↦ elim k [ inl same ↦ inl same | inr none_left ↦ elim none_left [ ] ]
    ]

of_agent-agent :
    (agent org : Ident) (e : AuditLog)
    → of_agent agent org e ≡ true
    → (e.agent_id ≡ some agent) × (e.org_id ≡ org)
unfolding of_agent
of_agent-agent agent org e h = elim (Option-cases e.agent_id) [
  | inl n ↦ absurd (let k = rw n at h in cc)
  | inr (i, s) ↦
      let k = rw s at h in
      let same : i ≡ agent = ==→≡ i agent (ground arith) in (cc, ==→≡ e.org_id org (ground arith))
]

-- Every entry that the listing of an agent shows is an entry of the table of that agent and that
-- organisation, also under a filter of actions, and it shows no more entries than its limit.
pub get_by_agent-shows :
    (table : List AuditLog) (agent org : Ident) (limit : ℕ) (action : Option String) (e : AuditLog)
    → In e (get_by_agent table agent org limit action)
    → In e table
      × (e.agent_id ≡ some agent)
      × (e.org_id ≡ org)
      × (length (get_by_agent table agent org limit action) ≤ limit)
unfolding get_by_agent
get_by_agent-shows table agent org limit action e h =
    let rows = select (has_action action) (select (of_agent agent org) table) in
    let kept = (In-by_sequence e rows).0 (In-reverse e (by_sequence rows) (In-take limit e _ h)) in
    let (place, holds) =
      In-select (of_agent agent org) table e
        (In-select (has_action action) (select (of_agent agent org) table) e kept).0 in
    let (own, tenant) = of_agent-agent agent org e holds in
    (place, own, tenant, length-take limit _)
