-- ===== src/Policy/Rego.antt =====
-- The policy that the engine evaluates (backend/policies/authz.rego). An identifier is a number, so
-- the numbers of the empty text and of the blocked tools' names are arguments.
use ai_iam_platform.Prelude.{
  ◌≡◌, ◌≢◌, ◌↔◌, ◌⊎◌, inl, inr, String, Bool, true, false, some, List, [], ◌∷◌, ◌++◌, any, contains,
  string_eq, ℕ_eq, arith, ◌==◌, ◌&&◌, not, leb, ℕ, Bool-cases,
}
use ai_iam_platform.Model.{Ident}
use ai_iam_platform.Policy.{PolicyInput, OpaReply, granted, check_permission}

pub record Names : Type 0 where
  pub empty : Ident
  pub blocked_tools : List Ident

abbrev pub max_delegation_depth : ℕ
max_delegation_depth = 5

abbrev pub tainted_denied_capabilities : List String
tainted_denied_capabilities = "external_send" ∷ "credential_access" ∷ []

unfoldable pub is_tainted_high_risk_call : PolicyInput → Bool
is_tainted_high_risk_call i =
    i.provenance_tainted && any (contains tainted_denied_capabilities) i.capabilities

unfoldable pub well_formed_input : Names → PolicyInput → Bool
well_formed_input n i = not (i.org_id == n.empty) && not (i.agent_id == n.empty)

unfoldable pub is_blocked_tool_call : Names → PolicyInput → Bool
is_blocked_tool_call n i =
    (i.action == "tool:execute")
    && ((i.resource_type == "mcp_tool") && contains n.blocked_tools i.resource_id)

unfoldable pub allow : Names → PolicyInput → Bool
unfolding is_tainted_high_risk_call well_formed_input is_blocked_tool_call
allow n i =
    well_formed_input n i
    && (contains i.token_scopes i.action
        && (leb i.delegation_depth max_delegation_depth
            && (not (is_blocked_tool_call n i) && not (is_tainted_high_risk_call i))))

unfoldable pub reason_if : Bool → String → List String
reason_if true reason = reason ∷ []
reason_if false reason = []

-- A set, which the engine prints in the order of its texts.
unfoldable pub deny_reasons : Names → PolicyInput → List String
unfolding reason_if is_tainted_high_risk_call well_formed_input is_blocked_tool_call
deny_reasons n i =
    reason_if (is_blocked_tool_call n i) "blocked_tool"
    ++ (reason_if (not (leb i.delegation_depth max_delegation_depth)) "delegation_depth_exceeded"
        ++ (reason_if (not (well_formed_input n i)) "malformed_input"
            ++ (reason_if (is_tainted_high_risk_call i) "provenance_tainted_high_risk_capability"
                ++ reason_if (not (contains i.token_scopes i.action)) "scope_not_granted")))

-- The reply of an engine that has loaded the policy.
unfoldable pub evaluate : Names → PolicyInput → OpaReply
unfolding allow deny_reasons
evaluate n i = OpaReply.answered (some (allow n i)) (some (deny_reasons n i))

all_off :
    (a b c d e : Bool)
    → ((reason_if a "blocked_tool"
          ++ (reason_if (not b) "delegation_depth_exceeded"
              ++ (reason_if (not c) "malformed_input"
                  ++ (reason_if d "provenance_tainted_high_risk_capability"
                      ++ reason_if (not e) "scope_not_granted"))))
        ≡ [])
      ↔ ((c && (e && (b && (not a && not d)))) ≡ true)
unfolding reason_if
all_off a b c d e = ground arith

-- The policy gives no reason to deny exactly when it allows.
pub allow_iff : (n : Names) (i : PolicyInput) → (deny_reasons n i ≡ []) ↔ (allow n i ≡ true)
unfolding allow deny_reasons
allow_iff n i =
    all_off (is_blocked_tool_call n i) (leb i.delegation_depth max_delegation_depth)
      (well_formed_input n i) (is_tainted_high_risk_call i) (contains i.token_scopes i.action)

-- The engine has loaded the policy: it evaluates it, or it cannot be reached.
unfoldable pub Enforces : (PolicyInput → OpaReply) → Names → Type 0
Enforces opa n =
    (i : PolicyInput)
    → (opa i ≡ evaluate n i) ⊎ ((opa i ≡ OpaReply.timeout) ⊎ (opa i ≡ OpaReply.http_error))

-- What the service grants, the policy allows.
pub granted-allow :
    (opa : PolicyInput → OpaReply) (n : Names)
    → Enforces opa n
    → (i : PolicyInput) → check_permission (opa i) ≡ granted
    → allow n i ≡ true
unfolding Enforces check_permission evaluate
granted-allow opa n h i g = elim (h i) [
  | inl e ↦
      let k = rw e at g in
      elim (Bool-cases (allow n i)) [ inl t ↦ t | inr f ↦ absurd (ground arith) ]
  | inr (inl e) ↦ absurd (let k = rw e at g in cc)
  | inr (inr e) ↦ absurd (let k = rw e at g in cc)
]

pub Enforces-well_formed :
    (opa : PolicyInput → OpaReply) (n : Names)
    → Enforces opa n
    → (i : PolicyInput) → opa i ≢ OpaReply.malformed
unfolding Enforces evaluate
Enforces-well_formed opa n h i m = elim (h i) [
  | inl e ↦ absurd (let k = rw e at m in cc)
  | inr (inl e) ↦ absurd (let k = rw e at m in cc)
  | inr (inr e) ↦ absurd (let k = rw e at m in cc)
]

last_conjunct :
    (a b c d t x : Bool) → (a && (b && (c && (d && not (t && x))))) ≡ true → t ≡ true → x ≡ false
last_conjunct a b c d t x h k = ground arith

pub granted-untainted :
    (opa : PolicyInput → OpaReply) (n : Names)
    → Enforces opa n
    → (i : PolicyInput) → check_permission (opa i) ≡ granted
    → i.provenance_tainted ≡ true
    → any (contains tainted_denied_capabilities) i.capabilities ≡ false
unfolding allow is_tainted_high_risk_call
granted-untainted opa n h i g t =
    last_conjunct (well_formed_input n i) (contains i.token_scopes i.action)
      (leb i.delegation_depth max_delegation_depth) (not (is_blocked_tool_call n i))
      i.provenance_tainted _ (granted-allow opa n h i g) t
