-- ===== src/Policy.antt =====
-- The policy query: `check_permission` (backend/app/core/permissions.py) and the classification of a
-- denial (`_classify_policy_denial`, backend/app/services/mcp_proxy_service.py). The Open Policy
-- Agent is a service: its reply to a query is an argument.
pub mod Rego
use ai_iam_platform.Prelude.{
  ℕ, String, Bool, true, false, Option, none, some, List, [], ◌∷◌, ◌==◌, string_eq, if◌then◌else◌,
  contains,
}
use ai_iam_platform.Model.{Ident, Scope, PolicyDecision}

pub record PolicyInput : Type 0 where
  pub agent_id : Ident
  pub org_id : Ident
  pub action : String
  pub resource_type : String
  pub resource_id : Ident
  pub token_scopes : List Scope
  pub delegation_depth : ℕ
  pub capabilities : List String
  pub provenance_tainted : Bool

-- The reply: none in time, a transport or status error, a body that is no JSON, or a document with
-- the values of its keys `allow` and `deny_reasons`, if it has them.
pub data OpaReply : Type 0 where
  timeout http_error malformed : OpaReply
  answered : Option Bool → Option (List String) → OpaReply

-- `check_permission` returns, raises `PermissionDeniedError` with its reasons, or lets the error of
-- `resp.json()` through.
pub data Permission : Type 0 where
  granted : Permission
  denied : List String → Permission
  crashed : Permission

abbrev pub reason_policy_unavailable : String
reason_policy_unavailable = "policy_engine_unavailable"

abbrev pub reason_provenance : String
reason_provenance = "provenance_tainted_high_risk_capability"

unfoldable pub reasons_or_empty : Option (List String) → List String
reasons_or_empty none = []
reasons_or_empty (some reasons) = reasons

unfoldable pub check_permission : OpaReply → Permission
unfolding reasons_or_empty
check_permission OpaReply.timeout = denied (reason_policy_unavailable ∷ [])
check_permission OpaReply.http_error = denied (reason_policy_unavailable ∷ [])
check_permission OpaReply.malformed = crashed
check_permission (OpaReply.answered none reasons) = denied (reasons_or_empty reasons)
check_permission (OpaReply.answered (some allow) reasons) =
    if allow then granted else denied (reasons_or_empty reasons)

-- `reasons == [REASON_PROVENANCE]`
unfoldable pub only_provenance : List String → Bool
only_provenance [] = false
only_provenance (x ∷ []) = x == reason_provenance
only_provenance (x ∷ y ∷ rest) = false

unfoldable pub classify_policy_denial : List String → PolicyDecision
unfolding only_provenance
classify_policy_denial reasons =
    if contains reasons reason_policy_unavailable
    then PolicyDecision.policy_unavailable
    else if only_provenance reasons
    then PolicyDecision.provenance_denied
    else PolicyDecision.policy_denied
