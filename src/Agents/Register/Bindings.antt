-- ===== src/Agents/Register/Bindings.antt =====
-- What registration lets through: the addresses that the MCP proxy may be sent to.
use ai_iam_platform.Prelude.{
  ℕ, String, ◌≡◌, ◌⊎◌, inl, inr, refl, true, false, none, some, List, [], ◌∷◌, ◌++◌, ◌==◌, ◌||◌,
  ◌↔◌, string_eq, contains, map, Bool-cases, Option-cases, All, arith,
}
use ai_iam_platform.Model.{Agent, AgentStatus, Binding}
use ai_iam_platform.Service.{World, HttpError, return, raise}
use ai_iam_platform.Delegation.Grants.{agent_by_id_and_org}
use ai_iam_platform.Agents.Rows.{same_status}
use ai_iam_platform.Agents.Register.{
  ParsedUrl, Urls, allowed_hosts, UrlVerdict, accepted, invalid_url, not_plain, host_not_allowed,
  or_blank, check_host, check_parsed, check_binding, validate_mcp_bindings, RegisterRequest,
  new_agent, create, registration_event, raise_verdict, check_parent_agent, register,
}

-- A new row is what the request says.
pub record IsRequested (q : RegisterRequest) (a : Agent) : Type 0 where
  pub id : a.id ≡ q.agent_id
  pub org : a.org_id ≡ q.org_id
  pub pending : a.status ≡ AgentStatus.pending
  pub scopes : a.allowed_scopes ≡ q.allowed_scopes
  pub bindings : a.mcp_bindings ≡ q.mcp_bindings
  pub parent : a.parent_agent_id ≡ q.parent_agent_id
  pub ephemeral : a.is_ephemeral ≡ q.is_ephemeral

-- A plain http(s) address, with no credentials, on one of the allowed hosts.
pub record IsAllowedUrl (u : Urls) (url : String) : Type 0 where
  pub parsed : ParsedUrl
  pub parses : u.urlparse url ≡ some parsed
  pub plain_scheme : contains ("http" ∷ "https" ∷ []) parsed.scheme ≡ true
  pub has_host : (u.lower (or_blank parsed.hostname) == "") ≡ false
  pub no_userinfo : parsed.has_userinfo ≡ false
  pub host_allowed :
      contains (map u.lower allowed_hosts) (u.lower (or_blank parsed.hostname)) ≡ true

abbrev pub IsAllowedBinding : Urls → Binding → Type 0
IsAllowedBinding u b = (url : String) → b.server_url ≡ some url → IsAllowedUrl u url

check_host_lem :
    (u : Urls) (p : ParsedUrl)
    → (check_host u p ≡ accepted) ↔ (
        (contains ("http" ∷ "https" ∷ []) p.scheme ≡ true)
        × ((u.lower (or_blank p.hostname) == "") ≡ false)
        × (p.has_userinfo ≡ false)
        × (contains (map u.lower allowed_hosts) (u.lower (or_blank p.hostname)) ≡ true))
unfolding check_host
check_host_lem u p = ground arith

check_binding→ :
    (u : Urls) (b : Binding) → check_binding u b.server_url ≡ accepted → IsAllowedBinding u b
unfolding check_binding check_parsed
check_binding→ u b h url e = elim (Option-cases (u.urlparse url)) [
  | inl bad ↦ absurd (let k = rw (e, bad) at h in cc)
  | inr (p, good) ↦
      let (scheme, host, user, allowed) = (check_host_lem u p).0 (rw (e, good) at h) in
      record {
        parsed = p;
        parses = good;
        plain_scheme = scheme;
        has_host = host;
        no_userinfo = user;
        host_allowed = allowed;
      }
]

check_binding← :
    (u : Urls) (b : Binding) → IsAllowedBinding u b → check_binding u b.server_url ≡ accepted
unfolding check_binding check_parsed
check_binding← u b h = elim (Option-cases b.server_url) [
  | inl e ↦ rw e refl
  | inr (url, e) ↦
      let a = h url e in
      rw (e, a.parses)
        ((check_host_lem u a.parsed).1 (a.plain_scheme, a.has_host, a.no_userinfo, a.host_allowed))
]

-- Bindings are accepted just when each address among them is a plain http(s) URL on an allowed host.
pub validate_mcp_bindings_iff :
    (u : Urls) (bindings : List Binding)
    → (validate_mcp_bindings u bindings ≡ accepted) ↔ All (IsAllowedBinding u) bindings
unfolding validate_mcp_bindings
validate_mcp_bindings_iff u [] = (λ h. tt, λ h. refl)
validate_mcp_bindings_iff u (b ∷ bindings) = (
  λ h.
      let (first, rest) =
        both (check_binding u b.server_url) (validate_mcp_bindings u bindings) h in
      (check_binding→ u b first, (validate_mcp_bindings_iff u bindings).0 rest),
  λ h.
      rw (check_binding← u b h.0, validate_mcp_bindings)
        ((validate_mcp_bindings_iff u bindings).1 h.1),
)
  where
    both :
        (v rest : UrlVerdict)
        → (elim v [ accepted ↦ rest | x ↦ x ]) ≡ accepted
        → (v ≡ accepted) × (rest ≡ accepted)
    both accepted rest h = (refl, h)
    both invalid_url rest h = absurd (cc)
    both not_plain rest h = absurd (cc)
    both host_not_allowed rest h = absurd (cc)

-- The parent of an agent that can be registered: none, or an active or pending one of the
-- organisation.
abbrev pub IsParent : List Agent → RegisterRequest → Type 0
IsParent agents q =
    (q.parent_agent_id ≡ none)
    ⊎ ((i : ℕ) × (p : Agent) × (q.parent_agent_id ≡ some i)
        × (agent_by_id_and_org agents i q.org_id ≡ some p)
        × ((p.status ≡ AgentStatus.active) ⊎ (p.status ≡ AgentStatus.pending)))

living :
    (s : AgentStatus)
    → (same_status s AgentStatus.active || same_status s AgentStatus.pending) ≡ true
    → (s ≡ AgentStatus.active) ⊎ (s ≡ AgentStatus.pending)
unfolding same_status
living AgentStatus.active h = inl refl
living AgentStatus.pending h = inr refl
living AgentStatus.suspended h = absurd (cc)
living AgentStatus.decommissioned h = absurd (cc)

module _ {S : Type 0} where
  -- A call of a step that passes changes nothing.
  raise_verdict_cases :
      (v : UrlVerdict) (w : World S)
      → ((v ≡ accepted) × (raise_verdict v w ≡ (return tt, w)))
        ⊎ ((e : HttpError) × (raise_verdict v w ≡ (raise e, w)))
  unfolding raise_verdict
  raise_verdict_cases accepted w = inl (refl, refl)
  raise_verdict_cases invalid_url w = inr (_, refl)
  raise_verdict_cases not_plain w = inr (_, refl)
  raise_verdict_cases host_not_allowed w = inr (_, refl)

  check_parent_agent_cases :
      (q : RegisterRequest) (w : World S)
      → (IsParent w.db.agents q
          × (check_parent_agent q.parent_agent_id q.org_id w ≡ (return tt, w)))
        ⊎ ((e : HttpError) × (check_parent_agent q.parent_agent_id q.org_id w ≡ (raise e, w)))
  unfolding check_parent_agent
  check_parent_agent_cases q w = elim (Option-cases q.parent_agent_id) [
    | inl e ↦ inl (inl e, rw e refl)
    | inr (i, e) ↦ elim (Option-cases (agent_by_id_and_org w.db.agents i q.org_id)) [
      | inl f ↦
          inr (record { status_code = 404; detail = "Parent agent not found" }, rw (e, f) refl)
      | inr (p, f) ↦
          elim (Bool-cases
            (same_status p.status AgentStatus.active || same_status p.status AgentStatus.pending)) [
              | inl s ↦ inl (inr (i, p, e, f, living p.status s), rw (e, f, s) refl)
              | inr s ↦ inr (
                record { status_code = 422; detail = "Parent agent cannot register child" },
                rw (e, f, s) refl,
              )
            ]
    ]
  ]

  -- A registration takes one of three courses. It returns an agent, when the addresses of the request
  -- are allowed and its parent lives: the agent is pending, is of the organization, the parent and the
  -- kind of the request and holds its bindings and scopes, and it and the audit entry of its
  -- registration are all that was added. Or the request is refused, and nothing has changed and nothing
  -- is recorded. Or the database does not take the row, when there is no new agent and yet the audit
  -- entry stands.
  pub register_admits :
      (u : Urls) (q : RegisterRequest) (w : World S)
      → ((a : Agent) × ((register u q w).0 ≡ return a)
          × All (IsAllowedBinding u) a.mcp_bindings
          × IsParent w.db.agents q
          × IsRequested q a
          × ((register u q w).1.db ≡ record w.db { agents = w.db.agents ++ (a ∷ []) })
          × ((register u q w).1.audit ≡ w.audit ++ (registration_event q ∷ [])))
        ⊎ (((e : HttpError) × (register u q w ≡ (raise e, w)))
            ⊎ ((q.insert_answers ≡ false)
                × ((e : HttpError) × (register u q w
                      ≡ (raise e, record w { audit = w.audit ++ (registration_event q ∷ []) })))))
  unfolding register new_agent create
  register_admits u q w = elim (raise_verdict_cases (validate_mcp_bindings u q.mcp_bindings) w) [
    | inr (e, v) ↦ inr (inl (e, rw v refl))
    | inl (fine, v) ↦ elim (check_parent_agent_cases q w) [
      | inr (e, c) ↦ inr (inl (e, rw (v, c) refl))
      | inl (parent, c) ↦ elim (Bool-cases q.insert_answers) [
        | inr i ↦
            inr (inr (i, (record { status_code = 500; detail = "DBAPIError" }, rw (v, c, i) refl)))
        | inl i ↦ inl (
          new_agent q,
          rw (v, c, i) refl,
          (validate_mcp_bindings_iff u q.mcp_bindings).0 fine,
          parent,
          record {
            id = refl;
            org = refl;
            pending = refl;
            scopes = refl;
            bindings = refl;
            parent = refl;
            ephemeral = refl;
          },
          rw (v, c, i) refl,
          rw (v, c, i) refl,
        )
      ]
    ]
  ]
