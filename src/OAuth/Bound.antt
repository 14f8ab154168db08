-- ===== src/OAuth/Bound.antt =====
-- The token of a code is bound to what was authorized.
use ai_iam_platform.Prelude.{
  ℕ, ◌+◌, ◌*◌, ◌<◌, ◌≡◌, ◌∙◌, refl, sym, ap, subst, inl, inr, String, Bool, true, false, Option,
  none, some, List, [], ◌∷◌, ◌==◌, ◌&&◌, string_eq, ℕ_eq, not, contains, contains-select, is_subset,
  ltb, ltb→lt, arith, Bool-cases, Option-cases, ==→≡, if◌then◌else◌,
}
use ai_iam_platform.Model.{Ident, Scope, micros, Agent, is_active_status, permission_scopes}
use ai_iam_platform.Service.{World, Method, return, guard, ◌>>◌}
use ai_iam_platform.Revocation.Redis.{Redis}
use ai_iam_platform.Delegation.Grants.{agent_by_id_and_org, token_scopes}
use ai_iam_platform.Agents.Human.{resolve_on_behalf_of}
use ai_iam_platform.Exchange.{AccessToken, create_agent_access_token, is_dangerous}
use ai_iam_platform.OAuth.{
  CodeData, CodeRedis, CodeRequest, Stores, OAuthClient, AuthorizeRequest, with_code, Target,
  target, not_bound, client_by_id, client_of_org, resource_target, agent_error, authorize_error,
  tool_error, is_given, code_data, code_ttl_seconds, store_code, answer_authorize,
  build_authorization_redirect, resource_differs, same_ident, take_code, track_code_token,
  code_token, task_entry, redeem, check_code, exchange_authorization_code,
}

-- What a request must be for a code: the agent is active and is allowed the scopes.
pub record IsAuthorized (agents : List Agent) (q : AuthorizeRequest) : Type 0 where
  pub agent : Agent
  pub found : agent_by_id_and_org agents q.agent_id q.org_id ≡ some agent
  pub active : is_active_status agent.status ≡ true
  pub within : is_subset q.requested_scopes agent.allowed_scopes ≡ true
  pub scoped : is_dangerous q.requested_scopes ≡ true → is_given q.tool_name ≡ true
  -- A tool comes with the resource that it is a tool of.
  pub tooled : (tool : Ident) → q.tool_name ≡ some tool → is_given q.resource ≡ true

agent_error_lem :
    (q : AuthorizeRequest) (a : Agent) (t : Target)
    → agent_error q a t ≡ none
    → (is_active_status a.status ≡ true)
      × (is_subset q.requested_scopes a.allowed_scopes ≡ true)
      × (is_dangerous q.requested_scopes ≡ true → is_given q.tool_name ≡ true)
      × ((tool : Ident) → q.tool_name ≡ some tool → is_given q.resource ≡ true)
unfolding agent_error tool_error
agent_error_lem q a not_bound h = absurd (ground arith)
agent_error_lem q a (target tools) h = elim (Bool-cases (is_active_status a.status)) [
  | inr e ↦ absurd (let bad = rw e at h in cc)
  | inl e ↦ elim (Bool-cases (is_subset q.requested_scopes a.allowed_scopes)) [
    | inr s ↦ absurd (let bad = rw (e, s) at h in cc)
    | inl s ↦ elim (Option-cases (tool_error q.tool_name q.resource tools)) [
      | inr (x, t) ↦ absurd (let bad = rw (e, s, t) at h in cc)
      | inl t ↦ (
        e,
        s,
        λ d. elim (Bool-cases (is_given q.tool_name)) [
          | inl g ↦ g
          | inr g ↦ absurd (let bad = rw (e, s, t, d, g) at h in cc)
        ],
        λ tool named. elim (Bool-cases (is_given q.resource)) [
          | inl g ↦ g
          | inr g ↦ absurd (let bad = rw (named, g) at t in cc)
        ],
      )
    ]
  ]
]

authorize_error_lem :
    (agents : List Agent) (q : AuthorizeRequest) (o : Option Agent)
    → agent_by_id_and_org agents q.agent_id q.org_id ≡ o
    → authorize_error q o ≡ none
    → IsAuthorized agents q
unfolding authorize_error
authorize_error_lem agents q none found h = absurd (ground arith)
authorize_error_lem agents q (some a) found h =
    let passed : agent_error q a (resource_target a.mcp_bindings q.resource) ≡ none =
      ground arith in
    let (active, within, scoped, tooled) =
      agent_error_lem q a (resource_target a.mcp_bindings q.resource) passed in
    record {
      agent = a;
      found = found;
      active = active;
      within = within;
      scoped = scoped;
      tooled = tooled;
    }

module _ (r : Redis) (k : CodeRedis) where
  -- A call that hands out a code has stored it.
  authorize-return :
      (clients : List OAuthClient) (q : AuthorizeRequest) (w : World (Stores r k)) (code : String)
      → (build_authorization_redirect r k clients q w).0 ≡ return (with_code code)
      → IsAuthorized w.db.agents q
        × ((build_authorization_redirect r k clients q w).1.redis.1
            ≡ k.set_code q.code (code_data q) code_ttl_seconds q.now w.redis.1)
  unfolding build_authorization_redirect answer_authorize store_code
  authorize-return clients q w code h =
      elim (Option-cases (client_of_org q.org_id (client_by_id clients q.client_id))) [
        | inl e ↦ absurd (let bad = rw e at h in cc)
        | inr (c, e) ↦ elim (Bool-cases (contains c.redirect_uris q.redirect_uri)) [
          | inr u ↦ absurd (let bad = rw (e, u) at h in cc)
          | inl u ↦
              elim (Option-cases
                (authorize_error q (agent_by_id_and_org w.db.agents q.agent_id q.org_id))) [
                  | inr (x, a) ↦ absurd (let bad = rw (e, u, a) at h in cc)
                  | inl a ↦ (
                    authorize_error_lem w.db.agents q
                        (agent_by_id_and_org w.db.agents q.agent_id q.org_id) refl a,
                    rw (e, u, a) refl,
                  )
                ]
        ]
      ]

not_holding : (t : Bool) → not t ≡ true → t ≡ false
not_holding t h = ground arith

-- The test of the resource lets through only the resource that was authorized, if one was.
not_different :
    (bound given : Option Ident)
    → resource_differs bound given ≡ false
    → (i : Ident) → bound ≡ some i
    → given ≡ some i
unfolding resource_differs same_ident
not_different none given h i e = absurd (cc)
not_different (some n) none h i e = absurd (cc)
not_different (some n) (some m) h i e =
    let same : (m == n) ≡ true = ground arith in ap some (==→≡ m n same) ∙ e

given_some : (o : Option Ident) → is_given o ≡ true → (i : Ident) × (o ≡ some i)
unfolding is_given
given_some none h = absurd (cc)
given_some (some i) h = (i, refl)

-- What an attempt with a code must bring, for the token that it returns.
pub record IsRedeemed (challenge_of : String → String) (p : CodeRequest) (d : CodeData)
    (token : AccessToken) : Type 0 where
  pub same_client : d.client_id ≡ p.client_id
  pub same_redirect : d.redirect_uri ≡ p.redirect_uri
  pub proof_key : challenge_of p.code_verifier ≡ d.code_challenge
  pub same_resource : (i : Ident) → d.resource ≡ some i → p.resource ≡ some i
  pub human : Option ℕ
  pub is_token : token ≡ code_token p d human

module _ (r : Redis) (k : CodeRedis) (challenge_of : String → String) where
  redeem-return :
      (p : CodeRequest) (d : CodeData) (w : World (Stores r k)) (token : AccessToken)
      → (redeem r k p d w).0 ≡ return token
      → (human : Option ℕ) × (token ≡ code_token p d human)
  unfolding redeem track_code_token
  redeem-return p d w token h =
      elim (Option-cases (agent_by_id_and_org w.db.agents d.agent_id d.org_id)) [
        | inl e ↦ absurd (let bad = rw e at h in cc)
        | inr (a, e) ↦
            let same = rw e at h in
            (resolve_on_behalf_of w.db.on_behalf_of_grants p.now a d.scopes, cc)
      ]

  guard-return :
      {A : Type 0} (t : Bool) (code : ℕ) (detail : String) (m : Method (Stores r k) A)
      (w : World (Stores r k)) (a : A)
      → ((guard t code detail >> m) w).0 ≡ return a
      → (t ≡ true) × ((m w).0 ≡ return a)
  guard-return true code detail m w a h = (refl, h)
  guard-return false code detail m w a h = absurd (cc)

  check_code-IsRedeemed :
      (p : CodeRequest) (o : Option CodeData) (w : World (Stores r k)) (token : AccessToken)
      → (check_code r k challenge_of p o w).0 ≡ return token
      → (d : CodeData) × (o ≡ some d) × IsRedeemed challenge_of p d token
  unfolding check_code
  check_code-IsRedeemed p none w token h = absurd (cc)
  check_code-IsRedeemed p (some d) w token h =
      let (client, h1) =
        guard-return (d.client_id == p.client_id) 400 "invalid_grant" _ w token h in
      let (redirect, h2) =
        guard-return (d.redirect_uri == p.redirect_uri) 400 "invalid_grant" _ w token h1 in
      let (proof, h3) =
        guard-return (challenge_of p.code_verifier == d.code_challenge) 400 "invalid_grant" _ w
          token h2 in
      let (resource, h4) =
        guard-return (not (resource_differs d.resource p.resource)) 400 "invalid_target"
          (redeem r k p d) w token h3 in
      let (human, same) = redeem-return p d w token h4 in
      (
        d,
        refl,
        record {
          same_client = ==→≡ d.client_id p.client_id client;
          same_redirect = ==→≡ d.redirect_uri p.redirect_uri redirect;
          proof_key = ==→≡ (challenge_of p.code_verifier) d.code_challenge proof;
          same_resource =
              not_different d.resource p.resource
                (not_holding (resource_differs d.resource p.resource) resource);
          human = human;
          is_token = same;
        },
      )

  live_code :
      (t : Bool) (o : Option CodeData) (c d : CodeData)
      → o ≡ (if t then some c else none)
      → o ≡ some d
      → (t ≡ true) × (d ≡ c)
  live_code true o c d h e =
      (refl, let same : ◌≡◌ {A = Option CodeData} (some d) (some c) = sym e ∙ h in cc)
  live_code false o c d h e =
      absurd (let bad : ◌≡◌ {A = Option CodeData} (some d) none = sym e ∙ h in cc)

  -- What the token of a code carries.
  redeemed_token :
      (q : AuthorizeRequest) (p : CodeRequest) (token : AccessToken)
      → IsRedeemed challenge_of p (code_data q) token
      → (token.agent_id ≡ q.agent_id)
        × ((s : Scope)
            → contains token.scopes s
              ≡ (contains q.requested_scopes s && contains permission_scopes s))
        × (token.resource ≡ q.resource)
        × (q.tool_name ≡ none → token.authorization_details ≡ none)
        × ((server tool : Ident)
            → q.resource ≡ some server
            → q.tool_name ≡ some tool
            → token.authorization_details ≡ some ((server, tool) ∷ []))
  unfolding code_token create_agent_access_token token_scopes code_data task_entry
  redeemed_token q p token x =
      let same = x.is_token in
      (
        ap (λ y. y.agent_id) same,
        λ s.
            ap (λ y. contains y.scopes s) same
            ∙ contains-select (contains permission_scopes) q.requested_scopes s,
        ap (λ y. y.resource) same,
        λ free. ap (λ y. y.authorization_details) same ∙ rw free refl,
        λ server tool at named. ap (λ y. y.authorization_details) same ∙ rw (at, named) refl,
      )

  -- When a code is handed out and next redeemed for a token, then the agent was active and allowed the
  -- scopes that were asked for; the code is no older than two minutes; the client and the redirect
  -- address are those of the authorization, and the verifier hashes to its challenge; a resource that was
  -- authorized is presented again; and the token is for the agent, carries just the known ones of the
  -- scopes that were authorized, and is bound to the authorized resource if there is one, and to the
  -- authorized tool of that resource if there is one.
  pub authorize-exchange :
      (clients : List OAuthClient) (q : AuthorizeRequest) (p : CodeRequest) (w : World (Stores r k))
      (code : String) (token : AccessToken)
      → (build_authorization_redirect r k clients q w).0 ≡ return (with_code code)
      → (exchange_authorization_code r k challenge_of p
          (build_authorization_redirect r k clients q w).1).0
        ≡ return token
      → p.code ≡ q.code
      → IsAuthorized w.db.agents q
        × IsRedeemed challenge_of p (code_data q) token
        × (p.now < q.now + 120 * micros)
        × (token.agent_id ≡ q.agent_id)
        × ((s : Scope)
            → contains token.scopes s
              ≡ (contains q.requested_scopes s && contains permission_scopes s))
        × ((server : Ident) → q.resource ≡ some server → p.resource ≡ some server)
        × (token.resource ≡ q.resource)
        × (q.tool_name ≡ none → token.authorization_details ≡ none)
        × ((tool : Ident)
            → q.tool_name ≡ some tool
            → (server : Ident) × (q.resource ≡ some server)
              × (token.authorization_details ≡ some ((server, tool) ∷ [])))
  unfolding code_data exchange_authorization_code take_code
  authorize-exchange clients q p w code token h redeemed same =
      let (authorized, codes) = authorize-return r k clients q w code h in
      let w' = (build_authorization_redirect r k clients q w).1 in
      let taken : (k.getdel p.code p.now w'.redis.1).0
          ≡ (if ltb p.now (q.now + 120 * micros) then some (code_data q) else none) =
        ap (λ s. (k.getdel p.code p.now s).0) codes
        ∙ ap
            (λ c.
              (k.getdel c p.now
                (k.set_code q.code (code_data q) code_ttl_seconds q.now w.redis.1)).0)
            same
        ∙ k.getdel-set_code q.code (code_data q) code_ttl_seconds q.now p.now w.redis.1 in
      elim (Bool-cases (p.grant_type == "authorization_code")) [
        | inr g ↦ absurd (let bad = rw g at redeemed in cc)
        | inl g ↦
            let (d, got, x) =
              check_code-IsRedeemed p (k.getdel p.code p.now w'.redis.1).0 _ token
                (rw g at redeemed) in
            let (early, found) =
              live_code (ltb p.now (q.now + 120 * micros)) _ (code_data q) d taken got in
            let x' = subst (λ c. IsRedeemed challenge_of p c token) found x in
            let (agent, scopes, resource, free, details) = redeemed_token q p token x' in
            (
              authorized,
              x',
              ltb→lt p.now (q.now + 120 * micros) early,
              agent,
              scopes,
              x'.same_resource,
              resource,
              free,
              λ tool named.
                  let (server, at) = given_some q.resource (authorized.tooled tool named) in
                  (server, at, details server tool at named),
            )
      ]
