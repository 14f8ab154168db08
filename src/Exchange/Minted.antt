-- ===== src/Exchange/Minted.antt =====
-- An exchange that returns has passed its guards, and minted one token.
use ai_iam_platform.Prelude.{
  ◌≡◌, ◌⊎◌, refl, ap, inl, inr, String, true, false, Option, none, some, List, [], ◌∷◌, ◌==◌, ◌||◌,
  not, string_eq, ℕ_eq, Bool-cases, Option-cases,
}
use ai_iam_platform.Model.{Ident, Agent, Binding}
use ai_iam_platform.Service.{World, HttpError, Result, return, raise}
use ai_iam_platform.Revocation.Redis.{Redis}
use ai_iam_platform.Delegation.Grants.{agent_by_id_and_org}
use ai_iam_platform.Proxy.{Resolved, resolved, unresolved, resolve_mcp_binding, filter_mismatch}
use ai_iam_platform.Agents.Human.{resolve_on_behalf_of}
use ai_iam_platform.Keys.Secrets.{Bcrypt}
use ai_iam_platform.Keys.Verify.{KeyInfo, verify_key}
use ai_iam_platform.Exchange.{
  AuthorizationDetails, ExchangeRequest, ExchangeResponse, verify_request, is_dangerous, is_bound,
  exchanged_token, exchange_response, allow_intent, check_intent, record_human, require_key,
  track_token, mint, exchange_verified, exchange_api_key, exchange_token,
}

-- A call returned or raised.
Result-cases :
    {A : Type 0} (x : Result A) → ((a : A) × (x ≡ return a)) ⊎ ((e : HttpError) × (x ≡ raise e))
Result-cases (return a) = inl (a, refl)
Result-cases (raise e) = inr (e, refl)

-- What an intent comes to: no binding without one, and else its pair, which a binding of the agent
-- serves and whose tool the filter of the binding lets through.
abbrev pub IsIntent : List Agent → Agent → Option (Ident × Ident) → AuthorizationDetails → Type 0
IsIntent agents a intent entries =
    ((intent ≡ none) × (entries ≡ none))
    ⊎ ((i : Ident × Ident) × (url : String) × (b : Binding) × (intent ≡ some i)
        × (resolve_mcp_binding agents a.id a.org_id i.0 ≡ resolved url b)
        × (filter_mismatch b.tool_filter i.1 ≡ false)
        × (entries ≡ some (i ∷ [])))

module _ {S : Type 0} where
  allow_intent_cases :
      (agents : List Agent) (a : Agent) (i : Ident × Ident) (o : Resolved) (w : World S)
      → resolve_mcp_binding agents a.id a.org_id i.0 ≡ o
      → ((entries : AuthorizationDetails) × IsIntent agents a (some i) entries
          × (allow_intent i o w ≡ (return entries, w)))
        ⊎ ((e : HttpError) × (allow_intent i o w ≡ (raise e, w)))
  unfolding allow_intent
  allow_intent_cases agents a i (unresolved reason) w h = inr (_, refl)
  allow_intent_cases agents a i (resolved url b) w h =
      elim (Bool-cases (filter_mismatch b.tool_filter i.1)) [
        | inl e ↦ inr (record { status_code = 422; detail = "invalid_intent" }, rw e refl)
        | inr e ↦ inl (some (i ∷ []), inr (i, url, b, refl, h, e, refl), rw e refl)
      ]

  check_intent_cases :
      (intent : Option (Ident × Ident)) (a : Agent) (w : World S)
      → ((entries : AuthorizationDetails) × IsIntent w.db.agents a intent entries
          × (check_intent intent a w ≡ (return entries, w)))
        ⊎ ((e : HttpError) × (check_intent intent a w ≡ (raise e, w)))
  unfolding check_intent
  check_intent_cases none a w = inl (none, inl (refl, refl), refl)
  check_intent_cases (some i) a w =
      allow_intent_cases w.db.agents a i (resolve_mcp_binding w.db.agents a.id a.org_id i.0) w refl

module _ (r : Redis) (b : Bcrypt) where
  pub record_human_keeps :
      (q : ExchangeRequest) (info : KeyInfo) (human : Option Ident) (w : World r.Store)
      → ((record_human q info human w).0 ≡ return tt)
        × ((record_human q info human w).1.redis ≡ w.redis)
  unfolding record_human
  record_human_keeps q info none w = (refl, refl)
  record_human_keeps q info (some h) w = (refl, refl)

  mint-return :
      (q : ExchangeRequest) (info : KeyInfo) (human : Option Ident) (entries : AuthorizationDetails)
      (w : World r.Store) (resp : ExchangeResponse)
      → (mint r b q info human entries w).0 ≡ return resp
      → ((not (is_dangerous info.scopes) || is_bound entries) ≡ true)
        × (resp ≡ exchange_response q info (exchanged_token q info human entries))
        × ((mint r b q info human entries w).1.redis
            ≡ track_token r b info (exchanged_token q info human entries) q.now w.redis)
  unfolding mint
  mint-return q info human entries w resp h =
      elim (Bool-cases (not (is_dangerous info.scopes) || is_bound entries)) [
        | inr e ↦ absurd (let bad = rw e at h in cc)
        | inl e ↦
            let w' : World r.Store = record w {
              redis = track_token r b info (exchanged_token q info human entries) q.now w.redis;
            } in
            let (ran, kept) = record_human_keeps q info human w' in
            let same = rw (e, ran) at h in (e, cc, rw (e, ran) kept)
      ]

  -- What an exchange hands out for a verified key, and where it is tracked.
  pub record IsMinted (q : ExchangeRequest) (info : KeyInfo) (w w' : World r.Store)
      (resp : ExchangeResponse) : Type 0 where
    pub agent : Agent
    pub found : agent_by_id_and_org w.db.agents info.agent_id info.org_id ≡ some agent
    pub entries : AuthorizationDetails
    pub bound : IsIntent w.db.agents agent q.intent entries
    pub scoping : (not (is_dangerous info.scopes) || is_bound entries) ≡ true
    pub response :
        resp
        ≡ exchange_response q info (
            exchanged_token q info
              (resolve_on_behalf_of w.db.on_behalf_of_grants q.now agent info.scopes)
              entries)
    pub tracked :
        w'.redis
        ≡ track_token r b info
            (exchanged_token q info
              (resolve_on_behalf_of w.db.on_behalf_of_grants q.now agent info.scopes)
              entries)
            q.now
            w.redis

  exchange_verified-IsMinted :
      (q : ExchangeRequest) (info : KeyInfo) (w : World r.Store) (resp : ExchangeResponse)
      → (exchange_verified r b q info w).0 ≡ return resp
      → IsMinted q info w (exchange_verified r b q info w).1 resp
  unfolding exchange_verified
  exchange_verified-IsMinted q info w resp h =
      elim (Option-cases (agent_by_id_and_org w.db.agents info.agent_id info.org_id)) [
        | inl e ↦ absurd (let bad = rw e at h in cc)
        | inr (a, e) ↦ elim (check_intent_cases q.intent a w) [
          | inr (x, c) ↦ absurd (let bad = rw (e, c) at h in cc)
          | inl (entries, bound, c) ↦
              let human = resolve_on_behalf_of w.db.on_behalf_of_grants q.now a info.scopes in
              let (guarded, same, tracked) =
                mint-return q info human entries w resp (rw (e, c) at h) in
              record {
                agent = a;
                found = e;
                entries = entries;
                bound = bound;
                scoping = guarded;
                response = same;
                tracked = rw (e, c) tracked;
              }
        ]
      ]

  -- The world of the commit after a verification.
  abbrev pub committed_world : World r.Store → World r.Store
  committed_world v = record v { committed = v.db }

  require_key-return :
      (o : Option KeyInfo) (w : World r.Store) (info : KeyInfo)
      → (require_key o w).0 ≡ return info
      → o ≡ some info
  unfolding require_key
  require_key-return none w info h = absurd (cc)
  require_key-return (some i) w info h = let same : i ≡ info = cc in ap some same

  pub exchange_token-return :
      (q : ExchangeRequest) (w : World r.Store) (resp : ExchangeResponse)
      → (exchange_token r b q w).0 ≡ return resp
      → (info : KeyInfo) × ((verify_key b (verify_request q) q.credential w).0 ≡ return (some info))
        × IsMinted q info
            (committed_world (verify_key b (verify_request q) q.credential w).1)
            (exchange_token r b q w).1
            resp
  unfolding exchange_token exchange_api_key
  exchange_token-return q w resp h = elim (Bool-cases (q.grant_type == "api_key")) [
    | inr e ↦ absurd (let bad = rw e at h in cc)
    | inl e ↦
        let v = verify_key b (verify_request q) q.credential w in
        elim (Result-cases v.0) [
          | inr (x, c) ↦ absurd (let bad = rw (e, c) at h in cc)
          | inl (none, c) ↦ absurd (let bad = rw (e, c, require_key) at h in cc)
          | inl (some info, c) ↦ (
            info,
            c,
            rw (e, c, require_key)
                (exchange_verified-IsMinted q info (committed_world v.1) resp
                  (rw (e, c, require_key) at h)),
          )
        ]
  ]
