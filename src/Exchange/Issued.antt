-- ===== src/Exchange/Issued.antt =====
-- What an exchange that returns has issued.
use ai_iam_platform.Prelude.{
  ℕ, ◌+◌, ◌/◌, ◌<◌, ◌≡◌, ◌∙◌, refl, ap, inl, inr, Bool, true, false, Option, some, List, [], ◌∷◌,
  ◌||◌, ◌&&◌, not, string_eq, ℕ_eq, contains, contains-select, arith,
}
use ai_iam_platform.Model.{Ident, Scope, micros, Agent, permission_scopes}
use ai_iam_platform.Service.{World, return}
use ai_iam_platform.Revocation.Redis.{Redis, IndexKey, same_key}
use ai_iam_platform.Revocation.Index.{track_issued_jti}
use ai_iam_platform.Revocation.Laws.{track_issued_jti_lem}
use ai_iam_platform.Delegation.Grants.{token_scopes}
use ai_iam_platform.Agents.Human.{resolve_on_behalf_of}
use ai_iam_platform.Keys.Secrets.{Bcrypt, split_compound_key}
use ai_iam_platform.Keys.Verify.{KeyInfo, verify_key}
use ai_iam_platform.Keys.Verify.Sound.{IsVerified, verify_key_sound}
use ai_iam_platform.Exchange.{
  AuthorizationDetails, AccessToken, ExchangeRequest, ExchangeResponse, verify_request,
  is_dangerous, is_bound, exchanged_token, create_agent_access_token, exchange_response,
  track_token, exchange_token,
}
use ai_iam_platform.Exchange.Minted.{IsIntent, exchange_token-return}

module _ (r : Redis) (b : Bcrypt) where
  track_issued_jti_other :
      (k l : IndexKey) (i j : Ident) (exp now : ℕ) (s : r.Store)
      → same_key k l ≡ false
      → r.score l j (track_issued_jti r k i exp now s) ≡ r.score l j s
  unfolding track_issued_jti
  track_issued_jti_other k l i j exp now s apart =
      r.score-zremrangebyscore_ne k l j (now / micros) (r.zadd k i exp s) apart
      ∙ r.score-zadd k l i j exp s
      ∙ rw apart refl

  -- A token is in both of its indexes with its expiry.
  track_token_scores :
      (info : KeyInfo) (token : AccessToken) (now : ℕ) (s : r.Store)
      → now / micros < token.exp
      → (r.score (IndexKey.agent_jtis info.agent_id) token.jti (track_token r b info token now s)
          ≡ some token.exp)
        × (r.score (IndexKey.key_jtis info.key_id) token.jti (track_token r b info token now s)
            ≡ some token.exp)
  unfolding track_token same_key
  track_token_scores info token now s live =
      let agent = IndexKey.agent_jtis info.agent_id in
      let key = IndexKey.key_jtis info.key_id in
      let first = track_issued_jti r agent token.jti token.exp now s in
      (
        track_issued_jti_other key agent token.jti token.jti token.exp now first refl
            ∙ track_issued_jti_lem r agent token.jti token.exp now s live,
        track_issued_jti_lem r key token.jti token.exp now first live,
      )

  -- What holds of a token that has been exchanged for a key.
  pub record IsExchanged (q : ExchangeRequest) (w w' : World r.Store) (resp : ExchangeResponse)
      (info : KeyInfo) : Type 0 where
    pub verified :
        IsVerified b w.db.api_keys (verify_request q) (split_compound_key q.credential) info
    pub owner :
        (resp.access_token.agent_id ≡ info.agent_id) × (resp.access_token.org_id ≡ info.org_id)
    pub carried :
        (s : Scope)
        → contains resp.access_token.scopes s
          ≡ (contains info.scopes s && contains permission_scopes s)
    pub expires : resp.access_token.exp ≡ q.now / micros + 900
    pub same_jti : (resp.jti ≡ q.jti) × (resp.access_token.jti ≡ q.jti)
    pub in_agent_index :
        r.score (IndexKey.agent_jtis info.agent_id) q.jti w'.redis ≡ some (q.now / micros + 900)
    pub in_key_index :
        r.score (IndexKey.key_jtis info.key_id) q.jti w'.redis ≡ some (q.now / micros + 900)
    pub task_scoped :
        is_dangerous info.scopes ≡ true
        → (i : Ident × Ident) × (q.intent ≡ some i)
          × (resp.access_token.authorization_details ≡ some (i ∷ []))

  task_scoped_lem :
      (agents : List Agent) (a : Agent) (intent : Option (Ident × Ident))
      (entries : AuthorizationDetails) (dangerous : Bool)
      → IsIntent agents a intent entries
      → (not dangerous || is_bound entries) ≡ true
      → dangerous ≡ true
      → (i : Ident × Ident) × (intent ≡ some i) × (entries ≡ some (i ∷ []))
  unfolding is_bound
  task_scoped_lem agents a intent entries dangerous (inl (e, k)) h d =
      absurd (let bad = rw (d, k) at h in cc)
  task_scoped_lem agents a intent entries dangerous (inr (i, url, c, e, _, _, k)) h d = (i, e, k)

  -- A token is exchanged only for a key that is verified. It is for the agent and the organisation of
  -- the key, carries those scopes of the key that are known, lives fifteen minutes, and is tracked with
  -- its expiry in the index of the agent and in that of the key. With a scope that requires it, the
  -- token is bound to the one call of the intent.
  pub exchange_token_issues :
      (q : ExchangeRequest) (w : World r.Store) (resp : ExchangeResponse)
      → (exchange_token r b q w).0 ≡ return resp
      → (info : KeyInfo) × IsExchanged q w (exchange_token r b q w).1 resp info
  unfolding exchange_response exchanged_token create_agent_access_token token_scopes
  exchange_token_issues q w resp h =
      let (info, accepted, m) = exchange_token-return r b q w resp h in
      let token =
        exchanged_token q info
          (resolve_on_behalf_of
            (verify_key b (verify_request q) q.credential w).1.db.on_behalf_of_grants q.now m.agent
            info.scopes)
          m.entries in
      let (by_agent, by_key) =
        track_token_scores info token q.now (verify_key b (verify_request q) q.credential w).1.redis
          (omega arith) in
      let response = m.response in
      let tracked = m.tracked in
      (
        info,
        record {
          verified = verify_key_sound b (verify_request q) q.credential w info accepted;
          owner = (
            ap (λ x. x.access_token.agent_id) response,
            ap (λ x. x.access_token.org_id) response,
          );
          carried = λ s.
              ap (λ x. contains x.access_token.scopes s) response
              ∙ contains-select (contains permission_scopes) info.scopes s;
          expires = ap (λ x. x.access_token.exp) response;
          same_jti = (ap (λ x. x.jti) response, ap (λ x. x.access_token.jti) response);
          in_agent_index =
              ap (r.score (IndexKey.agent_jtis info.agent_id) q.jti) tracked ∙ by_agent;
          in_key_index = ap (r.score (IndexKey.key_jtis info.key_id) q.jti) tracked ∙ by_key;
          task_scoped = λ d.
              let (i, e, k) =
                task_scoped_lem _ m.agent q.intent m.entries (is_dangerous info.scopes) m.bound
                  m.scoping d in
              (i, e, ap (λ x. x.access_token.authorization_details) response ∙ k);
        },
      )
