-- ===== src/Exchange/Served.antt =====
-- When an exchange succeeds, which does not hang on the status of the agent.
use ai_iam_platform.Prelude.{
  ℕ, ◌≡◌, ◌∙◌, refl, ap, String, true, false, Option, none, some, ◌&&◌, ◌==◌, ℕ_eq, string_eq,
  find-update_where, if◌then◌else◌,
}
use ai_iam_platform.Model.{Agent, AgentStatus}
use ai_iam_platform.Service.{World, return}
use ai_iam_platform.Revocation.Redis.{Redis}
use ai_iam_platform.Delegation.Grants.{agent_by_id_and_org}
use ai_iam_platform.Agents.Rows.{update_status, update_agent, with_status}
use ai_iam_platform.Agents.Human.{resolve_on_behalf_of}
use ai_iam_platform.Agents.Lifecycle.{AgentRequest, suspend}
use ai_iam_platform.Agents.Lifecycle.Sealed.{suspend-return}
use ai_iam_platform.Keys.Secrets.{Bcrypt, split_compound_key}
use ai_iam_platform.Keys.Verify.{get_by_key_id, KeyInfo, verify_key}
use ai_iam_platform.Keys.Verify.Named.{row_verdict, verify_key_named}
use ai_iam_platform.Exchange.{
  ExchangeRequest, ExchangeResponse, verify_request, is_dangerous, exchanged_token,
  exchange_response, create_agent_access_token, check_intent, require_key, mint, track_token,
  exchange_verified, exchange_api_key, exchange_token,
}
use ai_iam_platform.Exchange.Keeps.{verify_key-IsKept}
use ai_iam_platform.Exchange.Minted.{committed_world, record_human_keeps}

-- A credential of a live key, for scopes that need no intent.
pub record IsLiveKey {S : Type 0} (b : Bcrypt) (q : ExchangeRequest) (w : World S) (info : KeyInfo)
    : Type 0 where
  pub key_id : String
  pub secret : String
  pub api_key : (q.grant_type == "api_key") ≡ true
  pub parts : split_compound_key q.credential ≡ (some key_id, secret)
  pub accepted : row_verdict b (get_by_key_id w.db.api_keys key_id) secret q.now ≡ some info
  pub no_intent : q.intent ≡ none
  pub harmless : is_dangerous info.scopes ≡ false

module _ (r : Redis) (b : Bcrypt) where
  mint_serves :
      (q : ExchangeRequest) (info : KeyInfo) (human : Option ℕ) (w : World r.Store)
      → is_dangerous info.scopes ≡ false
      → (mint r b q info human none w).0
        ≡ return (exchange_response q info (exchanged_token q info human none))
  unfolding mint
  mint_serves q info human w h =
      let w' : World r.Store = record w {
        redis = track_token r b info (exchanged_token q info human none) q.now w.redis;
      } in
      rw (h, (record_human_keeps r b q info human w').0) refl

  exchange_verified_serves :
      (q : ExchangeRequest) (info : KeyInfo) (a : Agent) (w : World r.Store)
      → agent_by_id_and_org w.db.agents info.agent_id info.org_id ≡ some a
      → q.intent ≡ none
      → is_dangerous info.scopes ≡ false
      → (exchange_verified r b q info w).0
        ≡ return (
            exchange_response q info (
              exchanged_token q info
                (resolve_on_behalf_of w.db.on_behalf_of_grants q.now a info.scopes)
                none))
  unfolding exchange_verified
  exchange_verified_serves q info a w found no_intent harmless =
      rw (found, no_intent, check_intent)
        (mint_serves q info (resolve_on_behalf_of w.db.on_behalf_of_grants q.now a info.scopes) w
          harmless)

  -- An exchange for a live key, with no intent and no scope that needs one, returns a token for the
  -- agent of the key, whatever the status of the agent.
  pub exchange_token_serves :
      (q : ExchangeRequest) (w : World r.Store) (info : KeyInfo) (a : Agent)
      → IsLiveKey b q w info
      → agent_by_id_and_org w.db.agents info.agent_id info.org_id ≡ some a
      → (exchange_token r b q w).0
        ≡ return (
            exchange_response q info (
              exchanged_token q info
                (resolve_on_behalf_of w.db.on_behalf_of_grants q.now a info.scopes)
                none))
  unfolding exchange_token exchange_api_key verify_request
  exchange_token_serves q w info a live found =
      let v = verify_key b (verify_request q) q.credential w in
      let kept = verify_key-IsKept b (verify_request q) q.credential w in
      let answer : v.0 ≡ return (some info) =
        verify_key_named b (verify_request q) q.credential live.key_id live.secret w live.parts
        ∙ ap return live.accepted in
      let found' : agent_by_id_and_org v.1.db.agents info.agent_id info.org_id ≡ some a =
        ap (λ agents. agent_by_id_and_org agents info.agent_id info.org_id) kept.same_agents
        ∙ found in
      let same_human : resolve_on_behalf_of v.1.db.on_behalf_of_grants q.now a info.scopes
          ≡ resolve_on_behalf_of w.db.on_behalf_of_grants q.now a info.scopes =
        ap (λ g. resolve_on_behalf_of g q.now a info.scopes) kept.same_grants in
      rw (live.api_key, answer, require_key)
        (exchange_verified_serves q info a (committed_world r b v.1) found' live.no_intent
            live.harmless
          ∙ ap (λ human. return (exchange_response q info (exchanged_token q info human none)))
              same_human)

  -- After a suspension that returns, a compound credential of the agent that verified before it against
  -- the row of its key id is still exchanged for a new token of the agent, by a request with the grant
  -- type `api_key` and no intent, where no scope of the key is one that needs an intent.
  pub suspend-exchange_token :
      (s : AgentRequest) (q : ExchangeRequest) (w : World r.Store) (info : KeyInfo) (a : Agent)
      → (suspend r s w).0 ≡ return a
      → IsLiveKey b q w info
      → info.agent_id ≡ s.agent_id
      → info.org_id ≡ s.org_id
      → (resp : ExchangeResponse) × ((exchange_token r b q (suspend r s w).1).0 ≡ return resp)
        × (resp.access_token.agent_id ≡ s.agent_id)
  unfolding update_status update_agent exchange_response exchanged_token create_agent_access_token
      agent_by_id_and_org
  suspend-exchange_token s q w info a h live named owned =
      let (x, found, _, _, rows) = suspend-return r s w a h in
      let live' : IsLiveKey b q (suspend r s w).1 info = record {
        key_id = live.key_id;
        secret = live.secret;
        api_key = live.api_key;
        parts = live.parts;
        accepted =
            ap (λ d. row_verdict b (get_by_key_id d.api_keys live.key_id) live.secret q.now) rows
            ∙ live.accepted;
        no_intent = live.no_intent;
        harmless = live.harmless;
      } in
      let found' : agent_by_id_and_org (suspend r s w).1.db.agents info.agent_id info.org_id
          ≡ some (if x.id == s.agent_id then with_status AgentStatus.suspended x else x) =
        ap (λ d. agent_by_id_and_org d.agents info.agent_id info.org_id) rows
        ∙ find-update_where (λ y. (y.id == info.agent_id) && (y.org_id == info.org_id))
            (λ y. y.id == s.agent_id) (with_status AgentStatus.suspended) w.db.agents x (λ y. refl)
            (rw (named, owned) found) in
      (_, exchange_token_serves q (suspend r s w).1 info _ live' found', named)
