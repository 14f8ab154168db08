-- ===== src/Tests/Keys.antt =====
-- A key that is issued, rotated and revoked, and the tokens that it is exchanged for, over a hash that
-- leaves a text as it is.
use ai_iam_platform.Prelude.{
  ℕ, ◌*◌, ◌/◌, ◌<◌, ◌≤◌, ◌≡◌, ◌≢◌, refl, String, true, false, none, some, [], ◌∷◌, arith, find,
  select, any, contains, is_subset, ==_refl, ◌==◌, string_eq,
}
use ai_iam_platform.Model.{Ident, micros, Agent, AgentStatus, is_active_status}
use ai_iam_platform.Service.{World, return}
use ai_iam_platform.Revocation.Redis.{IndexKey}
use ai_iam_platform.Revocation.Index.{is_revoked, known}
use ai_iam_platform.Revocation.Sample.{sample_redis}
use ai_iam_platform.Delegation.Grants.{agent_by_id_and_org}
use ai_iam_platform.Agents.Lifecycle.{suspend}
use ai_iam_platform.Keys.Secrets.{Bcrypt, split_compound_key, is_key_expired}
use ai_iam_platform.Keys.Secrets.Split.{has_colon, compound}
use ai_iam_platform.Keys.Verify.{
  get_by_key_id, KeyInfo, VerifyRequest, info_of, match_secret, verify_key,
}
use ai_iam_platform.Keys.Verify.Sound.{IsVerified, verify_key_sound, verdict}
use ai_iam_platform.Keys.Verify.Named.{row_verdict}
use ai_iam_platform.Keys.Manage.{
  IssueRequest, KeyFresh, issued_of, issue_key, RotateRequest, rotate_key, RevokeKeyRequest,
  revoke_key,
}
use ai_iam_platform.Keys.Manage.Issued.{identity, issue_key-verify_key}
use ai_iam_platform.Keys.Manage.Revoked.{revoke_key_stops}
use ai_iam_platform.Exchange.{
  ExchangeRequest, ExchangeResponse, AccessToken, is_dangerous, exchange_token,
}
use ai_iam_platform.Exchange.Issued.{IsExchanged, exchange_token_issues}
use ai_iam_platform.Exchange.Served.{IsLiveKey, suspend-exchange_token}
use ai_iam_platform.Tests.{agent_of}
use ai_iam_platform.Tests.Agents.{sample_key, lone_world, lifecycle_request}

abbrev pub sample_bcrypt : Bcrypt
sample_bcrypt = record {
  checkpw = λ p h. p == h;
  hashpw = λ p salt. p;
  checkpw-hashpw = λ p salt short. ==_refl p;
}

abbrev pub key_world : World sample_redis.Store
key_world = lone_world (agent_of 1)

abbrev sample_verify : VerifyRequest
sample_verify = record { causal_trace_id = 8; org_id = none; unknown = 99; now = 20_000_000 }

abbrev sample_info : KeyInfo
sample_info = record {
  agent_id = 1;
  org_id = 9;
  scopes = "tool:execute" ∷ [];
  key_id = "kid_1";
  using_grace_key = false;
}

verify_run :
    (verify_key sample_bcrypt sample_verify "kid_1:aiiam_a" key_world).0 ≡ return (some sample_info)
unfolding verify_key find
verify_run = refl

verify_key_sound_example :
    IsVerified sample_bcrypt
      (sample_key ∷ [])
      sample_verify
      (split_compound_key "kid_1:aiiam_a")
      sample_info
verify_key_sound_example =
    verify_key_sound sample_bcrypt sample_verify "kid_1:aiiam_a" key_world sample_info verify_run

abbrev key_fresh : KeyFresh
key_fresh = record {
  id = 302;
  entropy = record { secret_hex = "b"; id_hex = "2"; salt = "s" };
  trace_id = 8;
  now = 10_500_000;
}

abbrev issue_request : IssueRequest
issue_request = record {
  agent_id = 1;
  org_id = 9;
  scopes = "delegate" ∷ [];
  ttl_days = some 1;
  actor_id = 5;
}

issue_run :
    (issue_key sample_bcrypt issue_request key_fresh key_world).0
    ≡ return (issued_of issue_request key_fresh)
unfolding issue_key find is_subset contains
issue_run = refl

new_id_free : get_by_key_id key_world.db.api_keys "kid_2" ≡ none
unfolding get_by_key_id find
new_id_free = refl

plain_hex : has_colon "2" ≡ false
unfolding has_colon
plain_hex = refl

issue_key-verify_key_example :
    ((a : Agent) × (agent_by_id_and_org key_world.db.agents 1 9 ≡ some a)
      × (is_active_status a.status ≡ true)
      × (is_subset ("delegate" ∷ []) a.allowed_scopes ≡ true))
    × ((verify_key sample_bcrypt sample_verify
          (compound
            (issued_of issue_request key_fresh).key_id
            (issued_of issue_request key_fresh).plaintext_key)
          (issue_key sample_bcrypt issue_request key_fresh key_world).1).0
        ≡ return (some (identity issue_request (issued_of issue_request key_fresh).key_id)))
unfolding issued_of
issue_key-verify_key_example =
    issue_key-verify_key sample_bcrypt issue_request key_fresh key_world
      (issued_of issue_request key_fresh) sample_verify issue_run new_id_free plain_hex
      (omega arith) (omega arith)

abbrev rotate_request : RotateRequest
rotate_request = record { key_id = "kid_1"; org_id = 9; actor_id = 5; grace_period_hours = 1 }

abbrev rotated_world : World sample_redis.Store
rotated_world = (rotate_key sample_bcrypt rotate_request key_fresh key_world).1

abbrev revoke_request : RevokeKeyRequest
revoke_request = record {
  key_id = "kid_1";
  org_id = 9;
  actor_id = 5;
  reason = "test";
  trace_id = 8;
  now = 10_500_000;
}

revoke_key_run : (revoke_key sample_redis revoke_request key_world).0 ≡ return true
unfolding revoke_key find
revoke_key_run = refl

revoke_key_stops_example :
    ((v : VerifyRequest) (plaintext : String) (info : KeyInfo)
      → (verify_key sample_bcrypt v plaintext
          (revoke_key sample_redis revoke_request key_world).1).0
        ≡ return (some info)
      → info.key_id ≢ "kid_1")
    × ((j : Ident) (e t : ℕ)
        → sample_redis.score (IndexKey.key_jtis "kid_1") j key_world.redis ≡ some e
        → 10_500_000 / micros ≤ e
        → t < e * micros
        → is_revoked sample_redis true j t
            (revoke_key sample_redis revoke_request key_world).1.redis
          ≡ known true)
revoke_key_stops_example =
    revoke_key_stops sample_redis sample_bcrypt revoke_request key_world revoke_key_run

abbrev pub exchange_request : ExchangeRequest
exchange_request = record {
  grant_type = "api_key";
  credential = "kid_1:aiiam_a";
  causal_trace_id = 8;
  intent = none;
  unknown = 99;
  jti = 402;
  now = 20_000_000;
}

abbrev sample_access_token : AccessToken
sample_access_token = record {
  agent_id = 1;
  org_id = 9;
  scopes = "tool:execute" ∷ [];
  causal_trace_id = 8;
  parent_agent_id = none;
  delegation_depth = 0;
  resource = none;
  on_behalf_of = none;
  authorization_details = none;
  iat = 20;
  exp = 920;
  jti = 402;
}

abbrev pub sample_response : ExchangeResponse
sample_response = record {
  access_token = sample_access_token;
  expires_in = 900;
  jti = 402;
  scopes = "tool:execute" ∷ [];
  causal_trace_id = 8;
  on_behalf_of = none;
  authorization_details = none;
}

pub exchange_run :
    (exchange_token sample_redis sample_bcrypt exchange_request key_world).0
    ≡ return sample_response
unfolding exchange_token find any contains select
exchange_run = refl

exchange_token_issues_example :
    (info : KeyInfo) × IsExchanged sample_redis sample_bcrypt exchange_request key_world
      (exchange_token sample_redis sample_bcrypt exchange_request key_world).1
      sample_response
      info
exchange_token_issues_example =
    exchange_token_issues sample_redis sample_bcrypt exchange_request key_world sample_response
      exchange_run

suspended_agent_run :
    (suspend sample_redis lifecycle_request key_world).0
    ≡ return (record (agent_of 1) { status = AgentStatus.suspended })
unfolding suspend find
suspended_agent_run = refl

live_key : IsLiveKey sample_bcrypt exchange_request key_world sample_info
unfolding split_compound_key row_verdict get_by_key_id find verdict is_key_expired match_secret
    info_of is_dangerous any contains
live_key = record {
  key_id = "kid_1";
  secret = "aiiam_a";
  api_key = refl;
  parts = refl;
  accepted = refl;
  no_intent = refl;
  harmless = refl;
}

suspend-exchange_token_example :
    (resp : ExchangeResponse) × ((exchange_token sample_redis sample_bcrypt exchange_request
        (suspend sample_redis lifecycle_request key_world).1).0
      ≡ return resp)
    × (resp.access_token.agent_id ≡ 1)
suspend-exchange_token_example =
    suspend-exchange_token sample_redis sample_bcrypt lifecycle_request exchange_request key_world
      sample_info (record (agent_of 1) { status = AgentStatus.suspended }) suspended_agent_run
      live_key refl refl
