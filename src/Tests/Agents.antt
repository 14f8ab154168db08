-- ===== src/Tests/Agents.antt =====
-- The life cycle of a small agent with one key, its registration and its human.
use ai_iam_platform.Prelude.{
  ℕ, ◌*◌, ◌+◌, ◌≡◌, ◌⊎◌, ◌∙◌, inl, inr, refl, sym, true, false, none, some, List, [], ◌∷◌, ◌++◌,
  arith, In, All, find, select, update_where, Bool-cases, string_eq, ◌==◌,
}
use ai_iam_platform.Model.{micros, Agent, AgentStatus, ApiKey, OnBehalfOfGrant}
use ai_iam_platform.Service.{World, HttpError, return, raise}
use ai_iam_platform.Revocation.Redis.{IndexKey, same_key}
use ai_iam_platform.Revocation.Index.{is_revoked, known}
use ai_iam_platform.Revocation.Persist.{IsBefore}
use ai_iam_platform.Revocation.Sample.{sample_redis}
use ai_iam_platform.Agents.Register.{Urls, RegisterRequest, register, registration_event}
use ai_iam_platform.Agents.Register.Bindings.{
  IsAllowedBinding, IsParent, IsRequested, register_admits,
}
use ai_iam_platform.Agents.Lifecycle.{
  AgentRequest, suspend, decommission, activate, jit_activate, jit_activated,
}
use ai_iam_platform.Agents.Lifecycle.Sealed.{decommission_revokes, decommission_deactivates}
use ai_iam_platform.Agents.Lifecycle.Machine.{
  IsKeyed, IsStep, Operation, activation, suspension, jit_activation, run, run_all,
}
use ai_iam_platform.Agents.Lifecycle.Runs.{run_refines, run_all_absorbs, decommission-jit_activate}
use ai_iam_platform.Agents.Human.{resolve_on_behalf_of}
use ai_iam_platform.Agents.Human.Resolved.{IsVoucher, resolve_on_behalf_of_cases}
use ai_iam_platform.Tests.{agent_of, sample_db, sample_world}

abbrev pub sample_key : ApiKey
sample_key = record {
  id = 301;
  agent_id = 1;
  org_id = 9;
  key_id = "kid_1";
  hashed_secret = "aiiam_a";
  key_hint = "am_a";
  scopes = "tool:execute" ∷ [];
  is_active = true;
  expires_at = some (9_000 * micros);
  last_used_at = none;
  use_count = 0;
  rotated_at = none;
  rotated_from_id = none;
  previous_hashed_secret = none;
  previous_key_expires_at = none;
}

-- Agent 1 alone, with the key, and the token 401 that was exchanged for it until second 900.
abbrev pub key_store : sample_redis.Store
key_store = ([], (IndexKey.key_jtis "kid_1", 401, 900) ∷ [])

abbrev pub lone_world : Agent → World sample_redis.Store
lone_world a = record sample_world {
  db = record sample_db { agents = a ∷ []; api_keys = sample_key ∷ [] };
  redis = key_store;
}

abbrev pub lifecycle_request : AgentRequest
lifecycle_request = record {
  agent_id = 1;
  org_id = 9;
  actor_id = 5;
  reason = "test";
  trace_id = 8;
  now = 10_500_000;
}

abbrev dead_agent : Agent
dead_agent = record (agent_of 1) { status = AgentStatus.decommissioned }

decommission_run :
    (decommission sample_redis 77 lifecycle_request (lone_world (agent_of 1))).0 ≡ return dead_agent
unfolding decommission find select update_where
decommission_run = refl

key_score : sample_redis.score (IndexKey.key_jtis "kid_1") 401 key_store ≡ some 900
unfolding same_key
key_score = refl

key_store-IsBefore : IsBefore sample_redis 401 20_000_000 key_store
unfolding same_key
key_store-IsBefore (IndexKey.agent_jtis i) d h = absurd (cc)
key_store-IsBefore (IndexKey.key_jtis i) d h = elim (Bool-cases ("kid_1" == i)) [
  | inl e ↦ let same : ◌≡◌ {A = ℕ} 900 d = let k = rw e at h in cc in omega arith
  | inr e ↦ absurd (let k = rw e at h in cc)
]

decommission_revokes_example :
    is_revoked sample_redis true 401 20_000_000
      (decommission sample_redis 77 lifecycle_request (lone_world (agent_of 1))).1.redis
    ≡ known true
decommission_revokes_example =
    decommission_revokes sample_redis 77 lifecycle_request (lone_world (agent_of 1)) dead_agent 401
      900 20_000_000 decommission_run (inr (sample_key, inl refl, refl, refl, key_score))
      (omega arith) key_store-IsBefore

decommission_deactivates_example :
    ((a : Agent)
      → In a (decommission sample_redis 77 lifecycle_request (lone_world (agent_of 1))).1.db.agents
      → a.id ≡ 1
      → a.status ≡ AgentStatus.decommissioned)
    × ((k : ApiKey)
        → In k
            (decommission sample_redis 77 lifecycle_request (lone_world (agent_of 1))).1.db.api_keys
        → k.agent_id ≡ 1
        → k.is_active ≡ false)
decommission_deactivates_example =
    decommission_deactivates sample_redis 77 lifecycle_request (lone_world (agent_of 1)) dead_agent
      decommission_run

pub lone-IsKeyed : (a : Agent) → IsKeyed (a ∷ [])
lone-IsKeyed a x y (inl e) (inl f) same = sym e ∙ f
lone-IsKeyed a x y (inl e) (inr none_left) same = elim none_left [ ]
lone-IsKeyed a x y (inr none_left) place same = elim none_left [ ]

run_refines_example :
    IsKeyed (run sample_redis (suspension lifecycle_request) (lone_world (agent_of 1))).db.agents
    × ((y : Agent)
        → In y (run sample_redis (suspension lifecycle_request) (lone_world (agent_of 1))).db.agents
        → (x : Agent) × In x (agent_of 1 ∷ []) × IsStep x y)
run_refines_example =
    run_refines sample_redis (suspension lifecycle_request) (lone_world (agent_of 1))
      (lone-IsKeyed (agent_of 1))

abbrev attempts : List Operation
attempts =
    activation "spiffe" 5 lifecycle_request
    ∷ jit_activation 6 300 lifecycle_request
    ∷ suspension lifecycle_request
    ∷ []

dead_row : In dead_agent (run_all sample_redis attempts (lone_world dead_agent)).db.agents
unfolding run_all find suspend jit_activate activate
dead_row = inl refl

run_all_absorbs_example :
    (false ≡ false
      → AgentStatus.decommissioned ≡ AgentStatus.decommissioned
      → AgentStatus.decommissioned ≡ AgentStatus.decommissioned)
    × (AgentStatus.decommissioned ≡ AgentStatus.pending
        → AgentStatus.decommissioned ≡ AgentStatus.pending)
run_all_absorbs_example =
    run_all_absorbs sample_redis attempts (lone_world dead_agent) dead_agent dead_agent
      (lone-IsKeyed dead_agent) (inl refl) dead_row refl

abbrev short_lived : Agent
short_lived = record (agent_of 1) { is_ephemeral = true }

abbrev dead_short_lived : Agent
dead_short_lived = record short_lived { status = AgentStatus.decommissioned }

short_lived_run :
    (decommission sample_redis 77 lifecycle_request (lone_world short_lived)).0
    ≡ return dead_short_lived
unfolding decommission find select update_where
short_lived_run = refl

decommission-jit_activate_example :
    (jit_activate 6 300 lifecycle_request
      (decommission sample_redis 77 lifecycle_request (lone_world short_lived)).1).0
    ≡ return (jit_activated (10_500_000 + 300 * micros) dead_short_lived)
decommission-jit_activate_example =
    decommission-jit_activate sample_redis 77 lifecycle_request (lone_world short_lived)
      dead_short_lived 6 300 short_lived_run refl

-- A parser that reads one address, and leaves letters as they are.
abbrev sample_urls : Urls
sample_urls = record {
  urlparse =
      λ url. some (record { scheme = "http"; hostname = some "data-mcp"; has_userinfo = false });
  lower = λ s. s;
}

abbrev sample_registration : RegisterRequest
sample_registration = record {
  org_id = 9;
  name = "child";
  description = none;
  allowed_scopes = "tool:execute" ∷ [];
  mcp_bindings = (agent_of 1).mcp_bindings;
  parent_agent_id = some 1;
  is_ephemeral = false;
  ephemeral_ttl_seconds = none;
  actor_id = 5;
  insert_answers = true;
  agent_id = 11;
  trace_id = 8;
  now = 10_500_000;
}

register_admits_example :
    ((a : Agent) × ((register sample_urls sample_registration sample_world).0 ≡ return a)
      × All (IsAllowedBinding sample_urls) a.mcp_bindings
      × IsParent sample_world.db.agents sample_registration
      × IsRequested sample_registration a
      × ((register sample_urls sample_registration sample_world).1.db
          ≡ record sample_world.db { agents = sample_world.db.agents ++ (a ∷ []) })
      × ((register sample_urls sample_registration sample_world).1.audit
          ≡ sample_world.audit ++ (registration_event sample_registration ∷ [])))
    ⊎ (((e : HttpError) × (register sample_urls sample_registration sample_world
            ≡ (raise e, sample_world)))
        ⊎ ((true ≡ false)
            × ((e : HttpError) × (register sample_urls sample_registration sample_world ≡ (
              raise e,
              record sample_world {
                audit = sample_world.audit ++ (registration_event sample_registration ∷ []);
              },
            )))))
register_admits_example = register_admits sample_urls sample_registration sample_world

abbrev sample_human : OnBehalfOfGrant
sample_human = record {
  id = 501;
  org_id = 9;
  agent_id = 1;
  granted_by_user_id = 5;
  scopes = "tool:execute" ∷ [];
  is_active = true;
  expires_at = 600 * micros;
  revoked_at = none;
  revocation_reason = none;
}

resolve_on_behalf_of_cases_example :
    ((g : OnBehalfOfGrant) × IsVoucher (sample_human ∷ []) 1 10_500_000 ("tool:execute" ∷ []) g
      × (resolve_on_behalf_of (sample_human ∷ []) 10_500_000 (agent_of 1) ("tool:execute" ∷ [])
          ≡ some g.granted_by_user_id))
    ⊎ (((g : OnBehalfOfGrant)
          → ¬ IsVoucher (sample_human ∷ []) 1 10_500_000 ("tool:execute" ∷ []) g)
        × (resolve_on_behalf_of (sample_human ∷ []) 10_500_000 (agent_of 1) ("tool:execute" ∷ [])
            ≡ none))
resolve_on_behalf_of_cases_example =
    resolve_on_behalf_of_cases (sample_human ∷ []) 10_500_000 (agent_of 1) ("tool:execute" ∷ [])
