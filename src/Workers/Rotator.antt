-- ===== src/Workers/Rotator.antt =====
-- The two loops of backend/app/worker/credential_rotator.py. `locked` is what `try_acquire` answers,
-- and a request for each row stands for what `uuid4`, the random source and the clock give. The times
-- of creation are a column that no other operation reads, and enter as a function.
pub mod Reaped
use ai_iam_platform.Prelude.{
  ℕ, zero, suc, ◌*◌, ◌-◌, ◌≡◌, String, Bool, true, false, Option, none, some, List, [], ◌∷◌, ◌&&◌,
  select, length, leb, if◌then◌else◌, not, ◌++◌, update_where, ◌==◌, ℕ_eq, string_eq,
}
use ai_iam_platform.Model.{Ident, micros, Agent, AgentStatus, ApiKey}
use ai_iam_platform.Service.{
  Db, World, HttpError, Result, return, raise, Method, pure, and_then, ◌>>=◌, ◌>>◌, gets, commit,
  guard, modify_db, append_audit, http_error, or_error, with_session,
}
use ai_iam_platform.Revocation.Redis.{Redis, IndexKey}
use ai_iam_platform.Agents.Rows.{
  get_expiring_ephemeral, same_status, deactivate_key, update_status, get_active_keys_for_agent,
}
use ai_iam_platform.Agents.Lifecycle.{
  AgentRequest, require_agent, revoke_index, key_event, decommission,
}
use ai_iam_platform.Keys.Secrets.{Bcrypt}
use ai_iam_platform.Keys.Manage.{KeyFresh, RotateRequest, RotatedKey, rotate_key, default_ttl_days}

module _ {S : Type 0} where
  -- `try` with `except Exception`: what has been written stays, and the error is a value.
  unfoldable pub attempt : {A : Type 0} → Method S A → Method S (Result A)
  attempt m w = let (r, w') = m w in (return r, w')

-- The summary of a run of the reaper.
pub record ReapSummary : Type 0 where
  pub decommissioned : List Ident
  pub errors : List (Ident × HttpError)
  pub skipped : Bool

unfoldable pub note_reaped : Ident → Result Agent → ReapSummary → ReapSummary
note_reaped i (return a) s = record s { decommissioned = i ∷ s.decommissioned }
note_reaped i (raise e) s = record s { errors = (i, e) ∷ s.errors }

unfoldable pub nothing_reaped : Bool → ReapSummary
nothing_reaped skipped = record { decommissioned = []; errors = []; skipped = skipped }

-- Where Redis fails in a call of `decommission`: after how many revocations of an index, and what the
-- failing one has done to the store.
pub record Cut (S : Type 0) : Type 0 where
  pub revocations : ℕ
  pub left_by : S → S

-- What a call of the reaper takes for the call on one agent: the identifiers of its own texts, a trace,
-- the clock, and where Redis fails, if it does.
pub record ReaperFresh (S : Type 0) : Type 0 where
  pub reaper : Ident
  pub process : Ident
  pub trace_of : Ident → Ident
  pub now : ℕ
  pub cut_of : Ident → Option (Cut S)

unfoldable pub reaper_request : {S : Type 0} → ReaperFresh S → Agent → AgentRequest
reaper_request f a = record {
  agent_id = a.id;
  org_id = a.org_id;
  actor_id = f.reaper;
  reason = "ephemeral_ttl_expired";
  trace_id = f.trace_of a.id;
  now = f.now;
}

module _ (r : Redis) where
  -- The error of Redis, which leaves what was written before it.
  unfoldable pub redis_fails : {A : Type 0} → (r.Store → r.Store) → Method r.Store A
  redis_fails left_by w = (
    raise (record { status_code = 500; detail = "RedisError" }),
    record w { redis = left_by w.redis },
  )

  -- `decommission` from its loop on, up to the revocation at which Redis fails: in the loop the key
  -- of that revocation is already inactive, and at the end the agent is already decommissioned.
  unfoldable pub revoke_until :
      AgentRequest → Ident → (r.Store → r.Store) → ℕ → List ApiKey → Method r.Store Agent
  unfolding redis_fails deactivate_key revoke_index key_event update_status
  revoke_until q process left_by n [] = do
    modify_db (update_status q.agent_id AgentStatus.decommissioned)
    redis_fails left_by
  revoke_until q process left_by zero (k ∷ keys) = do
    modify_db (deactivate_key k.key_id)
    redis_fails left_by
  revoke_until q process left_by (suc n) (k ∷ keys) = do
    modify_db (deactivate_key k.key_id)
    revoke_index r (IndexKey.key_jtis k.key_id) q.now
    append_audit (key_event r q process k.key_id)
    revoke_until q process left_by n keys

  unfoldable pub decommission_until : Cut r.Store → Ident → AgentRequest → Method r.Store Agent
  unfolding require_agent same_status get_active_keys_for_agent revoke_until
  decommission_until cut process q = do
    agent ← require_agent q
    guard (not (same_status agent.status AgentStatus.decommissioned)) 422
        "Agent already decommissioned"
    keys ← gets (λ w. get_active_keys_for_agent w.db.api_keys q.agent_id)
    revoke_until q process cut.left_by cut.revocations keys

  unfoldable pub decommission_with :
      Option (Cut r.Store) → Ident → AgentRequest → Method r.Store Agent
  unfolding decommission decommission_until
  decommission_with none process q = decommission r process q
  decommission_with (some cut) process q = decommission_until cut process q

  unfoldable pub reap_agent : ReaperFresh r.Store → Agent → Method r.Store Agent
  unfolding reaper_request decommission_with
  reap_agent f a = decommission_with (f.cut_of a.id) f.process (reaper_request f a)

  -- The `for` loop: an error of one agent does not keep the next from its turn.
  unfoldable pub reap_agents : ReaperFresh r.Store → List Agent → Method r.Store ReapSummary
  unfolding attempt reap_agent note_reaped nothing_reaped
  reap_agents f [] = pure (nothing_reaped false)
  reap_agents f (a ∷ agents) = do
    result ← attempt (reap_agent f a)
    rest ← reap_agents f agents
    pure (note_reaped a.id result rest)

  unfoldable pub decommission_expired_ephemeral_agents :
      Bool → ReaperFresh r.Store → Method r.Store ReapSummary
  unfolding get_expiring_ephemeral reap_agents nothing_reaped
  decommission_expired_ephemeral_agents false f = do commit; pure (nothing_reaped true)
  decommission_expired_ephemeral_agents true f = do
    expired ← gets (λ w. get_expiring_ephemeral w.db.agents f.now)
    summary ← reap_agents f expired
    commit
    pure summary

-- `should_rotate_key`: the last fifth of the time to live, in exact arithmetic.
unfoldable pub should_rotate_key : ℕ → ℕ → ℕ → Bool
should_rotate_key created_at ttl_days now =
    leb (ttl_days * 86_400 * micros * 8) ((now - created_at) * 10)

unfoldable pub has_expiry : ApiKey → Bool
has_expiry k = elim k.expires_at [ none ↦ false | some t ↦ true ]

unfoldable pub get_keys_needing_rotation : (ApiKey → ℕ) → List ApiKey → ℕ → List ApiKey
unfolding should_rotate_key has_expiry
get_keys_needing_rotation created_at keys now =
    select (λ k. should_rotate_key (created_at k) default_ttl_days now)
      (select (λ k. k.is_active && has_expiry k) keys)

-- One rotated key of the summary: the old and the new key id, and the agent. The new plaintext is in no
-- part of it.
pub record Rotation : Type 0 where
  pub old_key_id : String
  pub new_key_id : String
  pub agent_id : Ident

pub record RotateSummary : Type 0 where
  pub rotated : List Rotation
  pub errors : List (String × HttpError)
  pub skipped : Bool

unfoldable pub note_rotated : ApiKey → Result RotatedKey → RotateSummary → RotateSummary
note_rotated k (return x) s = record s {
  rotated =
      record { old_key_id = k.key_id; new_key_id = x.key_id; agent_id = k.agent_id } ∷ s.rotated;
}
note_rotated k (raise e) s = record s { errors = (k.key_id, e) ∷ s.errors }

unfoldable pub nothing_rotated : Bool → RotateSummary
nothing_rotated skipped = record { rotated = []; errors = []; skipped = skipped }

pub record RotatorFresh : Type 0 where
  pub rotator : Ident
  pub fresh_of : String → KeyFresh
  pub created_at : ApiKey → ℕ
  pub now : ℕ

unfoldable pub rotator_request : RotatorFresh → ApiKey → RotateRequest
rotator_request f k = record {
  key_id = k.key_id;
  org_id = k.org_id;
  actor_id = f.rotator;
  grace_period_hours = 2;
}

module _ {S : Type 0} (b : Bcrypt) where
  unfoldable pub rotate_keys : RotatorFresh → List ApiKey → Method S RotateSummary
  unfolding attempt rotator_request rotate_key note_rotated nothing_rotated
  rotate_keys f [] = pure (nothing_rotated false)
  rotate_keys f (k ∷ keys) = do
    result ← attempt (rotate_key b (rotator_request f k) (f.fresh_of k.key_id))
    rest ← rotate_keys f keys
    pure (note_rotated k result rest)

  unfoldable pub rotate_expiring_keys : Bool → RotatorFresh → Method S RotateSummary
  unfolding get_keys_needing_rotation rotate_keys nothing_rotated
  rotate_expiring_keys false f = do commit; pure (nothing_rotated true)
  rotate_expiring_keys true f = do
    keys ← gets (λ w. get_keys_needing_rotation f.created_at w.db.api_keys f.now)
    summary ← rotate_keys f keys
    commit
    pure summary
