-- ===== src/Keys/Manage.antt =====
-- `issue_key`, `rotate_key` and `revoke_key` (backend/app/services/api_key_service.py).
pub mod Issued
pub mod Rotated
pub mod Revoked
use Prim.Native.String.{◌++◌ as join}
use ai_iam_platform.Prelude.{
  ℕ, ◌+◌, ◌*◌, String, Bool, true, false, Option, none, some, List, [], ◌∷◌, ◌++◌, ◌&&◌, ◌==◌, ℕ_eq,
  string_eq, is_subset, contains, update_where, find, if◌then◌else◌,
}
use ai_iam_platform.Model.{
  Ident, Scope, micros, Agent, is_active_status, ApiKey, AuditEvent, AuditAction, Detail, Details,
}
use ai_iam_platform.Service.{
  Db, World, HttpError, Result, return, raise, Method, pure, http_error, and_then, ◌>>=◌, ◌>>◌,
  gets, guard, append_audit, modify_db, or_error,
}
use ai_iam_platform.Revocation.Redis.{Redis, IndexKey}
use ai_iam_platform.Delegation.Grants.{agent_by_id_and_org}
use ai_iam_platform.Agents.Rows.{update_key, deactivate_key}
use ai_iam_platform.Agents.Lifecycle.{revoke_index}
use ai_iam_platform.Keys.Secrets.{
  Bcrypt, Entropy, plaintext_of, generate_api_key, generate_key_id, key_hint_of,
}
use ai_iam_platform.Keys.Verify.{get_by_key_id}

-- A day in microseconds, and `settings.API_KEY_DEFAULT_TTL_DAYS`.
abbrev pub day : ℕ
day = 86_400 * micros

abbrev pub hour : ℕ
hour = 3_600 * micros

abbrev pub default_ttl_days : ℕ
default_ttl_days = 30

-- `ttl_days or settings.API_KEY_DEFAULT_TTL_DAYS`
unfoldable pub ttl_or_default : Option ℕ → ℕ
ttl_or_default none = default_ttl_days
ttl_or_default (some ttl) = if ttl == 0 then default_ttl_days else ttl

-- What a call takes from `uuid4`, from the random source and from the clock, in microseconds.
pub record KeyFresh : Type 0 where
  pub id : Ident
  pub entropy : Entropy
  pub trace_id : Ident
  pub now : ℕ

pub record IssueRequest : Type 0 where
  pub agent_id : Ident
  pub org_id : Ident
  pub scopes : List Scope
  pub ttl_days : Option ℕ
  pub actor_id : Ident

-- The dictionary that is returned: the plaintext is in no row.
pub record IssuedKey : Type 0 where
  pub id : Ident
  pub plaintext_key : String
  pub key_id : String
  pub key_hint : String
  pub scopes : List Scope
  pub expires_at : ℕ

unfoldable pub key_expiry : IssueRequest → KeyFresh → ℕ
unfolding ttl_or_default
key_expiry q f = f.now + ttl_or_default q.ttl_days * day

-- The hint of a key as it is shown, `...` and the last characters.
unfoldable pub shown_hint : String → String
unfolding key_hint_of
shown_hint plaintext = join "..." (key_hint_of plaintext)

unfoldable pub issued_of : IssueRequest → KeyFresh → IssuedKey
unfolding plaintext_of generate_key_id shown_hint key_expiry
issued_of q f = record {
  id = f.id;
  plaintext_key = plaintext_of f.entropy;
  key_id = generate_key_id f.entropy;
  key_hint = shown_hint (plaintext_of f.entropy);
  scopes = q.scopes;
  expires_at = key_expiry q f;
}

unfoldable pub new_key : Bcrypt → KeyFresh → Ident → Ident → List Scope → ℕ → ApiKey
unfolding generate_key_id generate_api_key key_hint_of
new_key b f agent org scopes expires_at =
    let (plaintext, hashed) = generate_api_key b f.entropy in
    record {
      id = f.id;
      agent_id = agent;
      org_id = org;
      key_id = generate_key_id f.entropy;
      hashed_secret = hashed;
      key_hint = key_hint_of plaintext;
      scopes = scopes;
      is_active = true;
      expires_at = some expires_at;
      last_used_at = none;
      use_count = 0;
      rotated_at = none;
      rotated_from_id = none;
      previous_hashed_secret = none;
      previous_key_expires_at = none;
    }

unfoldable pub credential_event : AuditAction → Ident → Ident → Ident → Ident → Details → AuditEvent
credential_event action org actor agent trace details = record {
  org_id = org;
  action = action;
  actor_type = "user";
  actor_id = actor;
  agent_id = some agent;
  causal_trace_id = trace;
  outcome = "success";
  resource_id = none;
  details = details;
}

abbrev pub insert_key : ApiKey → Db → Db
insert_key k db = record db { api_keys = db.api_keys ++ (k ∷ []) }

pub record RotateRequest : Type 0 where
  pub key_id : String
  pub org_id : Ident
  pub actor_id : Ident
  pub grace_period_hours : ℕ

pub record RotatedKey : Type 0 where
  pub plaintext_key : String
  pub key_id : String
  pub key_hint : String
  pub rotated_from : String
  pub grace_expires_at : ℕ

unfoldable pub rotated_of : RotateRequest → KeyFresh → RotatedKey
unfolding plaintext_of generate_key_id shown_hint
rotated_of q f = record {
  plaintext_key = plaintext_of f.entropy;
  key_id = generate_key_id f.entropy;
  key_hint = shown_hint (plaintext_of f.entropy);
  rotated_from = q.key_id;
  grace_expires_at = f.now + q.grace_period_hours * hour;
}

-- The new row of a rotation, with the hash of the old one in its grace slot.
unfoldable pub successor : Bcrypt → RotateRequest → KeyFresh → ApiKey → ApiKey
unfolding new_key
successor b q f old =
    record (new_key b f old.agent_id q.org_id old.scopes (f.now + default_ttl_days * day)) {
      rotated_from_id = some old.id;
      previous_hashed_secret = some old.hashed_secret;
      previous_key_expires_at = some (f.now + q.grace_period_hours * hour);
    }

unfoldable pub retired : ℕ → ApiKey → ApiKey
retired now k = record k { is_active = false; rotated_at = some now }

unfoldable pub store_rotation : String → ApiKey → ℕ → Db → Db
unfolding update_key retired
store_rotation old_key_id new now db = update_key old_key_id (retired now) (insert_key new db)

pub record RevokeKeyRequest : Type 0 where
  pub key_id : String
  pub org_id : Ident
  pub actor_id : Ident
  pub reason : String
  pub trace_id : Ident
  pub now : ℕ

-- `not key or key.org_id != org_id`
unfoldable pub of_org : Ident → Option ApiKey → Option ApiKey
of_org org none = none
of_org org (some k) = if k.org_id == org then some k else none

unfoldable pub key_of_org : List ApiKey → String → Ident → Option ApiKey
unfolding get_by_key_id of_org
key_of_org keys key_id org = of_org org (get_by_key_id keys key_id)

module _ {S : Type 0} (b : Bcrypt) where
  unfoldable pub issue_key : IssueRequest → KeyFresh → Method S IssuedKey
  unfolding agent_by_id_and_org is_active_status new_key credential_event issued_of key_expiry
  issue_key q f = do
    agents ← gets (λ w. w.db.agents)
    agent ← or_error (agent_by_id_and_org agents q.agent_id q.org_id) 404 "Agent not found"
    guard (is_active_status agent.status) 422 "Can only issue keys for ACTIVE agents"
    guard (is_subset q.scopes agent.allowed_scopes) 422
        "Requested scopes exceed agent's allowed scopes"
    modify_db (insert_key (new_key b f q.agent_id q.org_id q.scopes (key_expiry q f)))
    append_audit (
        credential_event AuditAction.credential_issued q.org_id q.actor_id q.agent_id f.trace_id (
          ("key_id", Detail.text (generate_key_id f.entropy))
          ∷ ("key_hint", Detail.text (shown_hint (plaintext_of f.entropy)))
          ∷ ("scopes", Detail.scopes q.scopes)
          ∷ ("expires_at", Detail.number (key_expiry q f))
          ∷ []))
    pure (issued_of q f)

  unfoldable pub rotate_key : RotateRequest → KeyFresh → Method S RotatedKey
  unfolding key_of_org successor store_rotation credential_event rotated_of generate_key_id
  rotate_key q f = do
    keys ← gets (λ w. w.db.api_keys)
    old ← or_error (key_of_org keys q.key_id q.org_id) 404 "Key not found"
    guard old.is_active 422 "Key is already inactive"
    modify_db (store_rotation q.key_id (successor b q f old) f.now)
    append_audit (
        credential_event AuditAction.credential_rotated q.org_id q.actor_id old.agent_id f.trace_id
          (("old_key_id", Detail.text q.key_id)
            ∷ ("new_key_id", Detail.text (generate_key_id f.entropy))
            ∷ ("grace_period_hours", Detail.number q.grace_period_hours)
            ∷ ("grace_expires_at", Detail.number (f.now + q.grace_period_hours * hour))
            ∷ []))
    pure (rotated_of q f)

module _ (r : Redis) where
  unfoldable pub revoke_key : RevokeKeyRequest → Method r.Store Bool
  unfolding key_of_org deactivate_key revoke_index credential_event
  revoke_key q = do
    keys ← gets (λ w. w.db.api_keys)
    key ← or_error (key_of_org keys q.key_id q.org_id) 404 "Key not found"
    modify_db (deactivate_key q.key_id)
    n ← revoke_index r (IndexKey.key_jtis q.key_id) q.now
    append_audit (
        credential_event AuditAction.credential_revoked q.org_id q.actor_id key.agent_id q.trace_id
          (("key_id", Detail.text q.key_id)
            ∷ ("reason", Detail.text q.reason)
            ∷ ("tokens_revoked", Detail.number n)
            ∷ []))
    pure true
