-- ===== src/Keys/Verify.antt =====
-- `verify_key` (backend/app/services/api_key_service.py), with the rows of
-- backend/app/repositories/api_key_repo.py. A text that stands for an actor has an identifier; the one
-- of `unknown` is an argument.
pub mod Sound
pub mod Named
use ai_iam_platform.Prelude.{
  ℕ, suc, ◌+◌, String, Bool, true, false, Option, none, some, List, [], ◌∷◌, ◌++◌, ◌&&◌, ◌==◌, not,
  ℕ_eq, string_eq, select, find, if◌then◌else◌,
}
use text.Mathlib.Text.{starts_with}
use ai_iam_platform.Model.{Ident, Scope, ApiKey, AuditEvent, AuditAction, Detail, Details}
use ai_iam_platform.Service.{
  Db, World, Result, return, raise, Method, pure, and_then, ◌>>=◌, ◌>>◌, gets, append_audit,
  modify_db,
}
use ai_iam_platform.Agents.Rows.{update_key}
use ai_iam_platform.Keys.Secrets.{Bcrypt, api_key_prefix, is_key_expired, split_compound_key}

unfoldable pub get_by_key_id : List ApiKey → String → Option ApiKey
get_by_key_id keys key_id = find (λ k. k.key_id == key_id) keys

unfoldable pub used_at : ℕ → ApiKey → ApiKey
used_at now k = record k { last_used_at = some now; use_count = suc k.use_count }

unfoldable pub record_usage : String → ℕ → Db → Db
unfolding update_key used_at
record_usage key_id now = update_key key_id (used_at now)

pub record KeyInfo : Type 0 where
  pub agent_id : Ident
  pub org_id : Ident
  pub scopes : List Scope
  pub key_id : String
  pub using_grace_key : Bool

pub record VerifyRequest : Type 0 where
  pub causal_trace_id : Ident
  pub org_id : Option Ident
  pub unknown : Ident
  pub now : ℕ

-- How a secret matches a row: by its hash, by the hash of the key before, or not.
pub data Match : Type 0 where
  primary grace no_match : Match

unfoldable pub matches_grace : Bcrypt → ApiKey → String → ℕ → Bool
unfolding is_key_expired
matches_grace b k plaintext now = elim k.previous_hashed_secret [
  | none ↦ false
  | some hashed ↦ elim k.previous_key_expires_at [
    | none ↦ false
    | some t ↦
        not (hashed == "") && (not (is_key_expired (some t) now) && b.checkpw plaintext hashed)
  ]
]

unfoldable pub match_secret : Bcrypt → ApiKey → String → ℕ → Match
unfolding matches_grace
match_secret b k plaintext now =
    if b.checkpw plaintext k.hashed_secret
    then primary
    else if matches_grace b k plaintext now
    then grace
    else no_match

unfoldable pub denied_event : VerifyRequest → Ident → Details → AuditEvent
denied_event q org details = record {
  org_id = org;
  action = AuditAction.access_denied;
  actor_type = "unknown";
  actor_id = q.unknown;
  agent_id = none;
  causal_trace_id = q.causal_trace_id;
  outcome = "failure";
  resource_id = none;
  details = ("reason", Detail.text "invalid_api_key") ∷ details;
}

unfoldable pub used_details : ApiKey → Bool → Details
used_details k grace_key =
    ("key_id", Detail.text k.key_id)
    ∷ ("grace_key", Detail.flag grace_key)
    ∷ (if grace_key then ("warning", Detail.text "client_using_rotated_key") ∷ [] else [])

unfoldable pub used_event : VerifyRequest → ApiKey → Bool → AuditEvent
unfolding used_details
used_event q k grace_key = record {
  org_id = k.org_id;
  action = AuditAction.credential_used;
  actor_type = "agent";
  actor_id = k.agent_id;
  agent_id = some k.agent_id;
  causal_trace_id = q.causal_trace_id;
  outcome = "success";
  resource_id = none;
  details = used_details k grace_key;
}

unfoldable pub info_of : ApiKey → Bool → KeyInfo
info_of k grace_key = record {
  agent_id = k.agent_id;
  org_id = k.org_id;
  scopes = k.scopes;
  key_id = k.key_id;
  using_grace_key = grace_key;
}

module _ {S : Type 0} (b : Bcrypt) where
  unfoldable pub accept_key : VerifyRequest → ApiKey → Bool → Method S (Option KeyInfo)
  unfolding record_usage used_event info_of
  accept_key q k grace_key = do
    modify_db (record_usage k.key_id q.now)
    append_audit (used_event q k grace_key)
    pure (some (info_of k grace_key))

  -- A miss is recorded unless the caller does so itself.
  unfoldable pub refuse_key : VerifyRequest → ApiKey → Bool → Method S (Option KeyInfo)
  unfolding denied_event
  refuse_key q k false = pure none
  refuse_key q k true = do
    append_audit (denied_event q k.org_id (("key_id", Detail.text k.key_id) ∷ []))
    pure none

  unfoldable pub record_match : VerifyRequest → ApiKey → Bool → Match → Method S (Option KeyInfo)
  unfolding accept_key refuse_key
  record_match q k record_denial_on_miss primary = accept_key q k false
  record_match q k record_denial_on_miss grace = accept_key q k true
  record_match q k record_denial_on_miss no_match = refuse_key q k record_denial_on_miss

  unfoldable pub match_and_record :
      VerifyRequest → ApiKey → String → Bool → Method S (Option KeyInfo)
  unfolding is_key_expired match_secret record_match
  match_and_record q k plaintext record_denial_on_miss =
      if is_key_expired k.expires_at q.now
      then pure none
      else record_match q k record_denial_on_miss (match_secret b k plaintext q.now)

  unfoldable pub verify_row : VerifyRequest → String → Option ApiKey → Method S (Option KeyInfo)
  unfolding match_and_record
  verify_row q secret none = pure none
  verify_row q secret (some k) = if k.is_active then match_and_record q k secret true else pure none

  unfoldable pub verify_by_key_id : VerifyRequest → String → String → Method S (Option KeyInfo)
  unfolding get_by_key_id verify_row
  verify_by_key_id q key_id secret = do
    keys ← gets (λ w. w.db.api_keys)
    verify_row q secret (get_by_key_id keys key_id)

  unfoldable pub found_or : Method S (Option KeyInfo) → Option KeyInfo → Method S (Option KeyInfo)
  found_or rest none = rest
  found_or rest (some info) = pure (some info)

  -- The `for` loop, and the denial after it.
  unfoldable pub scan_keys :
      VerifyRequest → String → Ident → List ApiKey → Method S (Option KeyInfo)
  unfolding match_and_record denied_event found_or
  scan_keys q plaintext org [] = do append_audit (denied_event q org []); pure none
  scan_keys q plaintext org (k ∷ keys) = do
    matched ← match_and_record q k plaintext false
    found_or (scan_keys q plaintext org keys) matched

  unfoldable pub verify_by_full_scan : VerifyRequest → String → Ident → Method S (Option KeyInfo)
  unfolding scan_keys
  verify_by_full_scan q plaintext org = do
    keys ← gets (λ w. select (λ k. (k.org_id == org) && k.is_active) w.db.api_keys)
    scan_keys q plaintext org keys

  unfoldable pub verify_bare : VerifyRequest → String → Option Ident → Method S (Option KeyInfo)
  unfolding verify_by_full_scan
  verify_bare q plaintext none = pure none
  verify_bare q plaintext (some org) = verify_by_full_scan q plaintext org

  unfoldable pub verify_split :
      VerifyRequest → String → Option String × String → Method S (Option KeyInfo)
  unfolding verify_by_key_id verify_bare
  verify_split q plaintext (some key_id, secret) = verify_by_key_id q key_id secret
  verify_split q plaintext (none, secret) =
      if starts_with plaintext api_key_prefix then verify_bare q plaintext q.org_id else pure none

  unfoldable pub verify_key : VerifyRequest → String → Method S (Option KeyInfo)
  unfolding split_compound_key verify_split
  verify_key q plaintext = verify_split q plaintext (split_compound_key plaintext)
