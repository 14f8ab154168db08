-- ===== src/Service.antt =====
-- What the services work on, and how their methods run: the tables of the database session, the
-- revocation index, and the audit entries that have been appended. A method returns or raises, and
-- what it wrote stays written until the session is committed or rolled back
-- (backend/app/db/session.py). An audit entry is committed by its own session at once, and a Redis
-- command takes effect at once, so a rollback touches neither.
use ai_iam_platform.Prelude.{ℕ, String, Bool, true, false, Option, none, some, List, [], ◌∷◌, ◌++◌}
use ai_iam_platform.Model.{
  Ident, Agent, DelegationGrant, ApiKey, OnBehalfOfGrant, McpSession, AuditEvent,
}
use ai_iam_platform.Breaker.{Breaker}

pub record Db : Type 0 where
  pub agents : List Agent
  pub grants : List DelegationGrant
  pub api_keys : List ApiKey
  pub on_behalf_of_grants : List OnBehalfOfGrant
  pub sessions : List McpSession

-- A request that the process sends to an MCP server: the address and the tool.
abbrev pub Outbound : Type 0
Outbound = String × Ident

pub record World (Store : Type 0) : Type 0 where
  pub db : Db
  pub committed : Db
  pub redis : Store
  pub audit : List AuditEvent
  -- The circuit breaker of the process, and the requests that it has sent to MCP servers.
  pub breaker : Breaker
  pub outbound : List Outbound

-- `HTTPException`: its status and the text of its detail.
pub record HttpError : Type 0 where
  pub status_code : ℕ
  pub detail : String

pub data Result (A : Type 0) : Type 0 where
  return : A → Result A
  raise : HttpError → Result A

abbrev pub Method : Type 0 → Type 0 → Type 0
Method S A = World S → Result A × World S

module _ {S : Type 0} where
  abbrev pub pure : {A : Type 0} → A → Method S A
  pure a w = (return a, w)

  abbrev pub http_error : {A : Type 0} → ℕ → String → Method S A
  http_error code detail w = (raise (record { status_code = code; detail = detail }), w)

  abbrev pub and_then : {A B : Type 0} → Result A → (A → Method S B) → Method S B
  and_then (return a) f w = f a w
  and_then (raise e) f w = (raise e, w)

  infixl 5 ◌>>=◌ ◌>>◌
  abbrev pub ◌>>=◌ : {A B : Type 0} → Method S A → (A → Method S B) → Method S B
  ◌>>=◌ m f w = let (r, w') = m w in and_then r f w'

  abbrev pub ◌>>◌ : {A B : Type 0} → Method S A → Method S B → Method S B
  m >> k = m >>= λ _. k

  abbrev pub gets : {A : Type 0} → (World S → A) → Method S A
  gets f w = (return (f w), w)

  abbrev pub guard : Bool → ℕ → String → Method S (Unit {0})
  guard true code detail w = (return tt, w)
  guard false code detail w = (raise (record { status_code = code; detail = detail }), w)

  -- `audit_repo.append`, as the caller sees it.
  abbrev pub append_audit : AuditEvent → Method S (Unit {0})
  append_audit e w = (return tt, record w { audit = w.audit ++ (e ∷ []) })

  abbrev pub modify_redis : (S → S) → Method S (Unit {0})
  modify_redis f w = (return tt, record w { redis = f w.redis })

  abbrev pub modify_db : (Db → Db) → Method S (Unit {0})
  modify_db f w = (return tt, record w { db = f w.db })

  -- `db.commit()`
  abbrev pub commit : Method S (Unit {0})
  commit w = (return tt, record w { committed = w.db })

  -- A row that was asked for, or the error for a missing one.
  abbrev pub or_error : {A : Type 0} → Option A → ℕ → String → Method S A
  or_error none code detail w = (raise (record { status_code = code; detail = detail }), w)
  or_error (some a) code detail w = (return a, w)

  abbrev pub close_session : {A : Type 0} → Result A → World S → Result A × World S
  close_session (return a) w = (return a, record w { committed = w.db })
  close_session (raise e) w = (raise e, record w { db = w.committed })

  -- `get_db`: the session of a request is committed at the end, and rolled back on an exception.
  unfoldable pub with_session : {A : Type 0} → Method S A → Method S A
  with_session m w = let (r, w') = m w in close_session r w'
