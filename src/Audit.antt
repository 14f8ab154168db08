-- ===== src/Audit.antt =====
-- The audit chain: `AuditRepository` (backend/app/repositories/audit_repo.py) and
-- `compute_entry_hash` (backend/app/core/security.py). SHA-256 and `json.dumps` are parameters: a
-- text is the list of its bytes, and `dumps` gives the canonical text of what is hashed. The
-- advisory lock makes an append atomic, so a call is one step on the table.
pub mod Encoding
pub mod Append
pub mod Tamper
pub mod Edited
pub mod Queries
pub mod Listing
pub mod Limits
use ai_iam_platform.Prelude.{
  ℕ, zero, suc, ◌+◌, ◌≡◌, Bool, true, false, Option, none, some, List, [], ◌∷◌, ◌++◌, ◌==◌, ℕ_eq,
  String, if◌then◌else◌, ltb, leb, select,
}
use ai_iam_platform.Model.{Ident, AuditAction, Details, AuditEvent}
use ai_iam_platform.Audit.Encoding.{Bytes, bytes_eq, zeros}

pub record AuditLog : Type 0 where
  pub org_id : Ident
  pub agent_id : Option Ident
  pub action : AuditAction
  pub details : Option Details
  pub actor_type : String
  pub actor_id : Ident
  pub resource_id : Option Ident
  pub outcome : String
  pub causal_trace_id : Ident
  pub entry_hash : Bytes
  pub previous_hash : Bytes
  pub sequence_number : ℕ

-- The dictionary that is serialised for the hash.
pub record Content : Type 0 where
  pub org_id : Ident
  pub action : AuditAction
  pub actor_id : Ident
  pub causal_trace_id : Ident
  pub outcome : String
  pub sequence_number : ℕ
  pub details : Details

-- `details or {}`
unfoldable pub or_empty : Option Details → Details
or_empty none = []
or_empty (some d) = d

unfoldable pub content_of : AuditLog → Content
unfolding or_empty
content_of e = record {
  org_id = e.org_id;
  action = e.action;
  actor_id = e.actor_id;
  causal_trace_id = e.causal_trace_id;
  outcome = e.outcome;
  sequence_number = e.sequence_number;
  details = or_empty e.details;
}

-- `where(AuditLog.org_id == org_id)`
unfoldable pub rows_of : Ident → List AuditLog → List AuditLog
rows_of org table = select (λ e. e.org_id == org) table

-- `order_by(AuditLog.sequence_number.desc()).limit(1)`
unfoldable pub later : AuditLog → Option AuditLog → AuditLog
later e none = e
later e (some l) = if ltb e.sequence_number l.sequence_number then l else e

unfoldable pub latest : List AuditLog → Option AuditLog
unfolding later
latest [] = none
latest (e ∷ rows) = some (later e (latest rows))

-- `order_by(AuditLog.sequence_number.asc())`
unfoldable pub insert_row : AuditLog → List AuditLog → List AuditLog
insert_row e [] = e ∷ []
insert_row e (x ∷ rows) =
    if leb e.sequence_number x.sequence_number then e ∷ x ∷ rows else x ∷ insert_row e rows

unfoldable pub by_sequence : List AuditLog → List AuditLog
unfolding insert_row
by_sequence [] = []
by_sequence (e ∷ rows) = insert_row e (by_sequence rows)

-- `AUDIT_CHAIN_GENESIS = "0" * 64`
abbrev pub genesis : Bytes
genesis = zeros 64

unfoldable pub tip_of : Option AuditLog → Bytes × ℕ
tip_of none = (genesis, 1)
tip_of (some e) = (e.entry_hash, e.sequence_number + 1)

-- `_get_chain_tip`
unfoldable pub get_chain_tip : List AuditLog → Ident → Bytes × ℕ
unfolding tip_of latest rows_of
get_chain_tip table org = tip_of (latest (rows_of org table))

module _ (sha256 : Bytes → Bytes) (dumps : Content → Bytes) where
  -- `sha256(f"{previous_hash}:{content}")`
  unfoldable pub compute_entry_hash : Content → Bytes → Bytes
  compute_entry_hash content previous = sha256 (previous ++ (b':' ∷ dumps content))

  unfoldable pub new_entry : AuditEvent → Bytes → ℕ → AuditLog
  unfolding compute_entry_hash
  new_entry v previous seq =
      let content : Content = record {
        org_id = v.org_id;
        action = v.action;
        actor_id = v.actor_id;
        causal_trace_id = v.causal_trace_id;
        outcome = v.outcome;
        sequence_number = seq;
        details = v.details;
      } in
      record {
        org_id = v.org_id;
        agent_id = v.agent_id;
        action = v.action;
        details = some v.details;
        actor_type = v.actor_type;
        actor_id = v.actor_id;
        resource_id = v.resource_id;
        outcome = v.outcome;
        causal_trace_id = v.causal_trace_id;
        entry_hash = compute_entry_hash content previous;
        previous_hash = previous;
        sequence_number = seq;
      }

  -- `AuditRepository.append`
  unfoldable pub append : List AuditLog → AuditEvent → List AuditLog
  unfolding get_chain_tip new_entry
  append table v =
      let (previous, seq) = get_chain_tip table v.org_id in table ++ (new_entry v previous seq ∷ [])

  -- The loop of `verify_chain`: the verdict, the sequence number of the first broken entry, and the
  -- number of entries that were checked.
  unfoldable pub replay : Bytes → ℕ → List AuditLog → Bool × Option ℕ × ℕ
  unfolding compute_entry_hash content_of
  replay prev checked [] = (true, none, checked)
  replay prev checked (e ∷ rows) =
      let rest = replay e.entry_hash (checked + 1) rows in
      if bytes_eq (compute_entry_hash (content_of e) prev) e.entry_hash
      then rest
      else (false, some e.sequence_number, checked + 1)

  -- `AuditRepository.verify_chain`; that the rows come in batches changes nothing of what is read.
  unfoldable pub verify_chain : List AuditLog → Ident → Bool × Option ℕ × ℕ
  unfolding replay by_sequence rows_of
  verify_chain table org = replay genesis 0 (by_sequence (rows_of org table))
