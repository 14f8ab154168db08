-- ===== src/Tests/Audit.antt =====
-- The audit log with a toy hash function, which keeps nothing of its text but has the length that
-- a digest has.
use ai_iam_platform.Prelude.{
  ℕ, select, ◌≡◌, ◌≢◌, ap, ◌⊎◌, refl, true, false, none, some, List, [], ◌∷◌, ◌++◌, length, arith,
}
use ai_iam_platform.Model.{AuditEvent, AuditAction}
use ai_iam_platform.Audit.{AuditLog, Content, replay, verify_chain, rows_of, genesis, content_of}
use ai_iam_platform.Audit.Encoding.{Bytes, zeros, bytes_eq}
use ai_iam_platform.Audit.Append.{append_all, verify_chain-append_all}
use ai_iam_platform.Audit.Tamper.{verified_same_history, SaysSame, Collision}
use ai_iam_platform.Audit.Edited.{verify_chain-edit}
use ai_iam_platform.Tests.{sample_event}

abbrev toy_hash : Bytes → Bytes
toy_hash text = genesis

-- The text of a content is as long as the identifier of its actor says.
abbrev toy_dumps : Content → Bytes
toy_dumps c = zeros c.actor_id

toy_digest : (text : Bytes) → length (toy_hash text) ≡ 64
toy_digest text = refl

abbrev two_events : List AuditEvent
two_events = sample_event 9 ∷ sample_event 8 ∷ sample_event 9 ∷ []

verify_chain-append_all_example :
    verify_chain toy_hash toy_dumps (append_all toy_hash toy_dumps [] two_events) 9
    ≡ (true, none, length (rows_of 9 (append_all toy_hash toy_dumps [] two_events)))
verify_chain-append_all_example = verify_chain-append_all toy_hash toy_dumps two_events 9

abbrev entry : ℕ → AuditLog
entry n = record {
  org_id = 9;
  agent_id = some 1;
  action = AuditAction.delegation_granted;
  details = some [];
  actor_type = "agent";
  actor_id = 1;
  resource_id = none;
  outcome = "success";
  causal_trace_id = 7;
  entry_hash = genesis;
  previous_hash = genesis;
  sequence_number = n;
}

one_verifies : replay toy_hash toy_dumps genesis 0 (entry 1 ∷ []) ≡ (true, none, 1)
unfolding replay bytes_eq
one_verifies = refl

verified_same_history_example :
    SaysSame toy_dumps (entry 1 ∷ []) (entry 1 ∷ []) ⊎ Collision toy_hash
verified_same_history_example =
    verified_same_history toy_hash toy_dumps toy_digest genesis 1 1 (entry 1 ∷ []) (entry 1 ∷ [])
      refl refl refl one_verifies one_verifies

-- The second entry with another actor.
abbrev edited : AuditLog
edited = record (entry 2) { actor_id = 3 }

table_verifies :
    verify_chain toy_hash toy_dumps ((entry 2 ∷ []) ++ (entry 1 ∷ [])) 9 ≡ (true, none, 2)
unfolding verify_chain bytes_eq select
table_verifies = refl

says_other : toy_dumps (content_of edited) ≢ toy_dumps (content_of (entry 2))
unfolding content_of
says_other e = three_is_not_one (ap length e)
  where
    three_is_not_one : ◌≢◌ {A = ℕ} 3 1
    three_is_not_one h = omega arith

-- In the table the second entry stands before the first.
verify_chain-edit_example :
    ((checked : ℕ) × (verify_chain toy_hash toy_dumps ([] ++ (edited ∷ entry 1 ∷ [])) 9
        ≡ (false, some 2, checked)))
    ⊎ Collision toy_hash
verify_chain-edit_example =
    verify_chain-edit toy_hash toy_dumps toy_digest 9 2 [] (entry 1 ∷ []) (entry 2) edited
      table_verifies refl refl refl refl says_other
