-- ===== src/Keys/Manage/Rotated.antt =====
-- What is accepted after a key has been rotated or revoked.
use ai_iam_platform.Prelude.{String, Bool, string_eq, ℕ_eq}
use ai_iam_platform.Model.{ApiKey}
use ai_iam_platform.Keys.Verify.{KeyInfo}
use ai_iam_platform.Keys.Manage.{RotateRequest}

-- The identity that is returned after a rotation.
abbrev pub successor_info : RotateRequest → ApiKey → String → Bool → KeyInfo
successor_info q old key_id grace_key = record {
  agent_id = old.agent_id;
  org_id = q.org_id;
  scopes = old.scopes;
  key_id = key_id;
  using_grace_key = grace_key;
}
