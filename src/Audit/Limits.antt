-- ===== src/Audit/Limits.antt =====
-- What the chain does not see: columns outside the hash, and a missing tail.
use ai_iam_platform.Prelude.{
  ℕ, ◌+◌, ◌≡◌, ap, ◌∙◌, true, false, none, some, List, [], ◌∷◌, ◌++◌, if◌then◌else◌, arith, length,
  Bool-cases, inl, inr,
}
use ai_iam_platform.Audit.Encoding.{Bytes, bytes_eq}
use ai_iam_platform.Audit.{AuditLog, Content, content_of, compute_entry_hash, replay}

module _ (sha256 : Bytes → Bytes) (dumps : Content → Bytes) where
  -- An entry may be replaced by any other with the same hashed content and the same hash, whatever
  -- its agent, actor type and resource: the verification gives the same verdict.
  pub replay_unhashed :
      (prev : Bytes) (checked : ℕ) (before after : List AuditLog) (e f : AuditLog)
      → content_of f ≡ content_of e
      → f.entry_hash ≡ e.entry_hash
      → replay sha256 dumps prev checked (before ++ (f ∷ after))
        ≡ replay sha256 dumps prev checked (before ++ (e ∷ after))
  unfolding replay content_of
  replay_unhashed prev checked [] after e f content hash =
      let number : f.sequence_number ≡ e.sequence_number = ap (λ c. c.sequence_number) content in
      λ i.
        if bytes_eq (compute_entry_hash sha256 dumps (content i) prev) (hash i)
        then replay sha256 dumps (hash i) (checked + 1) after
        else (false, some (number i), checked + 1)
  replay_unhashed prev checked (b ∷ before) after e f content hash =
      let rest = replay_unhashed b.entry_hash (checked + 1) before after e f content hash in
      λ i.
        if bytes_eq (compute_entry_hash sha256 dumps (content_of b) prev) b.entry_hash
        then rest i
        else (false, some b.sequence_number, checked + 1)

  -- A log whose last entries are deleted verifies still.
  pub replay_truncated :
      (prev : Bytes) (checked n : ℕ) (es fs : List AuditLog)
      → replay sha256 dumps prev checked (es ++ fs) ≡ (true, none, n)
      → replay sha256 dumps prev checked es ≡ (true, none, checked + length es)
  unfolding replay
  replay_truncated prev checked n [] fs h = ground arith
  replay_truncated prev checked n (e ∷ es) fs h =
      elim (Bool-cases
        (bytes_eq (compute_entry_hash sha256 dumps (content_of e) prev) e.entry_hash)) [
          | inl p ↦
              rw (p, replay)
                (replay_truncated e.entry_hash (checked + 1) n es fs (rw (p, replay) at h)
                  ∙ ground arith)
          | inr p ↦ absurd (let bad = rw (p, replay) at h in (let b = ap (λ t. t.0) bad in cc))
        ]
