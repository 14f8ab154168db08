-- ===== src/Audit/Tamper.antt =====
-- Tampering is found, or it gives a collision of the hash function.
use ai_iam_platform.Prelude.{
  ℕ, ◌+◌, ◌≡◌, ◌≢◌, ◌⊎◌, inl, inr, sym, ap, subst, ◌∙◌, true, false, none, some, List, [], ◌∷◌,
  ◌++◌, ℕ_eq, arith, length, Bool-cases,
}
use ai_iam_platform.Audit.Encoding.{Bytes, bytes_eq, bytes_eq→≡, bytes_eq_refl, append-injective}
use ai_iam_platform.Audit.{AuditLog, Content, content_of, compute_entry_hash, replay}

-- Two different texts with one digest.
abbrev pub Collision : (Bytes → Bytes) → Type 0
Collision sha256 = (x : Bytes) × (y : Bytes) × (x ≢ y) × (sha256 x ≡ sha256 y)

-- Two chains say the same: entry by entry, the same text was hashed.
abbrev pub SaysSame : (Content → Bytes) → List AuditLog → List AuditLog → Type 0
SaysSame dumps [] [] = Unit
SaysSame dumps [] (_ ∷ _) = ⊥
SaysSame dumps (_ ∷ _) [] = ⊥
SaysSame dumps (e ∷ es) (f ∷ fs) =
    (dumps (content_of e) ≡ dumps (content_of f)) × SaysSame dumps es fs

-- The hash of the last entry, which commits to the whole chain.
abbrev pub last_hash : Bytes → List AuditLog → Bytes
last_hash prev [] = prev
last_hash prev (e ∷ rows) = last_hash e.entry_hash rows

module _ (sha256 : Bytes → Bytes) (dumps : Content → Bytes)
    -- A SHA-256 digest in hexadecimal has 64 digits.
    (digest_length : (x : Bytes) → length (sha256 x) ≡ 64) where
  -- Entries that hash to one value hash the same text over the same hash, or collide.
  same_or_Collision :
      (c d : Content) (p q : Bytes)
      → length p ≡ 64
      → length q ≡ 64
      → compute_entry_hash sha256 dumps c p ≡ compute_entry_hash sha256 dumps d q
      → ((p ≡ q) × (dumps c ≡ dumps d)) ⊎ Collision sha256
  unfolding compute_entry_hash
  same_or_Collision c d p q lp lq h =
      let x = p ++ (b':' ∷ dumps c) in
      let y = q ++ (b':' ∷ dumps d) in
      elim (Bool-cases (bytes_eq x y)) [
        | inl e ↦
            let (front, rest) =
              append-injective p q (b':' ∷ dumps c) (b':' ∷ dumps d) (omega arith)
                (bytes_eq→≡ x y e) in
            inl (front, cc)
        | inr e ↦ inr (
          x,
          y,
          (λ same.
              let bad : bytes_eq x y ≡ true =
                subst (λ z. bytes_eq x z ≡ true) same (bytes_eq_refl x) in
              cc),
          h,
        )
      ]

  -- A replay that succeeds has checked each entry.
  replay-true :
      (prev : Bytes) (checked n : ℕ) (e : AuditLog) (rows : List AuditLog)
      → replay sha256 dumps prev checked (e ∷ rows) ≡ (true, none, n)
      → (e.entry_hash ≡ compute_entry_hash sha256 dumps (content_of e) prev)
        × (replay sha256 dumps e.entry_hash (checked + 1) rows ≡ (true, none, n))
  unfolding replay
  replay-true prev checked n e rows h =
      elim (Bool-cases
        (bytes_eq (compute_entry_hash sha256 dumps (content_of e) prev) e.entry_hash)) [
          | inl p ↦ (sym (bytes_eq→≡ _ _ p), rw (p, replay) at h)
          | inr p ↦ absurd (let bad = rw (p, replay) at h in (let b = ap (λ t. t.0) bad in cc))
        ]

  same_history :
      (prev prev' : Bytes) (i j m n : ℕ) (es fs : List AuditLog)
      → length prev ≡ 64
      → length prev' ≡ 64
      → length es ≡ length fs
      → last_hash prev es ≡ last_hash prev' fs
      → replay sha256 dumps prev i es ≡ (true, none, m)
      → replay sha256 dumps prev' j fs ≡ (true, none, n)
      → (SaysSame dumps es fs × (prev ≡ prev')) ⊎ Collision sha256
  same_history prev prev' i j m n [] [] lp lq same last h k = inl (tt, last)
  same_history prev prev' i j m n [] (f ∷ fs) lp lq same last h k = absurd (omega arith)
  same_history prev prev' i j m n (e ∷ es) [] lp lq same last h k = absurd (omega arith)
  same_history prev prev' i j m n (e ∷ es) (f ∷ fs) lp lq same last h k =
      let (hash_e, rest_e) = replay-true prev i m e es h in
      let (hash_f, rest_f) = replay-true prev' j n f fs k in
      elim (same_history e.entry_hash f.entry_hash (i + 1) (j + 1) m n es fs
        (entry_length e prev hash_e) (entry_length f prev' hash_f) (omega arith) last rest_e
        rest_f) [
          | inr collision ↦ inr collision
          | inl (tail, hashes) ↦
              elim (same_or_Collision (content_of e) (content_of f) prev prev' lp lq
                (sym hash_e ∙ hashes ∙ hash_f)) [
                  | inr collision ↦ inr collision
                  | inl (front, text) ↦ inl ((text, tail), front)
                ]
        ]
    where
      entry_length :
          (x : AuditLog) (p : Bytes)
          → x.entry_hash ≡ compute_entry_hash sha256 dumps (content_of x) p
          → length x.entry_hash ≡ 64
      entry_length x p e = ap length e ∙ (unfold compute_entry_hash in digest_length _)

  -- Two logs of one length that both verify and end in the same hash hold the same hashed text, entry
  -- by entry, or they give a collision of the hash function. So whoever rewrites history, with all
  -- later hashes recomputed, changes the last hash.
  pub verified_same_history :
      (start : Bytes) (m n : ℕ) (es fs : List AuditLog)
      → length start ≡ 64
      → length es ≡ length fs
      → last_hash start es ≡ last_hash start fs
      → replay sha256 dumps start 0 es ≡ (true, none, m)
      → replay sha256 dumps start 0 fs ≡ (true, none, n)
      → SaysSame dumps es fs ⊎ Collision sha256
  verified_same_history start m n es fs l same last h k =
      elim (same_history start start 0 0 m n es fs l l same last h k) [
        | inl (says, _) ↦ inl says
        | inr collision ↦ inr collision
      ]

  -- Changing the text of one entry of a log that verifies, with its hash left as it was, makes the
  -- verification fail exactly there, or gives a collision. The number that it reports is that of the
  -- changed entry, and all entries before it count as checked.
  pub edit_is_found :
      (start : Bytes) (checked n : ℕ) (before after : List AuditLog) (e f : AuditLog)
      → length start ≡ 64
      → replay sha256 dumps start checked (before ++ (e ∷ after)) ≡ (true, none, n)
      → f.entry_hash ≡ e.entry_hash
      → dumps (content_of f) ≢ dumps (content_of e)
      → (replay sha256 dumps start checked (before ++ (f ∷ after))
          ≡ (false, some f.sequence_number, checked + length before + 1))
        ⊎ Collision sha256
  unfolding replay
  edit_is_found start checked n [] after e f l h same differs =
      let (hash_e, _) = replay-true start checked n e after h in
      elim (Bool-cases
        (bytes_eq (compute_entry_hash sha256 dumps (content_of f) start) f.entry_hash)) [
          | inl p ↦
              elim (same_or_Collision (content_of f) (content_of e) start start l l
                (bytes_eq→≡ _ _ p ∙ same ∙ hash_e)) [
                  | inl (_, text) ↦ absurd (differs text)
                  | inr collision ↦ inr collision
                ]
          | inr p ↦ inl (rw (p, replay) (ground arith))
        ]
  edit_is_found start checked n (b ∷ before) after e f l h same differs =
      let (hash_b, rest) = replay-true start checked n b (before ++ (e ∷ after)) h in
      let matches : bytes_eq (compute_entry_hash sha256 dumps (content_of b) start) b.entry_hash
          ≡ true =
        subst (λ x. bytes_eq (compute_entry_hash sha256 dumps (content_of b) start) x ≡ true)
          (sym hash_b) (bytes_eq_refl _) in
      let long : length b.entry_hash ≡ 64 =
        ap length hash_b ∙ (unfold compute_entry_hash in digest_length _) in
      elim (edit_is_found b.entry_hash (checked + 1) n before after e f long rest same differs) [
        | inl found ↦ inl (rw (matches, replay) (found ∙ ground arith))
        | inr collision ↦ inr collision
      ]
