-- ===== src/Audit/Edited.antt =====
-- `verify_chain` over a table in which the text of one row was edited in place.
use ai_iam_platform.Prelude.{
  ℕ, ◌+◌, ◌≡◌, ◌≢◌, ◌⊎◌, inl, inr, refl, sym, ap, ◌∙◌, true, false, none, some, List, [], ◌∷◌, ◌++◌,
  ◌==◌, ℕ_eq, leb, select, length, Bool-cases, ==_refl,
}
use ai_iam_platform.Model.{Ident}
use ai_iam_platform.Audit.Encoding.{Bytes}
use ai_iam_platform.Audit.{
  AuditLog, Content, content_of, rows_of, insert_row, by_sequence, genesis, replay, verify_chain,
}
use ai_iam_platform.Audit.Tamper.{Collision, edit_is_found}

-- Two lists that differ in one place, where the one has e and the other f.
abbrev IsEdit : AuditLog → AuditLog → List AuditLog → List AuditLog → Type 0
IsEdit e f xs ys =
    (before : List AuditLog) × (after : List AuditLog) × (xs ≡ before ++ (e ∷ after))
    × (ys ≡ before ++ (f ∷ after))

behind :
    (e f x : AuditLog) (xs ys : List AuditLog) → IsEdit e f xs ys → IsEdit e f (x ∷ xs) (x ∷ ys)
behind e f x xs ys (before, after, p, q) =
    (x ∷ before, after, ap (λ rows. x ∷ rows) p, ap (λ rows. x ∷ rows) q)

-- The edited row goes to the place of the old one.
insert_row-IsEdit :
    (e f : AuditLog) (rows : List AuditLog)
    → f.sequence_number ≡ e.sequence_number
    → IsEdit e f (insert_row e rows) (insert_row f rows)
unfolding insert_row
insert_row-IsEdit e f [] same = ([], [], refl, refl)
insert_row-IsEdit e f (x ∷ rows) same =
    elim (Bool-cases (leb e.sequence_number x.sequence_number)) [
      | inl p ↦
          let q : leb f.sequence_number x.sequence_number ≡ true =
            ap (λ n. leb n x.sequence_number) same ∙ p in
          ([], x ∷ rows, rw p refl, rw q refl)
      | inr p ↦
          let q : leb f.sequence_number x.sequence_number ≡ false =
            ap (λ n. leb n x.sequence_number) same ∙ p in
          let (before, after, l, r) =
            behind e f x (insert_row e rows) (insert_row f rows)
              (insert_row-IsEdit e f rows same) in
          (before, after, rw p l, rw q r)
    ]

insert_row-other :
    (e f x : AuditLog) (before after : List AuditLog)
    → f.sequence_number ≡ e.sequence_number
    → IsEdit e f (insert_row x (before ++ (e ∷ after))) (insert_row x (before ++ (f ∷ after)))
unfolding insert_row
insert_row-other e f x [] after same = elim (Bool-cases (leb x.sequence_number e.sequence_number)) [
  | inl p ↦
      let q : leb x.sequence_number f.sequence_number ≡ true =
        ap (λ n. leb x.sequence_number n) same ∙ p in
      (x ∷ [], after, rw p refl, rw q refl)
  | inr p ↦
      let q : leb x.sequence_number f.sequence_number ≡ false =
        ap (λ n. leb x.sequence_number n) same ∙ p in
      ([], insert_row x after, rw p refl, rw q refl)
]
insert_row-other e f x (y ∷ before) after same =
    elim (Bool-cases (leb x.sequence_number y.sequence_number)) [
      | inl p ↦ (x ∷ y ∷ before, after, rw p refl, rw p refl)
      | inr p ↦
          let (b, a, l, r) =
            behind e f y (insert_row x (before ++ (e ∷ after)))
              (insert_row x (before ++ (f ∷ after))) (insert_row-other e f x before after same) in
          (b, a, rw p l, rw p r)
    ]

by_sequence-IsEdit :
    (e f : AuditLog) (before after : List AuditLog)
    → f.sequence_number ≡ e.sequence_number
    → IsEdit e f (by_sequence (before ++ (e ∷ after))) (by_sequence (before ++ (f ∷ after)))
unfolding by_sequence
by_sequence-IsEdit e f [] after same = insert_row-IsEdit e f (by_sequence after) same
by_sequence-IsEdit e f (x ∷ before) after same =
    let (b, a, l, r) = by_sequence-IsEdit e f before after same in
    let (b', a', l', r') = insert_row-other e f x b a same in
    (b', a', ap (insert_row x) l ∙ l', ap (insert_row x) r ∙ r')

rows_of-IsEdit :
    (org : Ident) (e f : AuditLog) (before after : List AuditLog)
    → e.org_id ≡ org
    → f.org_id ≡ org
    → IsEdit e f (rows_of org (before ++ (e ∷ after))) (rows_of org (before ++ (f ∷ after)))
unfolding rows_of select
rows_of-IsEdit org e f [] after own own' =
    ([], rows_of org after, rw (own, ==_refl org) refl, rw (own', ==_refl org) refl)
rows_of-IsEdit org e f (x ∷ before) after own own' =
    let rest = rows_of-IsEdit org e f before after own own' in
    elim (Bool-cases (x.org_id == org)) [
      | inl p ↦
          let (b, a, l, r) =
            behind e f x (rows_of org (before ++ (e ∷ after))) (rows_of org (before ++ (f ∷ after)))
              rest in
          (b, a, rw p l, rw p r)
      | inr p ↦ let (b, a, l, r) = rest in (b, a, rw p l, rw p r)
    ]

history-IsEdit :
    (org : Ident) (e f : AuditLog) (before after : List AuditLog)
    → e.org_id ≡ org
    → f.org_id ≡ org
    → f.sequence_number ≡ e.sequence_number
    → IsEdit e f
        (by_sequence (rows_of org (before ++ (e ∷ after))))
        (by_sequence (rows_of org (before ++ (f ∷ after))))
history-IsEdit org e f before after own own' same =
    let (b, a, l, r) = rows_of-IsEdit org e f before after own own' in
    let (b', a', l', r') = by_sequence-IsEdit e f b a same in
    (b', a', ap by_sequence l ∙ l', ap by_sequence r ∙ r')

module _ (sha256 : Bytes → Bytes) (dumps : Content → Bytes)
    -- A SHA-256 digest in hexadecimal has 64 digits.
    (digest_length : (x : Bytes) → length (sha256 x) ≡ 64) where
  -- Where digests have 64 digits and the log of an organization verifies, changing the hashed text of
  -- one of its rows, but not its organization, its sequence number or its stored hash, makes the
  -- verification of the organization fail and report the sequence number of the changed row, wherever
  -- the row stands in the table; or it gives a collision of the hash function.
  pub verify_chain-edit :
      (org : Ident) (n : ℕ) (before after : List AuditLog) (e f : AuditLog)
      → verify_chain sha256 dumps (before ++ (e ∷ after)) org ≡ (true, none, n)
      → e.org_id ≡ org
      → f.org_id ≡ org
      → f.sequence_number ≡ e.sequence_number
      → f.entry_hash ≡ e.entry_hash
      → dumps (content_of f) ≢ dumps (content_of e)
      → ((checked : ℕ) × (verify_chain sha256 dumps (before ++ (f ∷ after)) org
            ≡ (false, some e.sequence_number, checked)))
        ⊎ Collision sha256
  unfolding verify_chain
  verify_chain-edit org n before after e f verified own own' same hash differs =
      let (b, a, l, r) = history-IsEdit org e f before after own own' same in
      elim (edit_is_found sha256 dumps digest_length genesis 0 n b a e f refl
        (sym (ap (replay sha256 dumps genesis 0) l) ∙ verified) hash differs) [
          | inr collision ↦ inr collision
          | inl found ↦ inl (
            0 + length b + 1,
            ap (replay sha256 dumps genesis 0) r
                ∙ found
                ∙ ap (λ m. (false, some m, 0 + length b + 1)) same,
          )
        ]
