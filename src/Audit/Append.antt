-- ===== src/Audit/Append.antt =====
-- Appending keeps a chain, and a chain that was only appended to verifies.
use ai_iam_platform.Prelude.{
  ℕ, suc, ◌+◌, ◌≤◌, ◌≡◌, inl, inr, refl, sym, ap, subst, ◌∙◌, Bool, true, false, none, some, List,
  [], ◌∷◌, ◌++◌, ◌==◌, ℕ_eq, if◌then◌else◌, arith, length, select, Bool-cases, nat_eq_iff, ltb, leb,
}
use ai_iam_platform.Model.{Ident, AuditEvent}
use ai_iam_platform.Audit.Encoding.{Bytes, bytes_eq, bytes_eq_refl}
use ai_iam_platform.Audit.{
  AuditLog, Content, content_of, rows_of, later, latest, insert_row, by_sequence, genesis, tip_of,
  get_chain_tip, compute_entry_hash, new_entry, append, replay, verify_chain,
}

select-append {ℓ} :
    {A : Type ℓ} (p : A → Bool) (xs : List A) (y : A)
    → select p (xs ++ (y ∷ [])) ≡ (if p y then select p xs ++ (y ∷ []) else select p xs)
unfolding select
select-append p [] y = ground arith
select-append p (x ∷ xs) y = ground (arith, select-append p xs y)

-- The hash and the number that the entry after a chain takes.
abbrev end_of : Bytes → ℕ → List AuditLog → Bytes × ℕ
end_of prev n [] = (prev, n)
end_of prev n (e ∷ rows) = end_of e.entry_hash (suc n) rows

module _ (sha256 : Bytes → Bytes) (dumps : Content → Bytes) where
  -- The rows are numbered from `n` on, and each is hashed over the one before.
  abbrev pub IsChain : Bytes → ℕ → List AuditLog → Type 0
  IsChain prev n [] = Unit
  IsChain prev n (e ∷ rows) =
      (e.sequence_number ≡ n)
      × (e.previous_hash ≡ prev)
      × (e.entry_hash ≡ compute_entry_hash sha256 dumps (content_of e) prev)
      × IsChain e.entry_hash (suc n) rows

  -- Every organisation has a chain of its own in the table.
  abbrev pub IsSound : List AuditLog → Type 0
  IsSound table = (org : Ident) → IsChain genesis 1 (rows_of org table)

  latest-tip :
      (prev : Bytes) (n : ℕ) (e : AuditLog) (rows : List AuditLog)
      → IsChain prev n (e ∷ rows)
      → (l : AuditLog) × (latest (e ∷ rows) ≡ some l)
        × (tip_of (some l) ≡ end_of prev n (e ∷ rows))
        × (n ≤ l.sequence_number)
  unfolding latest tip_of
  latest-tip prev n e [] h = (e, refl, ground arith, omega arith)
  latest-tip prev n e (x ∷ rows) h =
      let (l, found, tip, bound) = latest-tip e.entry_hash (suc n) x rows h.3 in
      let before : ltb e.sequence_number l.sequence_number ≡ true = ground arith in
      (l, ap (λ o. some (later e o)) found ∙ rw (later, before) refl, tip, omega arith)

  tip-end :
      (rows : List AuditLog) → IsChain genesis 1 rows → tip_of (latest rows) ≡ end_of genesis 1 rows
  unfolding tip_of latest
  tip-end [] h = refl
  tip-end (e ∷ rows) h =
      let (l, found, tip, _) = latest-tip genesis 1 e rows h in ap tip_of found ∙ tip

  IsChain-append :
      (prev : Bytes) (n : ℕ) (rows : List AuditLog) (e : AuditLog)
      → IsChain prev n rows
      → (let (q, m) = end_of prev n rows in IsChain q m (e ∷ []))
      → IsChain prev n (rows ++ (e ∷ []))
  IsChain-append prev n [] e h k = k
  IsChain-append prev n (x ∷ rows) e h k =
      (h.0, h.1, h.2, IsChain-append x.entry_hash (suc n) rows e h.3 k)

  new_entry-IsChain :
      (v : AuditEvent) (prev : Bytes) (n : ℕ)
      → IsChain prev n (new_entry sha256 dumps v prev n ∷ [])
  unfolding new_entry content_of
  new_entry-IsChain v prev n = (refl, refl, refl, tt)

  -- Appending an entry keeps the chain of every organisation: it extends the chain of its own, and
  -- leaves the others as they are.
  pub append-IsSound :
      (table : List AuditLog) (v : AuditEvent)
      → IsSound table
      → IsSound (append sha256 dumps table v)
        × ((org : Ident)
            → (v.org_id == org) ≡ false
            → rows_of org (append sha256 dumps table v) ≡ rows_of org table)
  unfolding append get_chain_tip rows_of
  append-IsSound table v sound = (extended, others)
    where
      prev : Bytes
      prev = (get_chain_tip table v.org_id).0

      seq : ℕ
      seq = (get_chain_tip table v.org_id).1

      e : AuditLog
      e = new_entry sha256 dumps v prev seq

      owner : (e.org_id == v.org_id) ≡ true
      owner = unfold new_entry in (nat_eq_iff v.org_id v.org_id).1 refl

      others :
          (org : Ident)
          → (v.org_id == org) ≡ false
          → rows_of org (append sha256 dumps table v) ≡ rows_of org table
      others org apart =
          select-append (λ x. x.org_id == org) table e ∙ (unfold new_entry in (rw apart refl))

      extended : IsSound (append sha256 dumps table v)
      extended org = elim (Bool-cases (v.org_id == org)) [
        | inr apart ↦ subst (IsChain genesis 1) (sym (others org apart)) (sound org)
        | inl same ↦
            let is_org : v.org_id ≡ org = (nat_eq_iff v.org_id org).0 same in
            subst (λ o. IsChain genesis 1 (rows_of o (append sha256 dumps table v))) is_org
              (subst (IsChain genesis 1)
                (sym (select-append (λ x. x.org_id == v.org_id) table e ∙ rw owner refl))
                (IsChain-append genesis 1 (rows_of v.org_id table) e (sound v.org_id) (
                  subst (λ t. IsChain t.0 t.1 (e ∷ []))
                    (tip-end (rows_of v.org_id table) (sound v.org_id))
                    (new_entry-IsChain v prev seq))))
      ]

  by_sequence-IsChain :
      (prev : Bytes) (n : ℕ) (rows : List AuditLog) → IsChain prev n rows → by_sequence rows ≡ rows
  unfolding by_sequence
  by_sequence-IsChain prev n [] h = refl
  by_sequence-IsChain prev n (e ∷ []) h = refl
  by_sequence-IsChain prev n (e ∷ x ∷ rows) h =
      let rest = by_sequence-IsChain e.entry_hash (suc n) (x ∷ rows) h.3 in
      let ordered : leb e.sequence_number x.sequence_number ≡ true = ground arith in
      ap (insert_row e) rest ∙ rw (insert_row, ordered) refl

  replay-IsChain :
      (prev : Bytes) (n checked : ℕ) (rows : List AuditLog)
      → IsChain prev n rows
      → replay sha256 dumps prev checked rows ≡ (true, none, checked + length rows)
  unfolding replay
  replay-IsChain prev n checked [] h = ground arith
  replay-IsChain prev n checked (e ∷ rows) h =
      let rest = replay-IsChain e.entry_hash (suc n) (checked + 1) rows h.3 in
      let matches : bytes_eq (compute_entry_hash sha256 dumps (content_of e) prev) e.entry_hash
          ≡ true =
        subst (λ b. bytes_eq (compute_entry_hash sha256 dumps (content_of e) prev) b ≡ true)
          (sym h.2) (bytes_eq_refl _) in
      rw (matches, rest) (ground arith)

  -- The log after a sequence of appends.
  abbrev pub append_all : List AuditLog → List AuditEvent → List AuditLog
  append_all table [] = table
  append_all table (v ∷ events) = append_all (append sha256 dumps table v) events

  empty-IsSound : IsSound []
  unfolding rows_of select
  empty-IsSound org = tt

  append_all-IsSound :
      (table : List AuditLog) (events : List AuditEvent)
      → IsSound table
      → IsSound (append_all table events)
  append_all-IsSound table [] h = h
  append_all-IsSound table (v ∷ events) h =
      append_all-IsSound (append sha256 dumps table v) events (append-IsSound table v h).0

  -- A log that was only ever appended to verifies for every organisation, and all of the entries of
  -- the organisation are checked.
  pub verify_chain-append_all :
      (events : List AuditEvent) (org : Ident)
      → verify_chain sha256 dumps (append_all [] events) org
        ≡ (true, none, length (rows_of org (append_all [] events)))
  unfolding verify_chain
  verify_chain-append_all events org =
      let chain = append_all-IsSound [] events empty-IsSound org in
      let rows = rows_of org (append_all [] events) in
      ap (replay sha256 dumps genesis 0) (by_sequence-IsChain genesis 1 rows chain)
      ∙ replay-IsChain genesis 1 0 rows chain
      ∙ ground arith
