-- ===== src/Audit/Queries.antt =====
-- The read operations of `AuditRepository` (backend/app/repositories/audit_repo.py).
use ai_iam_platform.Prelude.{
  ℕ, ◌≡◌, ◌↔◌, ◌⊎◌, inl, inr, Bool, ◌&&◌, List, [], ◌∷◌, ◌==◌, ℕ_eq, arith, length, select, In,
  In-select, select-In, Bool-cases, leb, reverse, take,
}
use ai_iam_platform.Model.{Ident}
use ai_iam_platform.Audit.{AuditLog, rows_of, insert_row, by_sequence}

unfoldable pub get_by_trace : List AuditLog → Ident → Ident → List AuditLog
get_by_trace table trace org =
    by_sequence (select (λ e. (e.causal_trace_id == trace) && (e.org_id == org)) table)

unfoldable pub count_for_org : List AuditLog → Ident → ℕ
count_for_org table org = length (rows_of org table)

-- `order_by(AuditLog.sequence_number.desc()).limit(limit)`
unfoldable pub get_latest : List AuditLog → Ident → ℕ → List AuditLog
get_latest table org limit = take limit (reverse (by_sequence (rows_of org table)))

In-insert_row :
    (e x : AuditLog) (rows : List AuditLog)
    → (In x (insert_row e rows) → (e ≡ x) ⊎ In x rows)
      × ((e ≡ x) ⊎ In x rows → In x (insert_row e rows))
unfolding insert_row
In-insert_row e x [] = (λ h. h, λ h. h)
In-insert_row e x (y ∷ rows) = elim (Bool-cases (leb e.sequence_number y.sequence_number)) [
  | inl p ↦ rw p ((λ h. h), λ h. h)
  | inr p ↦
      let rest = In-insert_row e x rows in
      rw p (
        (λ h. elim h [
          | inl same ↦ inr (inl same)
          | inr k ↦ elim (rest.0 k) [ inl q ↦ inl q | inr q ↦ inr (inr q) ]
        ]),
        λ h. elim h [
          | inl same ↦ inr (rest.1 (inl same))
          | inr k ↦ elim k [ inl q ↦ inl q | inr q ↦ inr (rest.1 (inr q)) ]
        ],
      )
]

pub In-by_sequence : (x : AuditLog) (rows : List AuditLog) → In x (by_sequence rows) ↔ In x rows
unfolding by_sequence
In-by_sequence x [] = (λ h. h, λ h. h)
In-by_sequence x (e ∷ rows) =
    let ih = In-by_sequence x rows in
    let put = In-insert_row e x (by_sequence rows) in
    (
      λ h. elim (put.0 h) [ inl same ↦ inl same | inr k ↦ inr (ih.0 k) ],
      λ h. put.1 (elim h [ inl same ↦ inl same | inr k ↦ inr (ih.1 k) ]),
    )

-- The trace query gives exactly the entries of that trace that belong to the organisation: nothing
-- of another tenant is shown, and nothing of the trace is left out.
pub get_by_trace_iff :
    (table : List AuditLog) (trace org : Ident) (e : AuditLog)
    → In e (get_by_trace table trace org)
      ↔ (In e table × (e.causal_trace_id ≡ trace) × (e.org_id ≡ org))
unfolding get_by_trace
get_by_trace_iff table trace org e =
    let p : AuditLog → Bool = λ x. (x.causal_trace_id == trace) && (x.org_id == org) in
    let sorted = In-by_sequence e (select p table) in
    (
      λ h.
          let (place, holds) = In-select p table e (sorted.0 h) in
          (place, ground (arith, holds), ground (arith, holds)),
      λ h. sorted.1 (select-In p table e h.0 (ground arith)),
    )
