-- ===== src/Delegation/Cascade/Reach.antt =====
-- The walk finds exactly the grants below the one it starts at.
use ai_iam_platform.Prelude.{
  ℕ, zero, suc, ◌≡◌, ◌↔◌, ◌⊎◌, inl, inr, refl, subst, sym, true, List, [], ◌∷◌, ◌++◌, arith, ℕ_eq,
  if◌then◌else◌, contains, contains-append, contains-map→, contains-map←, select, In, In-select,
  select-In, Option, none, some, nat_eq_iff, Bool-cases, Option-cases,
}
use ai_iam_platform.Model.{Ident, DelegationGrant}
use ai_iam_platform.Delegation.Cascade.{is_child, children, extend, descend, find_descendant_ids}

-- `i` is the id of a grant below the grant `root`, by the parents that the table records.
pub data Descends (grants : List DelegationGrant) (root : Ident) : Ident → Type 0 where
  child :
      (g : DelegationGrant)
      → In g grants
      → g.parent_grant_id ≡ some root
      → Descends grants root g.id
  below :
      {i : Ident}
      → Descends grants root i
      → (g : DelegationGrant) → In g grants
      → g.parent_grant_id ≡ some i
      → Descends grants root g.id

pub children← :
    (grants : List DelegationGrant) (frontier : List Ident) (g : DelegationGrant) (i : Ident)
    → In g grants
    → g.parent_grant_id ≡ some i
    → contains frontier i ≡ true
    → contains (children grants frontier) g.id ≡ true
unfolding children is_child
children← grants frontier g i place linked h =
    contains-map← (λ x. x.id) (select (is_child frontier) grants) g
      (select-In (is_child frontier) grants g place (ground arith))

-- A child of a frontier, with the parent that is in the frontier.
pub children→ :
    (grants : List DelegationGrant) (frontier : List Ident) (j : Ident)
    → contains (children grants frontier) j ≡ true
    → (g : DelegationGrant) × (i : Ident) × In g grants
      × (g.id ≡ j)
      × (g.parent_grant_id ≡ some i)
      × (contains frontier i ≡ true)
unfolding children is_child
children→ grants frontier j h =
    let (g, chosen, same) = contains-map→ (λ x. x.id) (select (is_child frontier) grants) j h in
    let (place, holds) = In-select (is_child frontier) grants g chosen in
    elim (Option-cases g.parent_grant_id) [
      | inl p ↦ absurd (ground arith)
      | inr (i, p) ↦ (g, i, place, same, p, ground arith)
    ]

pub List-cases :
    (xs : List Ident) → (xs ≡ []) ⊎ ((x : Ident) × (rest : List Ident) × (xs ≡ x ∷ rest))
List-cases [] = inl refl
List-cases (x ∷ rest) = inr (x, rest, refl)

extend-some :
    (found : List Ident) (o : Option (List Ident)) (ds : List Ident)
    → extend found o ≡ some ds
    → (rest : List Ident) × (o ≡ some rest) × (ds ≡ found ++ rest)
unfolding extend
extend-some found none ds h = absurd (cc)
extend-some found (some rest) ds h = (rest, refl, ground arith)

-- A round of the walk that succeeds: there are no children, or they are found first.
pub descend-some :
    (fuel : ℕ) (grants : List DelegationGrant) (frontier ds : List Ident)
    → descend (suc fuel) grants frontier ≡ some ds
    → ((children grants frontier ≡ []) × (ds ≡ []))
      ⊎ ((rest : List Ident) × (descend fuel grants (children grants frontier) ≡ some rest)
          × (ds ≡ children grants frontier ++ rest))
unfolding descend
descend-some fuel grants frontier ds h = elim (List-cases (children grants frontier)) [
  | inl e ↦ inl (e, ground arith)
  | inr (c, cs, e) ↦
      let (rest, found, same) =
        extend-some (c ∷ cs) (descend fuel grants (c ∷ cs)) ds (rw (e, descend) at h) in
      inr (rest, rw e found, rw e same)
]

-- What is found is closed under children.
descend_closed :
    (fuel : ℕ) (grants : List DelegationGrant) (frontier ds : List Ident) (g : DelegationGrant)
    (i : Ident)
    → descend fuel grants frontier ≡ some ds
    → In g grants
    → g.parent_grant_id ≡ some i
    → (if contains frontier i then true else contains ds i) ≡ true
    → contains ds g.id ≡ true
descend_closed zero grants frontier ds g i h place linked k = absurd (unfold descend in (cc))
descend_closed (suc fuel) grants frontier ds g i h place linked k =
    elim (descend-some fuel grants frontier ds h) [
      | inl (empty, same) ↦ elim (Bool-cases (contains frontier i)) [
        | inl p ↦
            let c : contains [] g.id ≡ true =
              rw empty at (children← grants frontier g i place linked p) in
            rw same c
        | inr p ↦ let c : contains [] i ≡ true = ground arith in absurd (unfold contains in (cc))
      ]
      | inr (rest, found, same) ↦
          let cs = children grants frontier in
          rw (same, contains-append cs rest g.id)
            (elim (Bool-cases (contains frontier i)) [
              | inl p ↦ ground (arith, children← grants frontier g i place linked p)
              | inr p ↦ ground (
                arith,
                contains-append cs rest i,
                descend_closed fuel grants cs rest g i found place linked,
              )
            ])
    ]

descend_sound :
    (fuel : ℕ) (grants : List DelegationGrant) (root : Ident) (frontier ds : List Ident) (j : Ident)
    → ((i : Ident) → contains frontier i ≡ true → (root ≡ i) ⊎ Descends grants root i)
    → descend fuel grants frontier ≡ some ds
    → contains ds j ≡ true
    → Descends grants root j
descend_sound zero grants root frontier ds j from h k = absurd (unfold descend in (cc))
descend_sound (suc fuel) grants root frontier ds j from h k =
    elim (descend-some fuel grants frontier ds h) [
      | inl (empty, same) ↦
          let c : contains [] j ≡ true = rw same at k in absurd (unfold contains in (cc))
      | inr (rest, found, same) ↦
          let cs = children grants frontier in
          let next : (i : Ident) → contains cs i ≡ true → Descends grants root i = λ i q.
            let (g, p, place, named, linked, inside) = children→ grants frontier i q in
            subst (Descends grants root) named (elim (from p inside) [
              | inl at_root ↦ child g place (rw (sym at_root) at linked)
              | inr d ↦ below d g place linked
            ]) in
          elim (Bool-cases (contains cs j)) [
            | inl p ↦ next j p
            | inr p ↦
                descend_sound fuel grants root cs rest j (λ i q. inr (next i q)) found
                  (ground (arith, contains-append cs rest j))
          ]
    ]

-- The ids that the walk finds are exactly those of the grants below the one it starts at.
pub find_descendant_ids_iff :
    (fuel : ℕ) (grants : List DelegationGrant) (root : Ident) (ds : List Ident) (j : Ident)
    → find_descendant_ids fuel grants root ≡ some ds
    → (contains ds j ≡ true) ↔ Descends grants root j
find_descendant_ids_iff fuel grants root ds j h = (
  descend_sound fuel grants root (root ∷ []) ds j at_root (unfold find_descendant_ids in h),
  complete j,
)
  where
    at_root : (i : Ident) → contains (root ∷ []) i ≡ true → (root ≡ i) ⊎ Descends grants root i
    at_root i q = inl (unfold contains in (ground (arith, nat_eq_iff root i)))

    walked : descend fuel grants (root ∷ []) ≡ some ds
    walked = unfold find_descendant_ids in h

    complete : (i : Ident) → Descends grants root i → contains ds i ≡ true
    complete i (child g place linked) =
        descend_closed fuel grants (root ∷ []) ds g root walked place linked
          (unfold contains in (ground (arith, nat_eq_iff root root)))
    complete i (below {i = k} d g place linked) =
        descend_closed fuel grants (root ∷ []) ds g k walked place linked
          (ground (arith, complete k d))
