-- ===== src/Delegation/Cascade/Bounds.antt =====
-- In a well-formed table the walk ends within as many rounds as the depth ceiling allows.
use ai_iam_platform.Prelude.{
  ℕ, zero, suc, ◌-◌, ◌≤◌, ◌<◌, ◌≡◌, inl, inr, refl, ap, subst, sym, ◌∙◌, true, List, [], ◌∷◌, ◌++◌,
  arith, ℕ_eq, contains, In, Option, some, nat_eq_iff,
}
use ai_iam_platform.Model.{Ident, DelegationGrant}
use ai_iam_platform.Delegation.Validator.{max_delegation_depth}
use ai_iam_platform.Delegation.Chain.{grant_by_id}
use ai_iam_platform.Delegation.Table.{IsWellFormed, Continues}
use ai_iam_platform.Delegation.Cascade.{children, extend, descend, find_descendant_ids}
use ai_iam_platform.Delegation.Cascade.Reach.{children→, List-cases}

-- Every grant of the frontier lies at least `k` hops deep.
abbrev pub IsBelow : List DelegationGrant → ℕ → List Ident → Type 0
IsBelow grants k frontier =
    (p : DelegationGrant) → In p grants → contains frontier p.id ≡ true → k ≤ p.delegation_depth

-- The parent of a grant of a well-formed table is the only row with its id.
pub parent_depth :
    (grants : List DelegationGrant) (g : DelegationGrant) (i : Ident)
    → IsWellFormed grants
    → In g grants
    → g.parent_grant_id ≡ some i
    → (p : DelegationGrant) × In p grants × (p.id ≡ i) × Continues grants g p
parent_depth grants g i wf place linked = elim (wf g place).lineage [
  | inl (no_parent, _) ↦ absurd (cc)
  | inr (p, c) ↦ (p, c.held, (let e = c.linked in ground arith), c)
]

pub same_grant :
    (grants : List DelegationGrant) (g h : DelegationGrant)
    → IsWellFormed grants
    → In g grants
    → In h grants
    → g.id ≡ h.id
    → g ≡ h
same_grant grants g h wf place_g place_h same =
    let found_g = (wf g place_g).by_id in
    let found_h = (wf h place_h).by_id in
    let equal : ◌≡◌ {A = Option DelegationGrant} (some g) (some h) =
      sym found_g ∙ ap (grant_by_id grants) same ∙ found_h in
    cc

children-IsBelow :
    (grants : List DelegationGrant) (k : ℕ) (frontier : List Ident)
    → IsWellFormed grants
    → IsBelow grants k frontier
    → IsBelow grants (suc k) (children grants frontier)
children-IsBelow grants k frontier wf deep h place inside =
    let (g, i, place_g, named, linked, in_frontier) = children→ grants frontier h.id inside in
    let same = same_grant grants g h wf place_g place named in
    let (p, place_p, at, c) = parent_depth grants g i wf place_g linked in
    let bound = deep p place_p (rw at in_frontier) in
    let deeper = c.deeper in subst (λ x. suc k ≤ x.delegation_depth) same (omega arith)

-- Below the deepest grants there is nothing.
no_children :
    (grants : List DelegationGrant) (k : ℕ) (frontier : List Ident) (c : Ident) (cs : List Ident)
    → IsWellFormed grants
    → IsBelow grants k frontier
    → children grants frontier ≡ c ∷ cs
    → k < max_delegation_depth
no_children grants k frontier c cs wf deep e =
    let inside : contains (children grants frontier) c ≡ true =
      rw e (unfold contains in (ground (arith, nat_eq_iff c c))) in
    let (g, i, place_g, named, linked, in_frontier) = children→ grants frontier c inside in
    let (p, place_p, at, con) = parent_depth grants g i wf place_g linked in
    let bound = deep p place_p (rw at in_frontier) in
    let deeper = con.deeper in let limit = (wf g place_g).bounded in omega arith

descend_total :
    (fuel : ℕ) (grants : List DelegationGrant) (k : ℕ) (frontier : List Ident)
    → IsWellFormed grants
    → IsBelow grants k frontier
    → max_delegation_depth - k < fuel
    → (ds : List Ident) × (descend fuel grants frontier ≡ some ds)
unfolding descend extend
descend_total zero grants k frontier wf deep h = absurd (omega arith)
descend_total (suc fuel) grants k frontier wf deep h =
    elim (List-cases (children grants frontier)) [
      | inl e ↦ ([], rw (e, descend) refl)
      | inr (c, cs, e) ↦
          let limit = no_children grants k frontier c cs wf deep e in
          let (rest, found) =
            descend_total fuel grants (suc k) (children grants frontier) wf
              (children-IsBelow grants k frontier wf deep) (omega arith) in
          ((c ∷ cs) ++ rest, rw (e, descend) (ap (extend (c ∷ cs)) (rw e at found)))
    ]

-- In a well-formed table the walk from a grant ends, within one round for each hop that the depth
-- ceiling leaves below the grant, and one more.
pub find_descendant_ids_total :
    (fuel : ℕ) (grants : List DelegationGrant) (root : DelegationGrant)
    → IsWellFormed grants
    → In root grants
    → max_delegation_depth - root.delegation_depth < fuel
    → (ds : List Ident) × (find_descendant_ids fuel grants root.id ≡ some ds)
unfolding find_descendant_ids
find_descendant_ids_total fuel grants root wf place enough =
    descend_total fuel grants root.delegation_depth (root.id ∷ []) wf at_root enough
  where
    at_root : IsBelow grants root.delegation_depth (root.id ∷ [])
    at_root p place_p inside =
        let named : root.id ≡ p.id = unfold contains in (ground (arith, nat_eq_iff root.id p.id)) in
        let same = same_grant grants root p wf place place_p named in
        subst (λ x. root.delegation_depth ≤ x.delegation_depth) same (omega arith)
