-- ===== src/Delegation/Table/Depth.antt =====
-- In a well-formed table the depth that a grant records is the length of the chain that loads.
use ai_iam_platform.Prelude.{
  ℕ, zero, suc, ◌+◌, ◌≤◌, ◌≡◌, inl, inr, refl, ap, subst, sym, ◌∙◌, false, List, [], ◌∷◌, arith,
  ◌==◌, ℕ_eq, if◌then◌else◌, contains, In, Option, none, some, nat_eq_iff, length, map, Bool-cases,
  In-find,
}
use ai_iam_platform.Model.{Ident, DelegationGrant}
use ai_iam_platform.Delegation.Validator.{Verdict, approved, DelegationChain, chain_depth}
use ai_iam_platform.Delegation.Chain.{
  grant_by_id, grant_by_jti, top, parent, broken, look_up, walk, finish_chain, load_from,
  load_chain, link_of,
}
use ai_iam_platform.Delegation.Chain.Loaded.{finish_chain-approved}
use ai_iam_platform.Delegation.Table.{IsWellFormed, Continues}
use ai_iam_platform.Delegation.Cascade.Bounds.{IsBelow}

-- The parent of a grant is not among those visited below it.
fresh_parent :
    (grants : List DelegationGrant) (g p : DelegationGrant) (visited : List Ident)
    → Continues grants g p
    → IsBelow grants g.delegation_depth visited
    → contains visited p.id ≡ false
fresh_parent grants g p visited c deep = elim (Bool-cases (contains visited p.id)) [
  | inl q ↦ let bound = deep p c.held q in let deeper = c.deeper in absurd (omega arith)
  | inr q ↦ q
]

look_up-Continues :
    (grants : List DelegationGrant) (g p : DelegationGrant) (visited : List Ident)
    → IsWellFormed grants
    → Continues grants g p
    → IsBelow grants g.delegation_depth visited
    → look_up grants visited g.parent_grant_id ≡ (if p.is_active then parent p else broken p.id)
unfolding look_up
look_up-Continues grants g p visited wf c deep =
    let fresh = fresh_parent grants g p visited c deep in
    let found = (wf p c.held).by_id in rw (c.linked, fresh, found) refl

look_up-root :
    (grants : List DelegationGrant) (g : DelegationGrant) (visited : List Ident)
    → g.parent_grant_id ≡ none
    → look_up grants visited g.parent_grant_id ≡ top
unfolding look_up
look_up-root grants g visited e = rw e refl

IsBelow-cons :
    (grants : List DelegationGrant) (g p : DelegationGrant) (visited : List Ident)
    → IsWellFormed grants
    → Continues grants g p
    → IsBelow grants g.delegation_depth visited
    → IsBelow grants p.delegation_depth (p.id ∷ visited)
unfolding contains
IsBelow-cons grants g p visited wf c deep x place inside = elim (Bool-cases (p.id == x.id)) [
  | inl q ↦
      let named = (nat_eq_iff p.id x.id).0 q in
      let found_p = (wf p c.held).by_id in
      let found_x = (wf x place).by_id in
      let equal : ◌≡◌ {A = Option DelegationGrant} (some p) (some x) =
        sym found_p ∙ ap (grant_by_id grants) named ∙ found_x in
      let same : p ≡ x = cc in
      subst (λ y. p.delegation_depth ≤ y.delegation_depth) same (omega arith)
  | inr q ↦ let bound = deep x place (ground arith) in let deeper = c.deeper in omega arith
]

walk-length :
    (fuel : ℕ) (grants : List DelegationGrant) (g : DelegationGrant) (rest : List DelegationGrant)
    (visited : List Ident) (chain : List DelegationGrant)
    → IsWellFormed grants
    → In g grants
    → IsBelow grants g.delegation_depth visited
    → walk fuel grants g (g ∷ rest) visited ≡ approved chain
    → length chain ≡ length rest + g.delegation_depth
unfolding walk
walk-length zero grants g rest visited chain wf place deep h = absurd (cc)
walk-length (suc fuel) grants g rest visited chain wf place deep h = elim (wf g place).lineage [
  | inl (none_above, first) ↦
      let h' : ◌≡◌ {A = Verdict _} (approved (g ∷ rest)) (approved chain) =
        rw (look_up-root grants g visited none_above, walk) at h in
      let same : (g ∷ rest) ≡ chain = cc in rw (← same) (omega arith)
  | inr (p, c) ↦ elim (Bool-cases p.is_active) [
    | inl active ↦
        let step : look_up grants visited g.parent_grant_id ≡ parent p =
          look_up-Continues grants g p visited wf c deep ∙ rw active refl in
        let walked = rw (step, walk) at h in
        let longer =
          walk-length fuel grants p (g ∷ rest) (p.id ∷ visited) chain wf c.held
            (IsBelow-cons grants g p visited wf c deep) walked in
        let deeper = c.deeper in omega arith
    | inr inactive ↦
        let step : look_up grants visited g.parent_grant_id ≡ broken p.id =
          look_up-Continues grants g p visited wf c deep ∙ rw inactive refl in
        let h' = rw (step, walk) at h in absurd (cc)
  ]
]

-- In a well-formed table, the chain that loads for the token of a grant is as long as the depth
-- that the grant records: the counter of the row and the real lineage agree. The parent that a new
-- grant records is that grant.
pub load_chain-depth :
    (grants : List DelegationGrant) (jti : Ident) (own : DelegationGrant) (chain : DelegationChain)
    (parent_id : Option Ident)
    → IsWellFormed grants
    → grant_by_jti grants jti ≡ some own
    → load_chain grants (some jti) ≡ approved (chain, parent_id)
    → (chain_depth chain ≡ own.delegation_depth) × (parent_id ≡ some own.id)
unfolding load_chain
load_chain-depth grants jti own chain parent_id wf found h =
    let (place, _) =
      In-find (λ g. g.delegation_jti == jti) grants own (unfold grant_by_jti in found) in
    let loaded : load_from grants (some own) ≡ approved (chain, parent_id) =
      sym (ap (load_from grants) found) ∙ h in
    let finished : finish_chain own.id
          (walk (suc (length grants)) grants own (own ∷ []) (own.id ∷ []))
        ≡ approved (chain, parent_id) =
      ground arith in
    let (ancestors, walked, links, same) =
      finish_chain-approved own.id _ chain parent_id finished in
    let counted =
      walk-length (suc (length grants)) grants own [] (own.id ∷ []) ancestors wf place
        (own_IsBelow place) walked in
    (rw links (length-map ancestors ∙ counted ∙ omega arith), same)
  where
    own_IsBelow : In own grants → IsBelow grants own.delegation_depth (own.id ∷ [])
    own_IsBelow place x place_x inside =
        let named : own.id ≡ x.id = unfold contains in (ground (arith, nat_eq_iff own.id x.id)) in
        let found_own = (wf own place).by_id in
        let found_x = (wf x place_x).by_id in
        let equal : ◌≡◌ {A = Option DelegationGrant} (some own) (some x) =
          sym found_own ∙ ap (grant_by_id grants) named ∙ found_x in
        let same : own ≡ x = cc in
        subst (λ y. own.delegation_depth ≤ y.delegation_depth) same (omega arith)

    length-map : (gs : List DelegationGrant) → length (map link_of gs) ≡ length gs
    length-map = elim [ [] ↦ refl | g ∷ (gs → ih) ↦ ap suc ih ]
