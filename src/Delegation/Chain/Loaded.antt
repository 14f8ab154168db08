-- ===== src/Delegation/Chain/Loaded.antt =====
-- What a chain that loads is: an active lineage of the table.
use ai_iam_platform.Prelude.{
  ℕ, zero, suc, ◌≡◌, inl, inr, refl, true, List, [], ◌∷◌, arith, ◌==◌, ℕ_eq, length, Option, none,
  some, map, Option-cases, In, In-find, nat_eq_iff, subst,
}
use ai_iam_platform.Model.{Ident, DelegationGrant}
use ai_iam_platform.Delegation.Validator.{Verdict, approved, rejected, DelegationChain}
use ai_iam_platform.Delegation.Chain.{
  look_up, walk, finish_chain, load_chain, grant_by_jti, link_of,
}
use ai_iam_platform.Delegation.Chain.Total.{look_up-parent, Above-cases}

-- Each grant of the list is active and in the table, and is the parent of the next one.
abbrev pub IsLineage : List DelegationGrant → List DelegationGrant → Type 0
IsLineage grants [] = Unit
IsLineage grants (g ∷ []) = (g.is_active ≡ true) × In g grants
IsLineage grants (g ∷ k ∷ rest) =
    (g.is_active ≡ true)
    × In g grants
    × (k.parent_grant_id ≡ some g.id)
    × IsLineage grants (k ∷ rest)

-- The last grant of the list.
abbrev pub EndsIn : DelegationGrant → List DelegationGrant → Type 0
EndsIn own [] = ⊥
EndsIn own (g ∷ []) = g ≡ own
EndsIn own (g ∷ k ∷ rest) = EndsIn own (k ∷ rest)

walk-IsLineage :
    (own : DelegationGrant) (fuel : ℕ) (grants : List DelegationGrant) (current : DelegationGrant)
    (rest : List DelegationGrant) (visited : List Ident) (chain : List DelegationGrant)
    → IsLineage grants (current ∷ rest)
    → EndsIn own (current ∷ rest)
    → walk fuel grants current (current ∷ rest) visited ≡ approved chain
    → IsLineage grants chain × EndsIn own chain
unfolding walk
walk-IsLineage own zero grants current rest visited chain line ends h = absurd (cc)
walk-IsLineage own (suc fuel) grants current rest visited chain line ends h =
    elim (Above-cases (look_up grants visited current.parent_grant_id)) [
      | inl e ↦
          let h' : ◌≡◌ {A = Verdict _} (approved (current ∷ rest)) (approved chain) =
            rw (e, walk) at h in
          let same : (current ∷ rest) ≡ chain = cc in
          subst (λ c. IsLineage grants c × EndsIn own c) same (line, ends)
      | inr (inl (i, e)) ↦ absurd (let h' = rw (e, walk) at h in cc)
      | inr (inr (g, e)) ↦
          let (linked, place, active, _) =
            look_up-parent grants visited current.parent_grant_id g e in
          walk-IsLineage own fuel grants g (current ∷ rest) (g.id ∷ visited) chain
            (active, place, linked, line) ends (rw (e, walk) at h)
    ]

-- What stands behind a chain that was loaded for the token `jti`, with the parent for a new grant.
pub record IsLoaded (grants : List DelegationGrant) (jti : Ident) (chain : DelegationChain)
    (own_id : Ident) : Type 0 where
  pub own : DelegationGrant
  pub ancestors : List DelegationGrant
  pub links : chain ≡ map link_of ancestors
  pub lineage : IsLineage grants ancestors
  pub ends : EndsIn own ancestors
  pub own_named : own.id ≡ own_id
  pub own_jti : own.delegation_jti ≡ jti

pub finish_chain-approved :
    (i : Ident) (v : Verdict (List DelegationGrant)) (chain : DelegationChain) (p : Option Ident)
    → finish_chain i v ≡ approved (chain, p)
    → (ancestors : List DelegationGrant) × (v ≡ approved ancestors)
      × (chain ≡ map link_of ancestors)
      × (p ≡ some i)
unfolding finish_chain
finish_chain-approved i (approved ancestors) chain p h =
    (ancestors, refl, ground arith, ground arith)
finish_chain-approved i (rejected r) chain p h = absurd (cc)

-- A chain that loads for a token with a grant is an active lineage: every link is an active grant
-- of the table, each is the parent of the next, and the last is the grant that issued the token,
-- whose id the new grant records as its parent.
pub load_chain-IsLoaded :
    (grants : List DelegationGrant) (jti : Ident) (chain : DelegationChain) (own_id : Ident)
    → load_chain grants (some jti) ≡ approved (chain, some own_id)
    → IsLoaded grants jti chain own_id
unfolding load_chain
load_chain-IsLoaded grants jti chain own_id h = elim (Option-cases (grant_by_jti grants jti)) [
  | inl e ↦ absurd (ground arith)
  | inr (own, e) ↦
      let (place, named) = In-find (λ g. g.delegation_jti == jti) grants own e in
      let active : own.is_active ≡ true = ground arith in
      let walked : finish_chain own.id
            (walk (suc (length grants)) grants own (own ∷ []) (own.id ∷ []))
          ≡ approved (chain, some own_id) =
        ground arith in
      let (ancestors, reached, links, same) =
        finish_chain-approved own.id _ chain (some own_id) walked in
      let (line, ends) =
        walk-IsLineage own (suc (length grants)) grants own [] (own.id ∷ []) ancestors
          (active, place) refl reached in
      record {
        own = own;
        ancestors = ancestors;
        links = links;
        lineage = line;
        ends = ends;
        own_named = ground arith;
        own_jti = ground (arith, nat_eq_iff own.delegation_jti jti);
      }
]

-- A token with no grant originates a new chain: its chain is empty and has no parent.
pub load_chain-root :
    (grants : List DelegationGrant) (jti : Ident)
    → grant_by_jti grants jti ≡ none
    → load_chain grants (some jti) ≡ approved ([], none)
unfolding load_chain
load_chain-root grants jti h = ground arith
