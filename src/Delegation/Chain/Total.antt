-- ===== src/Delegation/Chain/Total.antt =====
-- The walk ends: a round that goes on visits a grant of the table for the first time.
use ai_iam_platform.Prelude.{
  ℕ, zero, suc, ◌≤◌, ◌<◌, ◌≡◌, ◌≢◌, ◌⊎◌, inl, inr, refl, true, false, List, [], ◌∷◌, arith, ◌==◌,
  ℕ_eq, contains, length, Option, none, some, not, count, Option-cases, In, In-find, nat_eq_iff,
  subst,
}
use ai_iam_platform.Model.{Ident, DelegationGrant}
use ai_iam_platform.Delegation.Validator.{rejected, unfinished}
use ai_iam_platform.Delegation.Chain.{
  grant_by_id, Above, top, broken, parent, look_up, walk, load_chain, grant_by_jti,
}

-- A grant that goes on above `current` is active, stands in the table, and was not visited.
pub look_up-parent :
    (grants : List DelegationGrant) (visited : List Ident) (p : Option Ident) (g : DelegationGrant)
    → look_up grants visited p ≡ parent g
    → (p ≡ some g.id) × In g grants × (g.is_active ≡ true) × (contains visited g.id ≡ false)
unfolding look_up
look_up-parent grants visited none g h = absurd (cc)
look_up-parent grants visited (some i) g h = elim (Option-cases (grant_by_id grants i)) [
  | inl e ↦ absurd (ground arith)
  | inr (x, e) ↦
      let same : x ≡ g = ground arith in
      let (place, named) = In-find (λ y. y.id == i) grants x e in
      (
        ground (arith, nat_eq_iff x.id i),
        subst (λ y. In y grants) same place,
        ground arith,
        ground (arith, nat_eq_iff x.id i),
      )
]

pub Above-cases :
    (a : Above)
    → (a ≡ top) ⊎ ((i : Ident) × (a ≡ broken i)) ⊎ ((g : DelegationGrant) × (a ≡ parent g))
Above-cases top = inl refl
Above-cases (broken i) = inr (inl (i, refl))
Above-cases (parent g) = inr (inr (g, refl))

-- The grants of the table that were not visited yet.
abbrev unvisited : List Ident → List DelegationGrant → ℕ
unvisited visited grants = count (λ g. not (contains visited g.id)) grants

unvisited-le-length :
    (visited : List Ident) (grants : List DelegationGrant)
    → unvisited visited grants ≤ length grants
unfolding count
unvisited-le-length visited [] = omega arith
unvisited-le-length visited (g ∷ grants) = ground (arith, unvisited-le-length visited grants)

unvisited_mono :
    (i : Ident) (visited : List Ident) (grants : List DelegationGrant)
    → unvisited (i ∷ visited) grants ≤ unvisited visited grants
unfolding count contains
unvisited_mono i visited [] = omega arith
unvisited_mono i visited (g ∷ grants) = ground (arith, unvisited_mono i visited grants)

unvisited_drops :
    (g : DelegationGrant) (visited : List Ident) (grants : List DelegationGrant)
    → In g grants
    → contains visited g.id ≡ false
    → unvisited (g.id ∷ visited) grants < unvisited visited grants
unfolding count contains
unvisited_drops g visited [] h k = elim h [ ]
unvisited_drops g visited (x ∷ grants) (inl e) k =
    ground (arith, unvisited_mono g.id visited grants, nat_eq_iff g.id x.id)
unvisited_drops g visited (x ∷ grants) (inr h) k =
    ground (arith, unvisited_drops g visited grants h k)

pub walk_finishes :
    (fuel : ℕ) (grants : List DelegationGrant) (current : DelegationGrant)
    (ancestors : List DelegationGrant) (visited : List Ident)
    → unvisited visited grants < fuel
    → walk fuel grants current ancestors visited ≢ rejected unfinished
unfolding walk
walk_finishes zero grants current ancestors visited h = absurd (omega arith)
walk_finishes (suc fuel) grants current ancestors visited h =
    elim (Above-cases (look_up grants visited current.parent_grant_id)) [
      | inl e ↦ rw (e, walk) (λ k. cc)
      | inr (inl (i, e)) ↦ rw (e, walk) (λ k. cc)
      | inr (inr (g, e)) ↦
          let (_, place, _, fresh) = look_up-parent grants visited current.parent_grant_id g e in
          let less = unvisited_drops g visited grants place fresh in
          rw (e, walk) (walk_finishes fuel grants g (g ∷ ancestors) (g.id ∷ visited) (omega arith))
    ]

-- Loading a chain always ends with a chain or with an error of the program: the rounds never
-- outnumber the grants of the table, also where the parents form a cycle.
pub load_chain_finishes :
    (grants : List DelegationGrant) (jti : Option Ident)
    → load_chain grants jti ≢ rejected unfinished
unfolding load_chain
load_chain_finishes grants none = ground arith
load_chain_finishes grants (some jti) = elim (Option-cases (grant_by_jti grants jti)) [
  | inl e ↦ ground arith
  | inr (own, e) ↦
      let bound = unvisited-le-length (own.id ∷ []) grants in
      ground (
        arith,
        walk_finishes (suc (length grants)) grants own (own ∷ []) (own.id ∷ []) (omega arith),
      )
]
