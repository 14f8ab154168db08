-- ===== src/Agents/Human/Resolved.antt =====
-- Which human a new token of an agent names, and what grants and revocations change of it.
use ai_iam_platform.Prelude.{
  ℕ, ◌+◌, ◌*◌, ◌<◌, ◌≡◌, ◌≢◌, ◌⊎◌, ◌∙◌, inl, inr, refl, sym, ap, subst, true, false, Option, some,
  List, [], ◌∷◌, ◌++◌, ◌==◌, ℕ_eq, string_eq, is_subset, contains, ◌↔◌, is_subset→contains,
  contains→is_subset, select, In, nat_eq_iff, In-append_right, select-In, In-select,
  In-update_where, update_where, arith, Bool-cases, Option-cases, ==_refl,
}
use ai_iam_platform.Model.{Ident, Scope, micros, Agent, OnBehalfOfGrant}
use ai_iam_platform.Service.{World, return}
use ai_iam_platform.Delegation.Grants.{agent_by_id_and_org}
use ai_iam_platform.Agents.Human.{
  is_live_grant, get_active_for_agent, human_grant_by_id, first_cover, resolve_on_behalf_of,
  HumanGrantRequest, new_human_grant, grant_on_behalf_of, HumanRevokeRequest, revoked_human_grant,
  revoke_on_behalf_of,
}

-- A grant of the table that is of the agent, active, not expired, and covers a request.
pub record IsVoucher (grants : List OnBehalfOfGrant) (agent now : ℕ) (requested : List Scope)
    (g : OnBehalfOfGrant) : Type 0 where
  pub place : In g grants
  pub own : g.agent_id ≡ agent
  pub active : g.is_active ≡ true
  pub unexpired : now < g.expires_at
  pub covers : (s : Scope) → contains requested s ≡ true → contains g.scopes s ≡ true

is_live_grant_iff :
    (agent now : ℕ) (g : OnBehalfOfGrant)
    → (is_live_grant agent now g ≡ true)
      ↔ ((g.agent_id ≡ agent) × (g.is_active ≡ true) × (now < g.expires_at))
unfolding is_live_grant
is_live_grant_iff agent now g = ground (arith, nat_eq_iff g.agent_id agent)

live :
    (grants : List OnBehalfOfGrant) (agent now : ℕ) (requested : List Scope) (g : OnBehalfOfGrant)
    → IsVoucher grants agent now requested g
    → is_live_grant agent now g ≡ true
live grants agent now requested g v =
    (is_live_grant_iff agent now g).1 (v.own, v.active, v.unexpired)

voucher :
    (grants : List OnBehalfOfGrant) (agent now : ℕ) (requested : List Scope) (g : OnBehalfOfGrant)
    → In g grants
    → is_live_grant agent now g ≡ true
    → is_subset requested g.scopes ≡ true
    → IsVoucher grants agent now requested g
voucher grants agent now requested g place alive covers =
    let (own, active, unexpired) = (is_live_grant_iff agent now g).0 alive in
    record {
      place = place;
      own = own;
      active = active;
      unexpired = unexpired;
      covers = λ s. is_subset→contains requested g.scopes s covers;
    }

first_cover_cases :
    (grants : List OnBehalfOfGrant) (requested : List Scope) (fallback : Option Ident)
    → ((g : OnBehalfOfGrant) × In g grants
        × (is_subset requested g.scopes ≡ true)
        × (first_cover grants requested fallback ≡ some g.granted_by_user_id))
      ⊎ (((g : OnBehalfOfGrant) → In g grants → is_subset requested g.scopes ≡ false)
          × (first_cover grants requested fallback ≡ fallback))
unfolding first_cover
first_cover_cases [] requested fallback = inr (λ g h. elim h [ ], refl)
first_cover_cases (x ∷ grants) requested fallback =
    elim (Bool-cases (is_subset requested x.scopes)) [
      | inl e ↦ inl (x, inl refl, e, rw e refl)
      | inr e ↦ elim (first_cover_cases grants requested fallback) [
        | inl (g, place, covers, found) ↦ inl (g, inr place, covers, rw e found)
        | inr (none_covers, found) ↦ inr (
          λ g h. elim h [
            | inl same ↦ subst (λ v. is_subset requested v.scopes ≡ false) same e
            | inr rest ↦ none_covers g rest
          ],
          rw e found,
        )
      ]
    ]

-- `resolve_on_behalf_of` answers the human who gave a grant of the table that is of this agent, active,
-- not expired and with all requested scopes, if there is such a grant, and else the human who activated
-- the agent, or none.
pub resolve_on_behalf_of_cases :
    (grants : List OnBehalfOfGrant) (now : ℕ) (agent : Agent) (requested : List Scope)
    → ((g : OnBehalfOfGrant) × IsVoucher grants agent.id now requested g
        × (resolve_on_behalf_of grants now agent requested ≡ some g.granted_by_user_id))
      ⊎ (((g : OnBehalfOfGrant) → ¬ IsVoucher grants agent.id now requested g)
          × (resolve_on_behalf_of grants now agent requested ≡ agent.activated_by_user_id))
unfolding resolve_on_behalf_of get_active_for_agent
resolve_on_behalf_of_cases grants now agent requested =
    elim (first_cover_cases (select (is_live_grant agent.id now) grants) requested
      agent.activated_by_user_id) [
        | inl (g, place, covers, found) ↦
            let (there, alive) = In-select (is_live_grant agent.id now) grants g place in
            inl (g, voucher grants agent.id now requested g there alive covers, found)
        | inr (none_covers, found) ↦ inr (
          λ g v. absurd (
              let k = none_covers g (
                select-In (is_live_grant agent.id now) grants g v.place
                  (live grants agent.id now requested g v)) in
              let c = contains→is_subset requested g.scopes v.covers in cc),
          found,
        )
      ]

is_live_grant_revoked :
    (q : HumanRevokeRequest) (agent now : ℕ) (x : OnBehalfOfGrant)
    → is_live_grant agent now (revoked_human_grant q x) ≡ false
unfolding is_live_grant revoked_human_grant
is_live_grant_revoked q agent now x = ground arith

is_live_grant_new :
    (q : HumanGrantRequest) (now : ℕ)
    → now < q.now + q.ttl_seconds * micros
    → is_live_grant q.agent_id now (new_human_grant q) ≡ true
unfolding is_live_grant new_human_grant
is_live_grant_new q now early = ground (arith, nat_eq_iff q.agent_id q.agent_id)

module _ {S : Type 0} where
  revoke_on_behalf_of-return :
      (q : HumanRevokeRequest) (w : World S)
      → (revoke_on_behalf_of q w).0 ≡ return tt
      → (revoke_on_behalf_of q w).1.db.on_behalf_of_grants
        ≡ update_where (λ g. g.id == q.grant_id) (revoked_human_grant q) w.db.on_behalf_of_grants
  unfolding revoke_on_behalf_of
  revoke_on_behalf_of-return q w h =
      elim (Option-cases (human_grant_by_id w.db.on_behalf_of_grants q.grant_id q.org_id)) [
        | inl e ↦ absurd (let bad = rw e at h in cc)
        | inr (g, e) ↦ rw e refl
      ]

  -- When a revocation returns, the revoked grant vouches for nothing any more: each grant that does
  -- is another one, and was in the table before.
  pub revoke_on_behalf_of_stops :
      (q : HumanRevokeRequest) (w : World S) (agent now : ℕ) (requested : List Scope)
      (g : OnBehalfOfGrant)
      → (revoke_on_behalf_of q w).0 ≡ return tt
      → IsVoucher (revoke_on_behalf_of q w).1.db.on_behalf_of_grants agent now requested g
      → (g.id ≢ q.grant_id) × IsVoucher w.db.on_behalf_of_grants agent now requested g
  revoke_on_behalf_of_stops q w agent now requested g h v =
      let (x, before, same) =
        In-update_where (λ y. y.id == q.grant_id) (revoked_human_grant q) w.db.on_behalf_of_grants g
          (subst (λ y. In g y) (revoke_on_behalf_of-return q w h) v.place) in
      elim (Bool-cases (x.id == q.grant_id)) [
        | inl e ↦
            let gone : g ≡ revoked_human_grant q x = same ∙ rw e refl in
            absurd (
              let dead = is_live_grant_revoked q agent now x in
              let live =
                subst (λ y. is_live_grant agent now y ≡ true) gone
                  (live (revoke_on_behalf_of q w).1.db.on_behalf_of_grants agent now requested g
                    v) in
              cc)
        | inr e ↦
            let kept : g ≡ x = same ∙ rw e refl in
            (
              λ named. absurd (
                  let apart = subst (λ y. (y.id == q.grant_id) ≡ false) (sym kept) e in
                  let self =
                    subst (λ n. (n == q.grant_id) ≡ true) (sym named) (==_refl q.grant_id) in
                  cc),
              record {
                place = subst (λ y. In y w.db.on_behalf_of_grants) (sym kept) before;
                own = v.own;
                active = v.active;
                unexpired = v.unexpired;
                covers = v.covers;
              },
            )
      ]

  grant_on_behalf_of-return :
      (q : HumanGrantRequest) (w : World S) (g : OnBehalfOfGrant)
      → (grant_on_behalf_of q w).0 ≡ return g
      → (g ≡ new_human_grant q)
        × ((grant_on_behalf_of q w).1.db.on_behalf_of_grants
            ≡ w.db.on_behalf_of_grants ++ (new_human_grant q ∷ []))
        × ((a : Agent) × (agent_by_id_and_org w.db.agents q.agent_id q.org_id ≡ some a)
            × (is_subset q.scopes a.allowed_scopes ≡ true))
  unfolding grant_on_behalf_of
  grant_on_behalf_of-return q w g h =
      elim (Option-cases (agent_by_id_and_org w.db.agents q.agent_id q.org_id)) [
        | inl e ↦ absurd (let bad = rw e at h in cc)
        | inr (a, e) ↦ elim (Bool-cases (is_subset q.scopes a.allowed_scopes)) [
          | inr s ↦ absurd (let bad = rw (e, s) at h in cc)
          | inl s ↦ let k = rw (e, s) at h in (cc, rw (e, s) refl, (a, e, s))
        ]
      ]

  -- A grant that is given is within the scopes of the agent, and vouches for each request inside its
  -- own scopes until its ttl has passed.
  pub grant_on_behalf_of_vouches :
      (q : HumanGrantRequest) (w : World S) (g : OnBehalfOfGrant) (now : ℕ) (requested : List Scope)
      → (grant_on_behalf_of q w).0 ≡ return g
      → now < q.now + q.ttl_seconds * micros
      → is_subset requested g.scopes ≡ true
      → (g.granted_by_user_id ≡ q.granted_by_user_id)
        × IsVoucher (grant_on_behalf_of q w).1.db.on_behalf_of_grants q.agent_id now requested g
        × ((a : Agent) × (agent_by_id_and_org w.db.agents q.agent_id q.org_id ≡ some a)
            × (is_subset requested a.allowed_scopes ≡ true))
  unfolding new_human_grant
  grant_on_behalf_of_vouches q w g now requested h early inside =
      let (same, rows, (a, found, within)) = grant_on_behalf_of-return q w g h in
      let held : is_subset requested (new_human_grant q).scopes ≡ true =
        subst (λ x. is_subset requested x.scopes ≡ true) same inside in
      (
        ap (λ x. x.granted_by_user_id) same,
        voucher (grant_on_behalf_of q w).1.db.on_behalf_of_grants q.agent_id now requested g
            (subst (λ x. In g x) (sym rows)
              (In-append_right g w.db.on_behalf_of_grants (new_human_grant q ∷ [])
                (inl (sym same))))
            (subst (λ x. is_live_grant q.agent_id now x ≡ true) (sym same)
              (is_live_grant_new q now early))
            inside,
        (
          a,
          found,
          contains→is_subset requested a.allowed_scopes (λ s k.
              is_subset→contains q.scopes a.allowed_scopes s within
                (is_subset→contains requested q.scopes s held k)),
        ),
      )
