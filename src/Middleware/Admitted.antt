-- ===== src/Middleware/Admitted.antt =====
-- What a request that reaches an agent's handler has shown.
use ai_iam_platform.Prelude.{
  ℕ, ◌≤◌, ◌≡◌, ◌≢◌, ◌∙◌, refl, sym, ap, subst, inl, inr, String, Bool, true, false, Option, none,
  some, ◌==◌, string_eq, contains, ltb, arith, Bool-cases, Option-cases,
}
use ai_iam_platform.Model.{Ident}
use ai_iam_platform.Revocation.Redis.{Redis}
use ai_iam_platform.Revocation.Index.{RevocationCheck, known, unavailable, is_revoked}
use ai_iam_platform.Delegation.Validator.{max_delegation_depth}
use ai_iam_platform.Middleware.{
  Claims, Verified, valid, expired, claims_error, jwt_error, Jose, Identity, Admission, admitted,
  refused, identity_of, check_claims, after_revocation, open_route, bound, excluded_paths,
  requires_agent_auth, extract_bearer_token, answer, validate_jti, validate_token, dispatch_token,
  dispatch,
}

-- A token that stands for an identity: it verifies at the moment, it is known not to be revoked, and it
-- is within the depth ceiling.
pub record IsAuthentic (r : Redis) (jose : Jose) (up : Bool) (now : ℕ) (s : r.Store)
    (token : String) (i : Identity) : Type 0 where
  pub decoded : jose.decode token now ≡ valid i.claims
  pub names_jti : jose.unverified_jti token ≡ some i.jti
  pub not_revoked : is_revoked r up i.jti now s ≡ known false
  pub within_depth : i.claims.delegation_depth ≤ max_delegation_depth
  pub is_of : (i.claims.agent_id ≡ some i.agent_id) × (i.claims.org_id ≡ some i.org_id)

identity_of_lem :
    (jti : Ident) (c : Claims) (a o : Option Ident) (i : Identity)
    → identity_of jti c a o ≡ admitted i
    → (a ≡ some i.agent_id) × (o ≡ some i.org_id) × (i.jti ≡ jti) × (i.claims ≡ c)
unfolding identity_of
identity_of_lem jti c (some a) (some o) i h =
    let same : record { agent_id = a; org_id = o; jti = jti; claims = c } ≡ i = cc in
    (
      ap (λ x. some x.agent_id) same,
      ap (λ x. some x.org_id) same,
      ap (λ x. x.jti) (sym same),
      ap (λ x. x.claims) (sym same),
    )
identity_of_lem jti c (some a) none i h = absurd (cc)
identity_of_lem jti c none o i h = absurd (cc)

check_claims_lem :
    (jti : Ident) (v : Verified) (i : Identity)
    → check_claims jti v ≡ admitted i
    → (v ≡ valid i.claims)
      × (i.jti ≡ jti)
      × (i.claims.delegation_depth ≤ max_delegation_depth)
      × (i.claims.agent_id ≡ some i.agent_id)
      × (i.claims.org_id ≡ some i.org_id)
unfolding check_claims
check_claims_lem jti expired i h = absurd (cc)
check_claims_lem jti claims_error i h = absurd (cc)
check_claims_lem jti jwt_error i h = absurd (cc)
check_claims_lem jti (valid c) i h =
    elim (Bool-cases (ltb max_delegation_depth c.delegation_depth)) [
      | inl e ↦ absurd (let bad = rw e at h in cc)
      | inr e ↦
          let (agent, org, named, claims) =
            identity_of_lem jti c c.agent_id c.org_id i (rw e at h) in
          let shallow : c.delegation_depth ≤ max_delegation_depth = ground arith in
          (
            ap valid (sym claims),
            named,
            subst (λ x. x.delegation_depth ≤ max_delegation_depth) (sym claims) shallow,
            ap (λ x. x.agent_id) claims ∙ agent,
            ap (λ x. x.org_id) claims ∙ org,
          )
    ]

after_revocation_lem :
    (jose : Jose) (now : ℕ) (token : String) (jti : Ident) (c : RevocationCheck) (i : Identity)
    → after_revocation jose now token jti c ≡ admitted i
    → (c ≡ known false) × (check_claims jti (jose.decode token now) ≡ admitted i)
unfolding after_revocation
after_revocation_lem jose now token jti unavailable i h = absurd (cc)
after_revocation_lem jose now token jti (known true) i h = absurd (cc)
after_revocation_lem jose now token jti (known false) i h = (refl, h)

module _ (r : Redis) (jose : Jose) where
  validate_token-IsAuthentic :
      (up : Bool) (now : ℕ) (s : r.Store) (token : String) (i : Identity)
      → validate_token r jose up now s token ≡ admitted i
      → IsAuthentic r jose up now s token i
  unfolding validate_token validate_jti
  validate_token-IsAuthentic up now s token i h = elim (Option-cases (jose.unverified_jti token)) [
    | inl e ↦ absurd (let bad = rw e at h in cc)
    | inr (jti, e) ↦
        let (fresh, checked) =
          after_revocation_lem jose now token jti (is_revoked r up jti now s) i
            (rw (e, validate_jti) at h) in
        let (decoded, named, shallow, agent, org) =
          check_claims_lem jti (jose.decode token now) i checked in
        record {
          decoded = decoded;
          names_jti = e ∙ ap some (sym named);
          not_revoked = subst (λ j. is_revoked r up j now s ≡ known false) (sym named) fresh;
          within_depth = shallow;
          is_of = (agent, org);
        }
  ]

  answer_lem : (a : Admission) (i : Identity) → answer a ≡ bound i → a ≡ admitted i
  unfolding answer
  answer_lem (admitted j) i h = let same : j ≡ i = cc in ap admitted same
  answer_lem (refused code error) i h = absurd (cc)

  dispatch_token-bound :
      (up : Bool) (now : ℕ) (s : r.Store) (o : Option String) (i : Identity)
      → dispatch_token r jose up now s o ≡ bound i
      → (token : String) × (o ≡ some token) × IsAuthentic r jose up now s token i
  unfolding dispatch_token
  dispatch_token-bound up now s none i h = absurd (cc)
  dispatch_token-bound up now s (some token) i h = elim (Bool-cases (token == "")) [
    | inl e ↦ absurd (let bad = rw e at h in cc)
    | inr e ↦ (
      token,
      refl,
      validate_token-IsAuthentic up now s token i
          (answer_lem (validate_token r jose up now s token) i (rw e at h)),
    )
  ]

  dispatch_token_closed :
      (up : Bool) (now : ℕ) (s : r.Store) (o : Option String)
      → dispatch_token r jose up now s o ≢ open_route
  unfolding dispatch_token answer
  dispatch_token_closed up now s none h = absurd (cc)
  dispatch_token_closed up now s (some token) h = elim (Bool-cases (token == "")) [
    | inl e ↦ absurd (let bad = rw e at h in cc)
    | inr e ↦ answer_closed (validate_token r jose up now s token) (rw e at h)
  ]
    where
      answer_closed : (a : Admission) → answer a ≡ open_route → ⊥
      answer_closed (admitted i) k = absurd (cc)
      answer_closed (refused code error) k = absurd (cc)

  -- A request is given an identity only on a path that requires one, for a bearer token that verifies,
  -- is known not to be revoked and is within the depth ceiling, and the identity is that of its claims.
  -- On such a path, unless it is one of the excluded, no request passes without an identity.
  pub dispatch_guards :
      (up : Bool) (now : ℕ) (s : r.Store) (path auth : String)
      → ((i : Identity)
          → dispatch r jose up now s path auth ≡ bound i
          → (requires_agent_auth path ≡ true)
            × ((token : String) × (extract_bearer_token auth ≡ some token)
                × IsAuthentic r jose up now s token i))
        × (contains excluded_paths path ≡ false
            → requires_agent_auth path ≡ true
            → dispatch r jose up now s path auth ≢ open_route)
  unfolding dispatch
  dispatch_guards up now s path auth = (
    λ i h. elim (Bool-cases (contains excluded_paths path)) [
      | inl e ↦ absurd (let bad = rw e at h in cc)
      | inr e ↦ elim (Bool-cases (requires_agent_auth path)) [
        | inl p ↦ (p, dispatch_token-bound up now s (extract_bearer_token auth) i (rw (e, p) at h))
        | inr p ↦ absurd (let bad = rw (e, p) at h in cc)
      ]
    ],
    λ e p h. dispatch_token_closed up now s (extract_bearer_token auth) (rw (e, p) at h),
  )
