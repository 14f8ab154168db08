-- ===== src/OAuth/Single.antt =====
-- A code is good for one attempt.
use ai_iam_platform.Prelude.{
  ℕ, ◌≡◌, ◌∙◌, refl, sym, ap, subst, inl, inr, String, Bool, true, false, Option, none, some, ◌==◌,
  string_eq, not, Option-cases,
}
use ai_iam_platform.Service.{World, Method, raise, guard, ◌>>◌}
use ai_iam_platform.Revocation.Redis.{Redis}
use ai_iam_platform.Delegation.Grants.{agent_by_id_and_org}
use ai_iam_platform.OAuth.{
  CodeData, CodeRedis, CodeRequest, Stores, resource_differs, take_code, track_code_token, redeem,
  check_code, exchange_authorization_code,
}

module _ (r : Redis) (k : CodeRedis) (challenge_of : String → String) where
  guard_codes :
      {A : Type 0} (t : Bool) (code : ℕ) (detail : String) (m : Method (Stores r k) A)
      (w : World (Stores r k))
      → (m w).1.redis.1 ≡ w.redis.1
      → ((guard t code detail >> m) w).1.redis.1 ≡ w.redis.1
  guard_codes true code detail m w h = h
  guard_codes false code detail m w h = refl

  redeem_codes :
      (q : CodeRequest) (d : CodeData) (w : World (Stores r k))
      → (redeem r k q d w).1.redis.1 ≡ w.redis.1
  unfolding redeem track_code_token
  redeem_codes q d w = elim (Option-cases (agent_by_id_and_org w.db.agents d.agent_id d.org_id)) [
    | inl e ↦ rw e refl
    | inr (a, e) ↦ rw e refl
  ]

  check_code_codes :
      (q : CodeRequest) (o : Option CodeData) (w : World (Stores r k))
      → (check_code r k challenge_of q o w).1.redis.1 ≡ w.redis.1
  unfolding check_code
  check_code_codes q none w = refl
  check_code_codes q (some d) w = guard_codes (d.client_id == q.client_id) 400 "invalid_grant" _ w (
      guard_codes (d.redirect_uri == q.redirect_uri) 400 "invalid_grant" _ w (
        guard_codes (challenge_of q.code_verifier == d.code_challenge) 400 "invalid_grant" _ w (
          guard_codes (not (resource_differs d.resource q.resource)) 400 "invalid_target"
            (redeem r k q d) w (redeem_codes q d w))))

  -- After an attempt to redeem a code, whether it has returned or raised, no later attempt with the same
  -- code returns a token: the code is invalid, even where the first attempt had the wrong client, redirect
  -- or verifier.
  pub exchange_authorization_code_once :
      (q p : CodeRequest) (w : World (Stores r k))
      → (q.grant_type == "authorization_code") ≡ true
      → (p.grant_type == "authorization_code") ≡ true
      → p.code ≡ q.code
      → (exchange_authorization_code r k challenge_of p
          (exchange_authorization_code r k challenge_of q w).1).0
        ≡ raise (record { status_code = 400; detail = "invalid_grant" })
  unfolding exchange_authorization_code take_code check_code
  exchange_authorization_code_once q p w first second same =
      let w' = (exchange_authorization_code r k challenge_of q w).1 in
      let codes : w'.redis.1 ≡ (k.getdel q.code q.now w.redis.1).1 =
        rw first (check_code_codes q (k.getdel q.code q.now w.redis.1).0 _) in
      let gone : (k.getdel p.code p.now w'.redis.1).0 ≡ none =
        ap (λ s. (k.getdel p.code p.now s).0) codes
        ∙ subst (λ c. (k.getdel c p.now (k.getdel q.code q.now w.redis.1).1).0 ≡ none) (sym same)
            (k.getdel-getdel q.code q.now p.now w.redis.1) in
      rw (second, gone) refl
