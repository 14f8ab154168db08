-- ===== src/Tests/Revocation.antt =====
-- Revocation on the small organisation, the revocation index, and the circuit breaker.
use ai_iam_platform.Prelude.{
  ◌≡◌, refl, inl, inr, true, false, none, some, [], ◌∷◌, arith, contains, string_eq, find, select,
  update_where, In, subst, sym,
}
use ai_iam_platform.Model.{DelegationGrant}
use ai_iam_platform.Service.{return}
use ai_iam_platform.Revocation.Redis.{IndexKey, same_key}
use ai_iam_platform.Revocation.Index.{is_revoked, known}
use ai_iam_platform.Revocation.Sample.{sample_redis}
use ai_iam_platform.Delegation.Validator.{rejected, own_grant_revoked, max_delegation_depth}
use ai_iam_platform.Delegation.Chain.{load_chain, grant_by_jti}
use ai_iam_platform.Delegation.Cascade.{find_descendant_ids, descend, children, is_child}
use ai_iam_platform.Delegation.Cascade.Reach.{child, find_descendant_ids_iff}
use ai_iam_platform.Delegation.Revoke.{
  revoke_grant, RevokeRequest, RevokeResponse, grant_by_id_and_org,
}
use ai_iam_platform.Delegation.Revoke.Effects.{
  IsReached, revoke_grant_total, revoke_grant_spares, revoke_grant_stops_delegation,
}
use ai_iam_platform.Delegation.Revoke.Tokens.{revoke_grant_blacklists}
use ai_iam_platform.Delegation.Revoke.Lapse.{revoke_grant_lapses}
use ai_iam_platform.Breaker.{is_open, Breaker}
use ai_iam_platform.Breaker.Laws.{fail_all, half_open_admits}
use ai_iam_platform.Tests.{first_grant, second_grant, sample_db, sample_world, sample_revocation}
use ai_iam_platform.Tests.Delegation.{sample-IsWellFormed}

abbrev sample_revoked : RevokeResponse
sample_revoked = record {
  grant_id = 101;
  revoked = true;
  descendant_grants_revoked = 1;
  reason = "test";
}

revoke_run : (revoke_grant sample_redis 5 sample_revocation sample_world).0 ≡ return sample_revoked
unfolding revoke_grant find find_descendant_ids descend children select is_child contains
    update_where
revoke_run = refl

grant_run : grant_by_id_and_org sample_db.grants 101 9 ≡ some first_grant
unfolding grant_by_id_and_org find
grant_run = refl

revoke_grant_total_example :
    (resp : RevokeResponse) × ((revoke_grant sample_redis max_delegation_depth sample_revocation
        sample_world).0
      ≡ return resp)
    × (resp.revoked ≡ true)
revoke_grant_total_example =
    revoke_grant_total sample_redis sample_revocation sample_world first_grant sample-IsWellFormed
      grant_run

abbrev second_revoked : DelegationGrant
second_revoked = record second_grant {
  is_active = false;
  revoked_at = some 10_500_000;
  revocation_reason = some "test";
}

second-IsReached : IsReached sample_db.grants 101 102
second-IsReached = inr (child second_grant (inr (inl refl)) refl)

second_row :
    In second_revoked (revoke_grant sample_redis 5 sample_revocation sample_world).1.db.grants
unfolding revoke_grant find find_descendant_ids descend children select is_child contains
    update_where
second_row = inr (inl refl)

-- The revocation of the second grant leaves the first alone.
abbrev lower_revocation : RevokeRequest
lower_revocation = record sample_revocation { grant_id = 102 }

abbrev lower_revoked : RevokeResponse
lower_revoked = record sample_revoked { grant_id = 102; descendant_grants_revoked = 0 }

lower_run : (revoke_grant sample_redis 5 lower_revocation sample_world).0 ≡ return lower_revoked
unfolding revoke_grant find find_descendant_ids descend children select is_child contains
    update_where
lower_run = refl

lower_row : In first_grant (revoke_grant sample_redis 5 lower_revocation sample_world).1.db.grants
unfolding revoke_grant find find_descendant_ids descend children select is_child contains
    update_where
lower_row = inl refl

lower_walk : find_descendant_ids 5 sample_db.grants 102 ≡ some []
unfolding find_descendant_ids descend children select is_child contains
lower_walk = refl

first-is_not-IsReached : ¬ IsReached sample_db.grants 102 101
unfolding contains
first-is_not-IsReached (inl e) = absurd (omega arith)
first-is_not-IsReached (inr d) =
    let e = (find_descendant_ids_iff 5 sample_db.grants 102 [] 101 lower_walk).1 d in absurd (cc)

revoke_grant_spares_example : In first_grant sample_db.grants
revoke_grant_spares_example =
    revoke_grant_spares sample_redis 5 lower_revocation sample_world lower_revoked first_grant
      lower_run lower_row first-is_not-IsReached

second_found :
    grant_by_jti (revoke_grant sample_redis 5 sample_revocation sample_world).1.db.grants 202
    ≡ some second_revoked
unfolding revoke_grant find find_descendant_ids descend children select is_child contains
    update_where grant_by_jti
second_found = refl

revoke_grant_stops_delegation_example :
    load_chain (revoke_grant sample_redis 5 sample_revocation sample_world).1.db.grants (some 202)
    ≡ rejected (own_grant_revoked 102)
revoke_grant_stops_delegation_example =
    revoke_grant_stops_delegation sample_redis 5 sample_revocation sample_world sample_revoked
      second_revoked revoke_run second-IsReached second_found

second_unique :
    (x : DelegationGrant) → In x sample_db.grants → x.delegation_jti ≡ 202 → x ≡ second_grant
second_unique x (inl e) h =
    absurd (let j : 201 ≡ 202 = subst (λ g. g.delegation_jti ≡ 202) (sym e) h in omega arith)
second_unique x (inr (inl e)) h = sym e
second_unique x (inr (inr none_left)) h = elim none_left [ ]

revoke_grant_blacklists_example :
    is_revoked sample_redis true 202 20_000_000
      (revoke_grant sample_redis 5 sample_revocation sample_world).1.redis
    ≡ known true
revoke_grant_blacklists_example =
    revoke_grant_blacklists sample_redis 5 sample_revocation sample_world sample_revoked
      second_grant 20_000_000 revoke_run (inr (inl refl)) second-IsReached second_unique
      (omega arith) (omega arith)

not_yet_revoked : is_revoked sample_redis true 202 599_600_000 sample_world.redis ≡ known false
unfolding is_revoked
not_yet_revoked = refl

revoke_grant_lapses_example :
    is_revoked sample_redis true 202 599_600_000
      (revoke_grant sample_redis 5 sample_revocation sample_world).1.redis
    ≡ known false
revoke_grant_lapses_example =
    revoke_grant_lapses sample_redis 5 sample_revocation sample_world sample_revoked second_grant
      599_600_000 revoke_run second_unique (omega arith) not_yet_revoked

-- A store with the token 202 in the index of agent 3, until second 600.
abbrev tracked : sample_redis.Store
tracked = ([], (IndexKey.agent_jtis 3, 202, 600) ∷ [])

tracked_score : sample_redis.score (IndexKey.agent_jtis 3) 202 tracked ≡ some 600
unfolding same_key
tracked_score = refl

untracked_score : sample_redis.score (IndexKey.agent_jtis 3) 201 tracked ≡ none
unfolding same_key
untracked_score = refl

abbrev open_breaker : Breaker
open_breaker = record { failures = λ s. 5; opened_at = λ s. some 0 }

half_open_admits_example :
    ((is_open open_breaker 50 40_000_000).0 ≡ false)
    × ((is_open (fail_all (is_open open_breaker 50 40_000_000).1 50 (1 ∷ 2 ∷ [])) 50 50_000_000).0
        ≡ false)
half_open_admits_example =
    half_open_admits open_breaker 50 0 40_000_000 50_000_000 (1 ∷ 2 ∷ []) refl (omega arith)
      (omega arith)
