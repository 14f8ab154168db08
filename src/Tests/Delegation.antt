-- ===== src/Tests/Delegation.antt =====
-- Delegation on the small organisation.
use ai_iam_platform.Prelude.{
  ◌*◌, ◌≡◌, ◌≢◌, ◌↔◌, refl, inl, inr, true, none, some, [], ◌∷◌, arith, contains, intersect,
  is_subset, ℕ_eq, string_eq, find, select, dedup, subst,
}
use ai_iam_platform.Model.{Ident, micros}
use ai_iam_platform.Delegation.Validator.{
  validate, approved, rejected, unfinished, chain_depth, chain_agent_ids, all_agent_ids,
  validate_scope_subset, DelegationChain,
}
use ai_iam_platform.Delegation.Chain.{
  load_chain, grant_by_jti, grant_by_id, load_from, walk, look_up, check_parent, finish_chain,
  link_of,
}
use ai_iam_platform.Delegation.Chain.Total.{load_chain_finishes}
use ai_iam_platform.Delegation.Chain.Loaded.{IsLoaded, load_chain-IsLoaded}
use ai_iam_platform.Delegation.Table.{IsWellFormed, IsPlaced}
use ai_iam_platform.Delegation.Cascade.{find_descendant_ids, children, extend, descend, is_child}
use ai_iam_platform.Delegation.Cascade.Reach.{Descends, find_descendant_ids_iff}
use ai_iam_platform.Delegation.Grants.{delegate, DelegateRequest, DelegateResponse}
use ai_iam_platform.Delegation.Grants.Refused.{delegate_refused}
use ai_iam_platform.Delegation.Grants.Issued.{IsIssued, delegate-IsIssued}
use ai_iam_platform.Delegation.Grants.Keeps.{ClaimsAgree, delegate-IsWellFormed}
use ai_iam_platform.Service.{return, raise, HttpError}
use ai_iam_platform.Revocation.Redis.{IndexKey}
use ai_iam_platform.Revocation.Index.{is_revoked, known, revoke_all_in_index}
use ai_iam_platform.Delegation.Recall.{delegate-revoke_all_in_index}
use ai_iam_platform.Revocation.Sample.{sample_redis}
use ai_iam_platform.Tests.{
  first_grant, second_grant, sample_db, sample_world, sample_request, sample_fresh,
}

validate_run : validate [] 1 2 ("delegate" ∷ []) ("delegate" ∷ []) ≡ approved ("delegate" ∷ [])
unfolding validate all_agent_ids validate_scope_subset chain_depth intersect select dedup contains
    chain_agent_ids
validate_run = refl

load_chain_finishes_example : load_chain sample_db.grants (some 202) ≢ rejected unfinished
load_chain_finishes_example = load_chain_finishes sample_db.grants (some 202)

abbrev sample_chain : DelegationChain
sample_chain = link_of first_grant ∷ link_of second_grant ∷ []

load_chain_run : load_chain sample_db.grants (some 202) ≡ approved (sample_chain, some 102)
unfolding load_chain load_from walk look_up check_parent finish_chain link_of grant_by_jti
    grant_by_id find contains
load_chain_run = refl

load_chain-IsLoaded_example : IsLoaded sample_db.grants 202 sample_chain 102
load_chain-IsLoaded_example =
    load_chain-IsLoaded sample_db.grants 202 sample_chain 102 load_chain_run

first-IsPlaced : IsPlaced sample_db.grants first_grant
unfolding grant_by_id find
first-IsPlaced = record { by_id = refl; bounded = omega arith; lineage = inl (refl, refl) }

second-IsPlaced : IsPlaced sample_db.grants second_grant
unfolding grant_by_id find is_subset contains
second-IsPlaced = record {
  by_id = refl;
  bounded = omega arith;
  lineage = inr (
    first_grant,
    record { linked = refl; held = inl refl; deeper = refl; same_agent = refl; attenuated = refl },
  );
}

pub sample-IsWellFormed : IsWellFormed sample_db.grants
sample-IsWellFormed g (inl e) = subst (IsPlaced sample_db.grants) e first-IsPlaced
sample-IsWellFormed g (inr (inl e)) = subst (IsPlaced sample_db.grants) e second-IsPlaced
sample-IsWellFormed g (inr (inr none_left)) = elim none_left [ ]

found_run : grant_by_jti sample_db.grants 202 ≡ some second_grant
unfolding grant_by_jti find
found_run = refl

descendants_run : find_descendant_ids 5 sample_db.grants 101 ≡ some (102 ∷ [])
unfolding find_descendant_ids children extend descend is_child select contains
descendants_run = refl

find_descendant_ids_iff_example :
    (contains {A = Ident} (102 ∷ []) 102 ≡ true) ↔ Descends sample_db.grants 101 102
find_descendant_ids_iff_example =
    find_descendant_ids_iff 5 sample_db.grants 101 (102 ∷ []) 102 descendants_run

abbrev sample_response : DelegateResponse
sample_response = record {
  delegation_token = record {
    agent_id = 4;
    delegated_by = 3;
    org_id = 9;
    scopes = "tool:execute" ∷ [];
    causal_trace_id = 7;
    delegation_depth = 3;
    on_behalf_of = none;
    iat = 5;
    exp = 605;
    jti = 203;
  };
  jti = 203;
  expires_in = 600;
  scopes = "tool:execute" ∷ [];
  delegation_depth = 3;
  grant = record first_grant {
    id = 103;
    delegating_agent_id = 3;
    delegatee_agent_id = 4;
    scopes = "tool:execute" ∷ [];
    delegation_depth = 3;
    delegation_jti = 203;
    expires_at = 605 * micros;
    parent_grant_id = some 102;
  };
  on_behalf_of = none;
}

delegate_run :
    (delegate sample_redis sample_request sample_fresh sample_world).0 ≡ return sample_response
unfolding delegate find load_chain walk look_up contains validate all_agent_ids dedup
    chain_agent_ids link_of validate_scope_subset intersect select
delegate_run = refl

delegate-IsIssued_example :
    IsIssued sample_redis sample_request sample_fresh sample_world
      (delegate sample_redis sample_request sample_fresh sample_world).1
      sample_response
delegate-IsIssued_example =
    delegate-IsIssued sample_redis sample_request sample_fresh sample_world sample_response
      delegate_run

-- Agent 3 asks for a scope that its grant does not hold.
abbrev wide_request : DelegateRequest
wide_request = record sample_request { requested_scopes = "credential:rotate" ∷ [] }

abbrev refusal : HttpError
refusal = record { status_code = 422; detail = "Delegation rejected" }

refused_run : (delegate sample_redis wide_request sample_fresh sample_world).0 ≡ raise refusal
unfolding delegate find load_chain walk look_up contains validate all_agent_ids dedup
    chain_agent_ids link_of validate_scope_subset intersect select
refused_run = refl

delegate_refused_example :
    ((delegate sample_redis wide_request sample_fresh sample_world).1.db ≡ sample_db)
    × ((delegate sample_redis wide_request sample_fresh sample_world).1.committed ≡ sample_db)
    × ((delegate sample_redis wide_request sample_fresh sample_world).1.redis ≡ sample_world.redis)
delegate_refused_example =
    delegate_refused sample_redis wide_request sample_fresh sample_world refusal refused_run

sample-ClaimsAgree : ClaimsAgree sample_db.grants sample_request
unfolding grant_by_jti find is_subset contains
sample-ClaimsAgree = record {
  agree = λ jti own h found.
      let at : jti ≡ 202 = cc in
      let row : some second_grant ≡ some own =
        subst (λ i. grant_by_jti sample_db.grants i ≡ some own) at found in
      let same : second_grant ≡ own = cc in
      subst
        (λ o.
          (3 ≡ o.delegatee_agent_id) × (is_subset sample_request.verified_scopes o.scopes ≡ true))
        same (refl, refl);
}

fresh_run : grant_by_id sample_db.grants 103 ≡ none
unfolding grant_by_id find
fresh_run = refl

delegate-IsWellFormed_example :
    IsWellFormed (delegate sample_redis sample_request sample_fresh sample_world).1.db.grants
delegate-IsWellFormed_example =
    delegate-IsWellFormed sample_redis sample_request sample_fresh sample_world sample_response
      delegate_run sample-IsWellFormed sample-ClaimsAgree fresh_run

delegate-revoke_all_in_index_example :
    is_revoked sample_redis true 203 100_000_000
      (revoke_all_in_index sample_redis
        (IndexKey.agent_jtis 4)
        50_000_000
        (delegate sample_redis sample_request sample_fresh sample_world).1.redis).0
    ≡ known true
delegate-revoke_all_in_index_example =
    delegate-revoke_all_in_index sample_redis sample_request sample_fresh sample_world
      sample_response 50_000_000 100_000_000 delegate_run (omega arith) (omega arith)
