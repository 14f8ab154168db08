-- ===== src/Revocation/Index.antt =====
-- The operations of backend/app/core/revocation.py over the interface. A call of a Redis that cannot
-- be reached raises; `up` says whether it can.
use ai_iam_platform.Prelude.{ℕ, ◌-◌, ◌/◌, Bool, List, [], ◌∷◌, if◌then◌else◌, max, length}
use ai_iam_platform.Model.{Ident, micros}
use ai_iam_platform.Revocation.Redis.{Redis, IndexKey}

-- `is_revoked` gives an answer or raises `RevocationCheckUnavailable`.
pub data RevocationCheck : Type 0 where
  known : Bool → RevocationCheck
  unavailable : RevocationCheck

module _ (r : Redis) where
  open r use {Store, exists, set_ex, zadd, zremrangebyscore, delete, zrangebyscore}

  unfoldable pub is_revoked : Bool → Ident → ℕ → Store → RevocationCheck
  is_revoked up jti now s = if up then known (exists jti now s) else unavailable

  unfoldable pub revoke_jti : Ident → ℕ → ℕ → Store → Store
  revoke_jti jti ttl_seconds now s = set_ex jti (max ttl_seconds 1) now s

  unfoldable pub track_issued_jti : IndexKey → Ident → ℕ → ℕ → Store → Store
  track_issued_jti key jti exp now s = zremrangebyscore key (now / micros) (zadd key jti exp s)

  -- The `for` loop: each live member is blacklisted for the rest of its life.
  unfoldable pub revoke_members : List (Ident × ℕ) → ℕ → Store → Store
  unfolding revoke_jti
  revoke_members [] now s = s
  revoke_members ((jti, exp) ∷ members) now s =
      revoke_members members now (revoke_jti jti (exp - now / micros) now s)

  -- The new store, and the number of tokens that were revoked.
  unfoldable pub revoke_all_in_index : IndexKey → ℕ → Store → Store × ℕ
  unfolding revoke_members
  revoke_all_in_index key now s =
      let members = zrangebyscore key (now / micros) s in
      (delete key (revoke_members members now s), length members)
