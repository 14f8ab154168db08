-- ===== src/Revocation/Laws.antt =====
-- What a revocation achieves: from its moment on, no token that it reaches is accepted.
use ai_iam_platform.Prelude.{
  ℕ, ◌+◌, ◌-◌, ◌*◌, ◌/◌, ◌≤◌, ◌<◌, ◌≡◌, ◌∙◌, ◌⊎◌, inl, inr, refl, true, false, List, [], ◌∷◌, none,
  some, arith, ltb, ◌==◌, ℕ_eq, if◌then◌else◌, max, In, Bool-cases, ==_refl, string_eq, nat_eq_iff,
  subst, ap,
}
use ai_iam_platform.Model.{Ident, micros}
use ai_iam_platform.Revocation.Redis.{Redis, IndexKey, same_key}
use ai_iam_platform.Revocation.Index.{
  known, unavailable, is_revoked, revoke_jti, track_issued_jti, revoke_members, revoke_all_in_index,
}

pub same_key_refl : (k : IndexKey) → same_key k k ≡ true
unfolding same_key
same_key_refl (IndexKey.agent_jtis a) = ground (arith, nat_eq_iff a a)
same_key_refl (IndexKey.key_jtis a) = ==_refl a

module _ (r : Redis) where
  open r use {
    Store, exists, set_ex, zadd, zremrangebyscore, delete, zrangebyscore, score, exists-set_ex,
    exists-delete, score-zadd, zrangebyscore_iff, exists-zadd, exists-zremrangebyscore,
    score-zremrangebyscore_kept, score-delete,
  }

  -- The blacklist entry of a token lives as long as asked for, and one second at least.
  pub revoke_jti_lem :
      (i j : Ident) (ttl now t : ℕ) (s : Store)
      → exists j t (revoke_jti r i ttl now s)
        ≡ (if i == j then ltb t (now + max ttl 1 * micros) else exists j t s)
  unfolding revoke_jti
  revoke_jti_lem i j ttl now t s = exists-set_ex i j (max ttl 1) now t s

  -- With the rest of life rounded up, the entry outlives the token.
  rest_covers :
      (e now t : ℕ) → t < e * micros → ltb t (now + max (e - now / micros) 1 * micros) ≡ true
  rest_covers e now t h =
      let bound : t < now + max (e - now / micros) 1 * micros = omega arith in ground arith

  -- A token that is blacklisted up to its expiry stays so through the loop.
  pub revoke_members_keeps :
      (members : List (Ident × ℕ)) (j : Ident) (now t : ℕ) (s : Store)
      → ((e : ℕ) → In (j, e) members → t < e * micros)
      → exists j t s ≡ true
      → exists j t (revoke_members r members now s) ≡ true
  unfolding revoke_members
  revoke_members_keeps [] j now t s each h = h
  revoke_members_keeps ((i, e) ∷ members) j now t s each h =
      revoke_members_keeps members j now t (revoke_jti r i (e - now / micros) now s)
        (λ d k. each d (inr k))
        (revoke_jti_lem i j (e - now / micros) now t s ∙ covered (Bool-cases (i == j)))
    where
      covered :
          ((i == j) ≡ true) ⊎ ((i == j) ≡ false)
          → (if i == j then ltb t (now + max (e - now / micros) 1 * micros) else exists j t s)
            ≡ true
      covered (inl p) =
          rw p (rest_covers e now t (each e (inl (ap (λ x. (x, e)) ((nat_eq_iff i j).0 p)))))
      covered (inr p) = rw p h

  revoke_members_reaches :
      (members : List (Ident × ℕ)) (j : Ident) (e now t : ℕ) (s : Store)
      → ((d : ℕ) → In (j, d) members → t < d * micros)
      → In (j, e) members
      → exists j t (revoke_members r members now s) ≡ true
  unfolding revoke_members
  revoke_members_reaches [] j e now t s each h = elim h [ ]
  revoke_members_reaches ((i, d) ∷ members) j e now t s each (inl same) =
      revoke_members_keeps members j now t (revoke_jti r i (d - now / micros) now s)
        (λ d k. each d (inr k))
        (revoke_jti_lem i j (d - now / micros) now t s
          ∙ rw ((nat_eq_iff i j).1 (ap (λ x. x.0) same)) (
              rest_covers d now t
                (each d (inl (ap (λ x. (x, d)) (ap {A = Ident × ℕ} (λ x. x.0) same))))))
  revoke_members_reaches ((i, d) ∷ members) j e now t s each (inr h) =
      revoke_members_reaches members j e now t (revoke_jti r i (d - now / micros) now s)
        (λ d k. each d (inr k)) h

  -- Revoking an index rejects every live token that it tracks at each moment before the token
  -- expires, and leaves the index empty.
  pub revoke_all_in_index_reaches :
      (key : IndexKey) (j : Ident) (e now t : ℕ) (s : Store)
      → score key j s ≡ some e
      → now / micros ≤ e
      → t < e * micros
      → (is_revoked r true j t (revoke_all_in_index r key now s).0 ≡ known true)
        × (score key j (revoke_all_in_index r key now s).0 ≡ none)
  unfolding revoke_all_in_index is_revoked
  revoke_all_in_index_reaches key j e now t s tracked live before =
      let members = zrangebyscore key (now / micros) s in
      let reached : exists j t (revoke_members r members now s) ≡ true =
        revoke_members_reaches members j e now t s
          (λ d k.
            let held = ((zrangebyscore_iff key j (now / micros) d s).0 k).0 in
            let same : e ≡ d = ground arith in subst (λ x. t < x * micros) same before)
          ((zrangebyscore_iff key j (now / micros) e s).1 (tracked, live)) in
      (
        ap known (exists-delete key j t (revoke_members r members now s) ∙ reached),
        score-delete key key j (revoke_members r members now s) ∙ rw (same_key_refl key) refl,
      )

  -- A token that is issued and tracked is in its index, unless it has expired.
  pub track_issued_jti_lem :
      (key : IndexKey) (j : Ident) (exp now : ℕ) (s : Store)
      → now / micros < exp
      → score key j (track_issued_jti r key j exp now s) ≡ some exp
  unfolding track_issued_jti
  track_issued_jti_lem key j exp now s live =
      score-zremrangebyscore_kept key key j (now / micros) exp (zadd key j exp s)
        (score-zadd key key j j exp s ∙ rw (same_key_refl key, (nat_eq_iff j j).1 refl) refl)
        (ground arith)

  revoke_members_others :
      (members : List (Ident × ℕ)) (j : Ident) (now t : ℕ) (s : Store)
      → ((d : ℕ) → ¬ In (j, d) members)
      → exists j t (revoke_members r members now s) ≡ exists j t s
  unfolding revoke_members
  revoke_members_others [] j now t s absent = refl
  revoke_members_others ((i, e) ∷ members) j now t s absent =
      revoke_members_others members j now t (revoke_jti r i (e - now / micros) now s)
        (λ d k. absent d (inr k))
      ∙ revoke_jti_lem i j (e - now / micros) now t s
      ∙ rw (other (Bool-cases (i == j))) refl
    where
      other : ((i == j) ≡ true) ⊎ ((i == j) ≡ false) → (i == j) ≡ false
      other (inl p) = absurd (absent e (inl (ap (λ x. (x, e)) ((nat_eq_iff i j).0 p))))
      other (inr p) = p

  -- Revoking an index changes nothing for a token that the index does not track.
  pub revoke_all_in_index_others :
      (key : IndexKey) (j : Ident) (now t : ℕ) (s : Store)
      → score key j s ≡ none
      → is_revoked r true j t (revoke_all_in_index r key now s).0 ≡ is_revoked r true j t s
  unfolding revoke_all_in_index is_revoked
  revoke_all_in_index_others key j now t s untracked =
      let members = zrangebyscore key (now / micros) s in
      ap known (
        exists-delete key j t (revoke_members r members now s)
        ∙ revoke_members_others members j now t s
            (λ d k. let held = ((zrangebyscore_iff key j (now / micros) d s).0 k).0 in cc))

  -- Where Redis cannot be reached, no token is known to be good.
  pub is_revoked_down : (j : Ident) (t : ℕ) (s : Store) → is_revoked r false j t s ≡ unavailable
  unfolding is_revoked
  is_revoked_down j t s = refl
