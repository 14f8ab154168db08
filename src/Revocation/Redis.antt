-- ===== src/Revocation/Redis.antt =====
-- The Redis commands behind the revocation index, as an interface. A store is read at a moment in
-- microseconds; a time to live and a score are in seconds.
use ai_iam_platform.Prelude.{
  ℕ, ◌+◌, ◌*◌, ◌≤◌, ◌≡◌, ◌↔◌, Bool, ◌&&◌, List, Option, none, some, ltb, leb, ◌==◌, if◌then◌else◌,
  In, ℕ_eq, false, String, string_eq,
}
use ai_iam_platform.Model.{Ident, micros}

-- The keys of the reverse indexes: `agent:{agent_id}:jtis` and `key:{key_id}:jtis`.
pub data IndexKey : Type 0 where
  agent_jtis : Ident → IndexKey
  key_jtis : String → IndexKey

unfoldable pub same_key : IndexKey → IndexKey → Bool
same_key (agent_jtis a) (agent_jtis b) = a == b
same_key (key_jtis a) (key_jtis b) = a == b
same_key _ _ = false

pub record Redis : Type 1 where
  pub Store : Type 0
  -- `EXISTS revoked_jti:{jti}` at a moment.
  pub exists : Ident → ℕ → Store → Bool
  -- `SET revoked_jti:{jti} 1 EX ttl` at a moment.
  pub set_ex : Ident → ℕ → ℕ → Store → Store
  -- `ZADD key {jti: score}`, `ZREMRANGEBYSCORE key -inf max`, `DEL key`.
  pub zadd : IndexKey → Ident → ℕ → Store → Store
  pub zremrangebyscore : IndexKey → ℕ → Store → Store
  pub delete : IndexKey → Store → Store
  -- `ZRANGEBYSCORE key min +inf WITHSCORES`
  pub zrangebyscore : IndexKey → ℕ → Store → List (Ident × ℕ)
  -- `ZSCORE key jti`: what the sorted set holds. The code does not send it; the laws are stated by it.
  pub score : IndexKey → Ident → Store → Option ℕ
  pub exists-set_ex :
      (i j : Ident) (ttl now t : ℕ) (s : Store)
      → exists j t (set_ex i ttl now s)
        ≡ (if i == j then ltb t (now + ttl * micros) else exists j t s)
  pub exists-zadd :
      (k : IndexKey) (i j : Ident) (e t : ℕ) (s : Store) → exists j t (zadd k i e s) ≡ exists j t s
  pub exists-zremrangebyscore :
      (k : IndexKey) (j : Ident) (e t : ℕ) (s : Store)
      → exists j t (zremrangebyscore k e s) ≡ exists j t s
  pub exists-delete :
      (k : IndexKey) (j : Ident) (t : ℕ) (s : Store) → exists j t (delete k s) ≡ exists j t s
  pub score-set_ex :
      (k : IndexKey) (i j : Ident) (ttl now : ℕ) (s : Store)
      → score k j (set_ex i ttl now s) ≡ score k j s
  pub score-zadd :
      (k l : IndexKey) (i j : Ident) (e : ℕ) (s : Store)
      → score l j (zadd k i e s) ≡ (if same_key k l && (i == j) then some e else score l j s)
  pub score-zremrangebyscore_kept :
      (k l : IndexKey) (j : Ident) (m e : ℕ) (s : Store)
      → score l j s ≡ some e
      → leb e m ≡ false
      → score l j (zremrangebyscore k m s) ≡ some e
  pub score-zremrangebyscore_ne :
      (k l : IndexKey) (j : Ident) (m : ℕ) (s : Store)
      → same_key k l ≡ false
      → score l j (zremrangebyscore k m s) ≡ score l j s
  pub score-delete :
      (k l : IndexKey) (j : Ident) (s : Store)
      → score l j (delete k s) ≡ (if same_key k l then none else score l j s)
  pub zrangebyscore_iff :
      (k : IndexKey) (j : Ident) (min e : ℕ) (s : Store)
      → In (j, e) (zrangebyscore k min s) ↔ ((score k j s ≡ some e) × (min ≤ e))
