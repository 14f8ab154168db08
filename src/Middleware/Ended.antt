-- ===== src/Middleware/Ended.antt =====
-- The end of a token's use: from the exchange of a key, over its revocation, to the requests that the
-- token no longer opens.
use ai_iam_platform.Prelude.{ℕ, ◌+◌, ◌*◌, ◌/◌, ◌≤◌, ◌<◌, ◌≡◌, ◌≢◌, subst, String, Bool, true, false}
use ai_iam_platform.Model.{Ident, micros, Agent}
use ai_iam_platform.Service.{World, return}
use ai_iam_platform.Revocation.Redis.{Redis}
use ai_iam_platform.Revocation.Index.{known, is_revoked}
use ai_iam_platform.Agents.Lifecycle.{AgentRequest, suspend}
use ai_iam_platform.Keys.Secrets.{Bcrypt}
use ai_iam_platform.Keys.Verify.{KeyInfo}
use ai_iam_platform.Keys.Manage.{RevokeKeyRequest, revoke_key}
use ai_iam_platform.Exchange.{ExchangeRequest, ExchangeResponse, exchange_token}
use ai_iam_platform.Exchange.Issued.{IsExchanged}
use ai_iam_platform.Exchange.Revoked.{exchange_token-revoked}
use ai_iam_platform.Middleware.{Jose, Identity, bound, dispatch}
use ai_iam_platform.Middleware.Admitted.{dispatch_guards}

module _ (r : Redis) (jose : Jose) where
  -- A jti that the index rejects opens no request, whether the index can be reached or not.
  ended :
      (up : Bool) (j : Ident) (t : ℕ) (s : r.Store)
      → is_revoked r true j t s ≡ known true
      → is_revoked r up j t s ≢ known false
  unfolding is_revoked
  ended true j t s h k = absurd (cc)
  ended false j t s h k = absurd (cc)

  pub dispatch_denies :
      (up : Bool) (j : Ident) (t : ℕ) (s : r.Store) (path auth : String) (i : Identity)
      → is_revoked r true j t s ≡ known true
      → dispatch r jose up t s path auth ≡ bound i
      → i.jti ≢ j
  dispatch_denies up j t s path auth i revoked h named =
      let (_, (token, _, authentic)) = (dispatch_guards r jose up t s path auth).0 i h in
      ended up j t s revoked
        (subst (λ n. is_revoked r up n t s ≡ known false) named authentic.not_revoked)

  -- When a token has been exchanged for a key, and next the key has been revoked or the agent suspended
  -- within the fifteen minutes that the token lives, then before its expiry no request is given an
  -- identity with the jti of the token: on no path, with no header, whether Redis can be reached or not.
  pub exchange_token-dispatch :
      (b : Bcrypt) (q : ExchangeRequest) (w : World r.Store) (resp : ExchangeResponse) (t : ℕ)
      → (exchange_token r b q w).0 ≡ return resp
      → t < (q.now / micros + 900) * micros
      → (info : KeyInfo) × IsExchanged r b q w (exchange_token r b q w).1 resp info
        × ((k : RevokeKeyRequest) (up : Bool) (path auth : String) (i : Identity)
            → (revoke_key r k (exchange_token r b q w).1).0 ≡ return true
            → k.key_id ≡ info.key_id
            → k.now / micros ≤ q.now / micros + 900
            → dispatch r jose up t (revoke_key r k (exchange_token r b q w).1).1.redis path auth
              ≡ bound i
            → i.jti ≢ q.jti)
        × ((s : AgentRequest) (a : Agent) (up : Bool) (path auth : String) (i : Identity)
            → (suspend r s (exchange_token r b q w).1).0 ≡ return a
            → s.agent_id ≡ info.agent_id
            → s.now / micros ≤ q.now / micros + 900
            → dispatch r jose up t (suspend r s (exchange_token r b q w).1).1.redis path auth
              ≡ bound i
            → i.jti ≢ q.jti)
  exchange_token-dispatch b q w resp t h early =
      let (info, issued, by_agent, by_key) = exchange_token-revoked r b q w resp t h early in
      (
        info,
        issued,
        λ k up path auth i done same live.
            dispatch_denies up q.jti t (revoke_key r k (exchange_token r b q w).1).1.redis path auth
              i (by_key k done same live),
        λ s a up path auth i done same live.
            dispatch_denies up q.jti t (suspend r s (exchange_token r b q w).1).1.redis path auth i
              (by_agent s a done same live),
      )
