-- ===== src/Exchange/Revoked.antt =====
-- Tokens that were exchanged, and what ends them: the suspension of their agent and the revocation of
-- their key. A suspension does not end the exchange of keys.
use ai_iam_platform.Prelude.{ℕ, ◌+◌, ◌*◌, ◌/◌, ◌≤◌, ◌<◌, ◌≡◌, ◌∙◌, ap, true}
use ai_iam_platform.Model.{micros, Agent}
use ai_iam_platform.Service.{World, return}
use ai_iam_platform.Revocation.Redis.{Redis, IndexKey}
use ai_iam_platform.Revocation.Index.{is_revoked, known}
use ai_iam_platform.Agents.Lifecycle.{AgentRequest, suspend}
use ai_iam_platform.Agents.Lifecycle.Sealed.{suspend_revokes}
use ai_iam_platform.Keys.Secrets.{Bcrypt}
use ai_iam_platform.Keys.Verify.{KeyInfo}
use ai_iam_platform.Keys.Manage.{RevokeKeyRequest, revoke_key}
use ai_iam_platform.Keys.Manage.Revoked.{revoke_key_stops}
use ai_iam_platform.Exchange.{ExchangeRequest, ExchangeResponse, exchange_token}
use ai_iam_platform.Exchange.Issued.{IsExchanged, exchange_token_issues}

module _ (r : Redis) (b : Bcrypt) where
  -- When a token has been exchanged for a key, and next its agent is suspended or its key revoked,
  -- within the fifteen minutes that it lives, the token is rejected at every moment before its expiry.
  pub exchange_token-revoked :
      (q : ExchangeRequest) (w : World r.Store) (resp : ExchangeResponse) (t : ℕ)
      → (exchange_token r b q w).0 ≡ return resp
      → t < (q.now / micros + 900) * micros
      → (info : KeyInfo) × IsExchanged r b q w (exchange_token r b q w).1 resp info
        × ((s : AgentRequest) (a : Agent)
            → (suspend r s (exchange_token r b q w).1).0 ≡ return a
            → s.agent_id ≡ info.agent_id
            → s.now / micros ≤ q.now / micros + 900
            → is_revoked r true q.jti t (suspend r s (exchange_token r b q w).1).1.redis
              ≡ known true)
        × ((k : RevokeKeyRequest)
            → (revoke_key r k (exchange_token r b q w).1).0 ≡ return true
            → k.key_id ≡ info.key_id
            → k.now / micros ≤ q.now / micros + 900
            → is_revoked r true q.jti t (revoke_key r k (exchange_token r b q w).1).1.redis
              ≡ known true)
  exchange_token-revoked q w resp t h early =
      let (info, x) = exchange_token_issues r b q w resp h in
      let w' = (exchange_token r b q w).1 in
      (
        info,
        x,
        λ s a done same live.
            (suspend_revokes r s w' a q.jti (q.now / micros + 900) t done
              (ap (λ i. r.score (IndexKey.agent_jtis i) q.jti w'.redis) same ∙ x.in_agent_index)
              live early).1,
        λ k done same live.
            (revoke_key_stops r b k w' done).1 q.jti (q.now / micros + 900) t
              (ap (λ i. r.score (IndexKey.key_jtis i) q.jti w'.redis) same ∙ x.in_key_index) live
              early,
      )
