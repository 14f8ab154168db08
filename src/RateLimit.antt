-- ===== src/RateLimit.antt =====
-- The fixed-window rate limiter (backend/app/core/rate_limit.py). The counters of Redis are an
-- interface; a moment is in microseconds. A request says whether Redis answers its two commands, and
-- an error of Redis admits it.
pub mod Counters
pub mod Window
use ai_iam_platform.Prelude.{
  ℕ, ◌+◌, ◌*◌, ◌/◌, ◌≡◌, String, Bool, true, false, ◌&&◌, Option, none, some, ltb, ◌==◌, ℕ_eq,
  string_eq, if◌then◌else◌,
}
use ai_iam_platform.Model.{micros}
use ai_iam_platform.Service.{HttpError, Result, return, raise}

-- The key `ratelimit:{bucket}:{client_ip}:{window}`, by its parts.
pub record RateKey : Type 0 where
  pub bucket : String
  pub client_ip : String
  pub window : ℕ

unfoldable pub same_rate : RateKey → RateKey → Bool
same_rate k l = (k.bucket == l.bucket) && ((k.client_ip == l.client_ip) && (k.window == l.window))

-- What a counter is worth at a moment, and the deadline that it keeps.
unfoldable pub current : ℕ → Option ℕ → ℕ → ℕ
current now none n = n
current now (some d) n = if ltb now d then n else 0

unfoldable pub live_deadline : ℕ → Option ℕ → Option ℕ
live_deadline now none = none
live_deadline now (some d) = if ltb now d then some d else none

-- `INCR` and `EXPIRE`, observed by the number and the deadline that a key holds. A counter that is
-- missing or over counts from 0, and `EXPIRE` sets the deadline of a counter that is there.
pub record CounterRedis : Type 1 where
  pub Store : Type 0
  pub incr : RateKey → ℕ → Store → ℕ × Store
  pub expire : RateKey → ℕ → ℕ → Store → Store
  pub held : RateKey → Store → ℕ
  pub deadline : RateKey → Store → Option ℕ
  pub incr_reply :
      (k : RateKey) (now : ℕ) (s : Store)
      → (incr k now s).0 ≡ current now (deadline k s) (held k s) + 1
  pub held-incr :
      (k l : RateKey) (now : ℕ) (s : Store)
      → held l (incr k now s).1
        ≡ (if same_rate k l then current now (deadline l s) (held l s) + 1 else held l s)
  pub deadline-incr :
      (k l : RateKey) (now : ℕ) (s : Store)
      → deadline l (incr k now s).1
        ≡ (if same_rate k l then live_deadline now (deadline l s) else deadline l s)
  pub held-expire :
      (k l : RateKey) (ttl now : ℕ) (s : Store) → held l (expire k ttl now s) ≡ held l s
  pub deadline-expire :
      (k l : RateKey) (ttl now : ℕ) (s : Store)
      → deadline l (expire k ttl now s) ≡ (
          if same_rate k l && ltb 0 (current now (deadline l s) (held l s))
          then some (now + ttl * micros)
          else deadline l s)

pub record RateRequest : Type 0 where
  pub client : Option String
  pub now : ℕ
  pub incr_answers : Bool
  pub expire_answers : Bool

unfoldable pub client_ip_of : Option String → String
client_ip_of none = "unknown"
client_ip_of (some host) = host

unfoldable pub rate_key : String → ℕ → RateRequest → RateKey
unfolding client_ip_of
rate_key bucket window_seconds q = record {
  bucket = bucket;
  client_ip = client_ip_of q.client;
  window = q.now / (window_seconds * micros);
}

-- The test after the commands; of the detail of the error, its name.
unfoldable pub check_count : ℕ → ℕ → Result (Unit {0})
check_count limit count =
    if ltb limit count
    then raise (record { status_code = 429; detail = "rate_limited" })
    else return tt

abbrev pub rate_limit_login_per_minute : ℕ
rate_limit_login_per_minute = 10

abbrev pub rate_limit_token_exchange_per_minute : ℕ
rate_limit_token_exchange_per_minute = 60

abbrev pub rate_limit_trial_signup_per_minute : ℕ
rate_limit_trial_signup_per_minute = 3

module _ (r : CounterRedis) where
  open r use {Store, incr, expire}

  -- From the reply of `INCR` on: only the request that has made the counter sets its expiry.
  unfoldable pub counted : ℕ → ℕ → RateKey → RateRequest → ℕ × Store → Result (Unit {0}) × Store
  unfolding check_count
  counted limit window_seconds k q (count, s) =
      if count == 1
      then (if q.expire_answers
          then (check_count limit count, expire k window_seconds q.now s)
          else (return tt, s))
      else (check_count limit count, s)

  unfoldable pub enforce_rate_limit :
      String → ℕ → ℕ → RateRequest → Store → Result (Unit {0}) × Store
  unfolding rate_key counted
  enforce_rate_limit bucket limit window_seconds q s =
      let k = rate_key bucket window_seconds q in
      if q.incr_answers then counted limit window_seconds k q (incr k q.now s) else (return tt, s)

  unfoldable pub rate_limit_login : RateRequest → Store → Result (Unit {0}) × Store
  unfolding enforce_rate_limit
  rate_limit_login q = enforce_rate_limit "auth_login" rate_limit_login_per_minute 60 q

  unfoldable pub rate_limit_token_exchange : RateRequest → Store → Result (Unit {0}) × Store
  unfolding enforce_rate_limit
  rate_limit_token_exchange q =
      enforce_rate_limit "token_exchange" rate_limit_token_exchange_per_minute 60 q

  unfoldable pub rate_limit_trial_signup : RateRequest → Store → Result (Unit {0}) × Store
  unfolding enforce_rate_limit
  rate_limit_trial_signup q =
      enforce_rate_limit "trial_signup" rate_limit_trial_signup_per_minute 60 q
