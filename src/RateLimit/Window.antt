-- ===== src/RateLimit/Window.antt =====
-- How many requests of one client the limiter admits in one window.
use ai_iam_platform.Prelude.{
  ℕ, ◌+◌, ◌-◌, ◌*◌, ◌/◌, ◌<◌, ◌≤◌, ◌≡◌, ◌⊎◌, ◌∙◌, refl, sym, ap, subst, inl, inr, String, Bool,
  true, false, ◌&&◌, leb, some, List, [], ◌∷◌, ltb, ◌==◌, ℕ_eq, string_eq, if◌then◌else◌, In,
  Bool-cases, ==_refl, ==_sym, Option, none, arith,
}
use Prim.Native.Nat.{min}
use ai_iam_platform.Model.{micros}
use ai_iam_platform.Service.{Result, return, raise}
use ai_iam_platform.RateLimit.{
  RateKey, same_rate, current, live_deadline, CounterRedis, RateRequest, rate_key, client_ip_of,
  check_count, counted, enforce_rate_limit,
}
use ai_iam_platform.RateLimit.Counters.{
  same_rate_refl, same_rate→≡, current-live_deadline, current_zero, IsSameCounter, enforce_other,
}

abbrev pub passes : Result (Unit {0}) → Bool
passes (return x) = true
passes (raise e) = false

-- The address of a client, where the server knows one.
abbrev pub client_is : String → Option String → Bool
client_is host none = host == "unknown"
client_is host (some client) = client == host

-- A request of the client in a window: from its first microsecond to before the first of the next.
unfoldable pub is_from : String → ℕ → RateRequest → Bool
is_from host window q =
    client_is host q.client
    && (leb (window * (60 * micros)) q.now && ltb q.now ((window + 1) * (60 * micros)))

-- How many requests of the client there are in the window.
unfoldable pub asked : String → ℕ → List RateRequest → ℕ
asked host window [] = 0
asked host window (q ∷ qs) = (if is_from host window q then 1 else 0) + asked host window qs

in_window :
    (now window : ℕ)
    → ((now / (60 * micros)) == window)
      ≡ (leb (window * (60 * micros)) now && ltb now ((window + 1) * (60 * micros)))
in_window now window = ground arith

same_client :
    (host : String) (client : Option String) → (client_ip_of client == host) ≡ client_is host client
unfolding client_ip_of
same_client host none = ==_sym "unknown" host
same_client host (some client) = refl

same_rate-is_from :
    (bucket host : String) (window : ℕ) (q : RateRequest)
    → same_rate
        (rate_key bucket 60 q)
        (record { bucket = bucket; client_ip = host; window = window })
      ≡ is_from host window q
unfolding same_rate rate_key is_from
same_rate-is_from bucket host window q =
    rw (==_refl bucket, same_client host q.client, in_window q.now window) refl

spent :
    (limit n m : ℕ)
    → (if leb (n + 1) limit then 1 else 0) + min (limit - (n + 1)) m ≡ min (limit - n) (1 + m)
spent limit n m = ground arith

passed_over : (a m : ℕ) → 0 + min a m ≡ min a (0 + m)
passed_over a m = ground arith

module _ (r : CounterRedis) where
  open r use {
    Store, incr, expire, held, deadline, incr_reply, held-incr, deadline-incr, held-expire,
    deadline-expire,
  }

  -- The requests of the client in the window that pass, when the requests of a bucket run one after
  -- another.
  unfoldable pub admitted : String → ℕ → String → ℕ → List RateRequest → Store → ℕ
  admitted bucket limit host window [] s = 0
  admitted bucket limit host window (q ∷ qs) s =
      let (x, t) = enforce_rate_limit r bucket limit 60 q s in
      (if is_from host window q && passes x then 1 else 0) + admitted bucket limit host window qs t

  -- A counter of the window has the value n: it has not begun, or it lives to the end of the window.
  abbrev IsCounted : RateKey → ℕ → Store → Type 0
  IsCounted k n s =
      ((n ≡ 0) × (held k s ≡ 0))
      ⊎ ((0 < n)
          × (held k s ≡ n)
          × ((d : ℕ) × (deadline k s ≡ some d) × ((k.window + 1) * (60 * micros) ≤ d)))

  window_end : (now d : ℕ) → (now / (60 * micros) + 1) * (60 * micros) ≤ d → ltb now d ≡ true
  window_end now d h = ground arith

  window_deadline : (now : ℕ) → (now / (60 * micros) + 1) * (60 * micros) ≤ now + 60 * micros
  window_deadline now = omega arith

  check_count-passes : (limit m : ℕ) → passes (check_count limit m) ≡ leb m limit
  unfolding check_count
  check_count-passes limit m = ground arith

  enforce_first :
      (bucket : String) (limit : ℕ) (q : RateRequest) (s : Store)
      → q.incr_answers ≡ true
      → q.expire_answers ≡ true
      → held (rate_key bucket 60 q) s ≡ 0
      → (passes (enforce_rate_limit r bucket limit 60 q s).0 ≡ leb 1 limit)
        × IsCounted (rate_key bucket 60 q) 1 (enforce_rate_limit r bucket limit 60 q s).1
  unfolding enforce_rate_limit counted
  enforce_first bucket limit q s a c zero =
      let k = rate_key bucket 60 q in
      let s' = (incr k q.now s).1 in
      let self = same_rate_refl k in
      let none_yet : current q.now (deadline k s) (held k s) ≡ 0 =
        ap (current q.now (deadline k s)) zero ∙ current_zero q.now (deadline k s) in
      let one : (incr k q.now s).0 ≡ 1 = incr_reply k q.now s ∙ ap (λ n. n + 1) none_yet in
      let had : held k s' ≡ 1 = held-incr k k q.now s ∙ rw (self, none_yet) refl in
      let kept : deadline k s' ≡ live_deadline q.now (deadline k s) =
        deadline-incr k k q.now s ∙ rw self refl in
      let lives : current q.now (deadline k s') (held k s') ≡ 1 =
        rw (kept, had) (current-live_deadline q.now (deadline k s) 1) in
      let until : deadline k (expire k 60 q.now s') ≡ some (q.now + 60 * micros) =
        deadline-expire k k 60 q.now s' ∙ rw (self, lives) refl in
      rw (a, one, c)
        (
          check_count-passes limit 1,
          inr (
            omega arith,
            held-expire k k 60 q.now s' ∙ had,
            (q.now + 60 * micros, until, window_deadline q.now),
          ),
        )

  enforce_next :
      (bucket : String) (limit n d : ℕ) (q : RateRequest) (s : Store)
      → q.incr_answers ≡ true
      → 0 < n
      → held (rate_key bucket 60 q) s ≡ n
      → deadline (rate_key bucket 60 q) s ≡ some d
      → (q.now / (60 * micros) + 1) * (60 * micros) ≤ d
      → (passes (enforce_rate_limit r bucket limit 60 q s).0 ≡ leb (n + 1) limit)
        × IsCounted (rate_key bucket 60 q) (n + 1) (enforce_rate_limit r bucket limit 60 q s).1
  unfolding enforce_rate_limit counted current live_deadline
  enforce_next bucket limit n d q s a positive had until late =
      let k = rate_key bucket 60 q in
      let s' = (incr k q.now s).1 in
      let self = same_rate_refl k in
      let live = window_end q.now d late in
      let now_is : current q.now (deadline k s) (held k s) ≡ n = rw (until, live) had in
      let reply : (incr k q.now s).0 ≡ n + 1 = incr_reply k q.now s ∙ ap (λ m. m + 1) now_is in
      let more : ((n + 1) == 1) ≡ false = ground arith in
      rw (a, reply, more)
        (
          check_count-passes limit (n + 1),
          inr (
            omega arith,
            held-incr k k q.now s ∙ rw (self, now_is) refl,
            (d, deadline-incr k k q.now s ∙ rw (self, until, live) refl, late),
          ),
        )

  enforce_same :
      (bucket : String) (limit n : ℕ) (q : RateRequest) (s : Store)
      → q.incr_answers ≡ true
      → q.expire_answers ≡ true
      → IsCounted (rate_key bucket 60 q) n s
      → (passes (enforce_rate_limit r bucket limit 60 q s).0 ≡ leb (n + 1) limit)
        × IsCounted (rate_key bucket 60 q) (n + 1) (enforce_rate_limit r bucket limit 60 q s).1
  unfolding rate_key
  enforce_same bucket limit n q s a c (inl (zero, had)) =
      subst
        (λ m.
          (passes (enforce_rate_limit r bucket limit 60 q s).0 ≡ leb (m + 1) limit)
          × IsCounted (rate_key bucket 60 q) (m + 1) (enforce_rate_limit r bucket limit 60 q s).1)
        (sym zero) (enforce_first bucket limit q s a c had)
  enforce_same bucket limit n q s a c (inr (positive, had, (d, until, late))) =
      enforce_next bucket limit n d q s a positive had until late

  IsCounted-IsSameCounter :
      (k : RateKey) (n : ℕ) (s t : Store)
      → IsCounted k n s
      → IsSameCounter r k s t
      → IsCounted k n t
  IsCounted-IsSameCounter k n s t (inl (zero, had)) (h, _) = inl (zero, h ∙ had)
  IsCounted-IsSameCounter k n s t (inr (positive, had, (d, until, late))) (h, e) =
      inr (positive, h ∙ had, (d, e ∙ until, late))

  admitted_from :
      (bucket : String) (limit n : ℕ) (host : String) (window : ℕ) (qs : List RateRequest)
      (s : Store)
      → ((q : RateRequest) → In q qs → (q.incr_answers ≡ true) × (q.expire_answers ≡ true))
      → IsCounted (record { bucket = bucket; client_ip = host; window = window }) n s
      → admitted bucket limit host window qs s ≡ min (limit - n) (asked host window qs)
  unfolding admitted asked
  admitted_from bucket limit n host window [] s answers c = grind arith
  admitted_from bucket limit n host window (q ∷ qs) s answers c =
      let k : RateKey = record { bucket = bucket; client_ip = host; window = window } in
      let t = (enforce_rate_limit r bucket limit 60 q s).1 in
      let own = same_rate-is_from bucket host window q in
      let later : (x : RateRequest)
          → In x qs
          → (x.incr_answers ≡ true) × (x.expire_answers ≡ true) =
        λ x place. answers x (inr place) in
      elim (Bool-cases (is_from host window q)) [
        | inr e ↦
            let rest =
              admitted_from bucket limit n host window qs t later (
                IsCounted-IsSameCounter k n s t c (enforce_other r bucket limit q k s (own ∙ e))) in
            rw (e, rest) (passed_over (limit - n) (asked host window qs))
        | inl e ↦
            let same = same_rate→≡ (rate_key bucket 60 q) k (own ∙ e) in
            let (up, set) = answers q (inl refl) in
            let (p, next) =
              enforce_same bucket limit n q s up set (subst (λ l. IsCounted l n s) (sym same) c) in
            let rest =
              admitted_from bucket limit (n + 1) host window qs t later
                (subst (λ l. IsCounted l (n + 1) t) same next) in
            rw (e, p, rest) (spent limit n (asked host window qs))
      ]

  -- When Redis answers each command, and no request of a client has been counted in a window of 60
  -- seconds, then of the requests of a bucket, which come in any order, from any clients and in any
  -- windows, exactly as many of that client in that window pass as the limit allows. A client is known
  -- by its address, and all those without one are the client `unknown`.
  pub enforce_rate_limit-admitted :
      (bucket : String) (limit : ℕ) (host : String) (window : ℕ) (qs : List RateRequest) (s : Store)
      → ((q : RateRequest) → In q qs → (q.incr_answers ≡ true) × (q.expire_answers ≡ true))
      → held (record { bucket = bucket; client_ip = host; window = window }) s ≡ 0
      → admitted bucket limit host window qs s ≡ min limit (asked host window qs)
  enforce_rate_limit-admitted bucket limit host window qs s answers had =
      let whole : limit - 0 ≡ limit = omega arith in
      admitted_from bucket limit 0 host window qs s answers (inl (refl, had))
      ∙ ap (λ n. min n (asked host window qs)) whole
