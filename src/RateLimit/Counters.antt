-- ===== src/RateLimit/Counters.antt =====
-- The keys of the counters, and what a request of one client leaves of the counter of another.
use ai_iam_platform.Prelude.{
  ℕ, ◌≡◌, ◌∙◌, refl, inl, inr, String, true, false, Option, none, some, ltb, ◌==◌, ℕ_eq, string_eq,
  Bool-cases, ==_refl, ==→≡,
}
use ai_iam_platform.RateLimit.{
  RateKey, same_rate, current, live_deadline, CounterRedis, RateRequest, rate_key, counted,
  enforce_rate_limit,
}

pub same_rate_refl : (k : RateKey) → same_rate k k ≡ true
unfolding same_rate
same_rate_refl k = rw (==_refl k.bucket, ==_refl k.client_ip) (==_refl k.window)

pub same_rate→≡ : (k l : RateKey) → same_rate k l ≡ true → k ≡ l
unfolding same_rate
same_rate→≡ k l h = elim (Bool-cases (k.bucket == l.bucket)) [
  | inr e ↦ absurd (let bad = rw e at h in cc)
  | inl e ↦ elim (Bool-cases (k.client_ip == l.client_ip)) [
    | inr f ↦ absurd (let bad = rw (e, f) at h in cc)
    | inl f ↦
        let g : (k.window == l.window) ≡ true = rw (e, f) at h in
        λ j. record {
          bucket = ==→≡ k.bucket l.bucket e j;
          client_ip = ==→≡ k.client_ip l.client_ip f j;
          window = ==→≡ k.window l.window g j;
        }
  ]
]

pub current-live_deadline : (t : ℕ) (o : Option ℕ) (n : ℕ) → current t (live_deadline t o) n ≡ n
unfolding current live_deadline
current-live_deadline t none n = refl
current-live_deadline t (some d) n = elim (Bool-cases (ltb t d)) [
  | inl e ↦ rw e (rw e refl)
  | inr e ↦ rw e refl
]

pub current_zero : (t : ℕ) (o : Option ℕ) → current t o 0 ≡ 0
unfolding current
current_zero t none = refl
current_zero t (some d) = elim (Bool-cases (ltb t d)) [ inl e ↦ rw e refl | inr e ↦ rw e refl ]

module _ (r : CounterRedis) where
  open r use {
    Store, incr, expire, held, deadline, incr_reply, held-incr, deadline-incr, held-expire,
    deadline-expire,
  }

  -- The parts of the store that concern a counter.
  abbrev pub IsSameCounter : RateKey → Store → Store → Type 0
  IsSameCounter k s t = (held k t ≡ held k s) × (deadline k t ≡ deadline k s)

  incr_other :
      (k l : RateKey) (now : ℕ) (s : Store)
      → same_rate k l ≡ false
      → IsSameCounter l s (incr k now s).1
  incr_other k l now s e = (held-incr k l now s ∙ rw e refl, deadline-incr k l now s ∙ rw e refl)

  expire_other :
      (k l : RateKey) (ttl now : ℕ) (s : Store)
      → same_rate k l ≡ false
      → IsSameCounter l s (expire k ttl now s)
  expire_other k l ttl now s e =
      (held-expire k l ttl now s, deadline-expire k l ttl now s ∙ rw e refl)

  pub enforce_other :
      (bucket : String) (limit : ℕ) (q : RateRequest) (l : RateKey) (s : Store)
      → same_rate (rate_key bucket 60 q) l ≡ false
      → IsSameCounter l s (enforce_rate_limit r bucket limit 60 q s).1
  unfolding enforce_rate_limit counted
  enforce_other bucket limit q l s e =
      let k = rate_key bucket 60 q in
      let (h, d) = incr_other k l q.now s e in
      let (x, y) = expire_other k l 60 q.now (incr k q.now s).1 e in
      elim (Bool-cases q.incr_answers) [
        | inr a ↦ rw a (refl, refl)
        | inl a ↦ elim (Bool-cases ((incr k q.now s).0 == 1)) [
          | inr b ↦ rw (a, b) (h, d)
          | inl b ↦ elim (Bool-cases q.expire_answers) [
            | inl c ↦ rw (a, b, c) (x ∙ h, y ∙ d)
            | inr c ↦ rw (a, b, c) (h, d)
          ]
        ]
      ]
