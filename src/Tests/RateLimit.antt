-- ===== src/Tests/RateLimit.antt =====
-- Counters that behave as the interface asks, and three requests against a limit of two.
use Prim.Native.Nat.{min}
use ai_iam_platform.Prelude.{
  ℕ, ◌+◌, ◌*◌, ◌≡◌, inl, inr, refl, true, Option, none, some, List, [], ◌∷◌, ltb, if◌then◌else◌, In,
  Bool-cases, subst,
}
use ai_iam_platform.Model.{micros}
use ai_iam_platform.RateLimit.{
  RateKey, same_rate, current, live_deadline, CounterRedis, RateRequest,
}
use ai_iam_platform.RateLimit.Window.{asked, is_from, admitted, enforce_rate_limit-admitted}

abbrev Slots : Type 0
Slots = RateKey → ℕ × Option ℕ

abbrev worth : ℕ → ℕ × Option ℕ → ℕ
worth now slot = current now slot.1 slot.0

abbrev counted_slot : ℕ → ℕ × Option ℕ → ℕ × Option ℕ
counted_slot now slot = (worth now slot + 1, live_deadline now slot.1)

abbrev timed_slot : ℕ → ℕ → ℕ × Option ℕ → ℕ × Option ℕ
timed_slot ttl now slot =
    (slot.0, (if ltb 0 (worth now slot) then some (now + ttl * micros) else slot.1))

abbrev incr_slots : RateKey → ℕ → Slots → ℕ × Slots
incr_slots k now s =
    (worth now (s k) + 1, λ l. if same_rate k l then counted_slot now (s l) else s l)

abbrev expire_slots : RateKey → ℕ → ℕ → Slots → Slots
expire_slots k ttl now s = λ l. if same_rate k l then timed_slot ttl now (s l) else s l

abbrev sample_counters : CounterRedis
sample_counters = record {
  Store = Slots;
  incr = incr_slots;
  expire = expire_slots;
  held = λ k s. (s k).0;
  deadline = λ k s. (s k).1;
  incr_reply = λ k now s. refl;
  held-incr =
      λ k l now s. elim (Bool-cases (same_rate k l)) [ inl e ↦ rw e refl | inr e ↦ rw e refl ];
  deadline-incr =
      λ k l now s. elim (Bool-cases (same_rate k l)) [ inl e ↦ rw e refl | inr e ↦ rw e refl ];
  held-expire =
      λ k l ttl now s. elim (Bool-cases (same_rate k l)) [ inl e ↦ rw e refl | inr e ↦ rw e refl ];
  deadline-expire =
      λ k l ttl now s. elim (Bool-cases (same_rate k l)) [ inl e ↦ rw e refl | inr e ↦ rw e refl ];
}

abbrev request_at : ℕ → RateRequest
request_at second = record {
  client = some "10.0.0.1";
  now = second * micros;
  incr_answers = true;
  expire_answers = true;
}

abbrev three_requests : List RateRequest
three_requests = request_at 61 ∷ request_at 62 ∷ request_at 119 ∷ []

abbrev no_slots : Slots
no_slots k = (0, none)

all_answered :
    (q : RateRequest) → In q three_requests → (q.incr_answers ≡ true) × (q.expire_answers ≡ true)
all_answered q (inl e) =
    subst (λ v. (v.incr_answers ≡ true) × (v.expire_answers ≡ true)) e (refl, refl)
all_answered q (inr (inl e)) =
    subst (λ v. (v.incr_answers ≡ true) × (v.expire_answers ≡ true)) e (refl, refl)
all_answered q (inr (inr (inl e))) =
    subst (λ v. (v.incr_answers ≡ true) × (v.expire_answers ≡ true)) e (refl, refl)
all_answered q (inr (inr (inr none_left))) = elim none_left [ ]

enforce_rate_limit-admitted_example :
    admitted sample_counters "auth_login" 2 "10.0.0.1" 1 three_requests no_slots
    ≡ min 2 (asked "10.0.0.1" 1 three_requests)
enforce_rate_limit-admitted_example =
    enforce_rate_limit-admitted sample_counters "auth_login" 2 "10.0.0.1" 1 three_requests no_slots
      all_answered refl

three_asked : asked "10.0.0.1" 1 three_requests ≡ 3
unfolding asked is_from
three_asked = refl
