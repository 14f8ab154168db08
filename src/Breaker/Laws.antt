-- ===== src/Breaker/Laws.antt =====
-- When the circuit of a server is open.
use ai_iam_platform.Prelude.{
  ◌↔◌, leb→le, inl, inr, Bool-cases, ℕ, ◌+◌, ◌-◌, ◌≤◌, ◌<◌, ◌≡◌, refl, ap, ◌∙◌, true, false, Option,
  none, some, List, [], ◌∷◌, ◌++◌, length-append, ◌==◌, ℕ_eq, leb, arith, nat_eq_iff, length,
}
use ai_iam_platform.Model.{Ident}
use ai_iam_platform.Breaker.{
  Breaker, failure_threshold, cooldown, assign, reset, check_cooldown, is_open, record_success,
  record_failure,
}

-- Failures of one server, one after the other, at the given moments.
abbrev pub fail_all : Breaker → Ident → List ℕ → Breaker
fail_all b s [] = b
fail_all b s (t ∷ times) = fail_all (record_failure b s t) s times

assign_self : {A : Type 0} (d : Ident → A) (s : Ident) (v : A) → assign d s v s ≡ v
unfolding assign
assign_self d s v = rw ((nat_eq_iff s s).1 refl) refl

assign_ne :
    {A : Type 0} (d : Ident → A) (s j : Ident) (v : A) → (s == j) ≡ false → assign d s v j ≡ d j
unfolding assign
assign_ne d s j v h = rw h refl

record_failure-failures :
    (b : Breaker) (s : Ident) (t : ℕ) → (record_failure b s t).failures s ≡ b.failures s + 1
unfolding record_failure
record_failure-failures b s t = assign_self b.failures s (b.failures s + 1)

record_failure-opens :
    (b : Breaker) (s : Ident) (t : ℕ)
    → failure_threshold ≤ b.failures s + 1
    → (record_failure b s t).opened_at s ≡ some t
unfolding record_failure
record_failure-opens b s t h =
    let reached : leb failure_threshold (b.failures s + 1) ≡ true = ground arith in
    rw reached (assign_self b.opened_at s (some t))

record_failure-waits :
    (b : Breaker) (s : Ident) (t : ℕ)
    → b.failures s + 1 < failure_threshold
    → (record_failure b s t).opened_at s ≡ b.opened_at s
unfolding record_failure
record_failure-waits b s t h =
    let short : leb failure_threshold (b.failures s + 1) ≡ false = ground arith in rw short refl

-- A circuit with no failure stays closed through fewer failures than the threshold.
fail_all-closed :
    (b : Breaker) (s : Ident) (times : List ℕ)
    → b.failures s + length times < failure_threshold
    → (fail_all b s times).opened_at s ≡ b.opened_at s
fail_all-closed b s [] h = refl
fail_all-closed b s (t ∷ times) h =
    let counted = record_failure-failures b s t in
    fail_all-closed (record_failure b s t) s times (omega arith)
    ∙ record_failure-waits b s t (omega arith)

-- Once the threshold is passed, the last failure is the moment of opening.
fail_all-opens :
    (b : Breaker) (s : Ident) (times : List ℕ) (last : ℕ)
    → failure_threshold ≤ b.failures s + length times + 1
    → (fail_all b s (times ++ (last ∷ []))).opened_at s ≡ some last
fail_all-opens b s [] last h = record_failure-opens b s last (omega arith)
fail_all-opens b s (t ∷ times) last h =
    let counted = record_failure-failures b s t in
    fail_all-opens (record_failure b s t) s times last (omega arith)

fail_all-is_open :
    (b : Breaker) (s : Ident) (times : List ℕ) (last now : ℕ)
    → b.failures s ≡ 0
    → b.opened_at s ≡ none
    → (failure_threshold ≤ length times + 1
        → now - last < cooldown
        → (is_open (fail_all b s (times ++ (last ∷ []))) s now).0 ≡ true)
      × (length times + 1 < failure_threshold
          → (is_open (fail_all b s (times ++ (last ∷ []))) s now).0 ≡ false)
unfolding is_open
fail_all-is_open b s times last now fresh closed = (
  λ enough soon.
      let opened = fail_all-opens b s times last (omega arith) in
      let early : leb cooldown (now - last) ≡ false = ground arith in
      rw (opened, check_cooldown, early) refl,
  λ few.
      let still =
        fail_all-closed b s (times ++ (last ∷ []))
          (omega (arith, length-append times (last ∷ []))) in
      rw (still, closed, check_cooldown) refl,
)

-- From a circuit without failures and before the cooldown after the last one has passed, consecutive
-- failures have opened the circuit if and only if they reach the threshold.
pub fail_all-trips :
    (b : Breaker) (s : Ident) (times : List ℕ) (last now : ℕ)
    → b.failures s ≡ 0
    → b.opened_at s ≡ none
    → now - last < cooldown
    → ((is_open (fail_all b s (times ++ (last ∷ []))) s now).0 ≡ true)
      ↔ (failure_threshold ≤ length times + 1)
fail_all-trips b s times last now fresh closed soon =
    let (opens, stays) = fail_all-is_open b s times last now fresh closed in
    elim (Bool-cases (leb failure_threshold (length times + 1))) [
      | inl enough ↦ (λ _. leb→le failure_threshold (length times + 1) enough, λ e. opens e soon)
      | inr few ↦ (λ t. absurd (let f = stays (ground arith) in cc), λ e. absurd (ground arith))
    ]

-- After the cooldown the circuit is closed with its count at zero: the calls that fail next go
-- through, not one but all that stay below the threshold.
pub half_open_admits :
    (b : Breaker) (s : Ident) (opened now later : ℕ) (times : List ℕ)
    → b.opened_at s ≡ some opened
    → cooldown ≤ now - opened
    → length times < failure_threshold
    → ((is_open b s now).0 ≡ false)
      × ((is_open (fail_all (is_open b s now).1 s times) s later).0 ≡ false)
unfolding is_open
half_open_admits b s opened now later times was elapsed few =
    let over : leb cooldown (now - opened) ≡ true = ground arith in
    let at_reset : check_cooldown b s now (b.opened_at s) ≡ (false, reset b s) =
      rw (was, check_cooldown, over) refl in
    let zero_count : (reset b s).failures s ≡ 0 = unfold reset in assign_self b.failures s 0 in
    let no_opening : (reset b s).opened_at s ≡ none =
      unfold reset in assign_self b.opened_at s none in
    let still = fail_all-closed (reset b s) s times (omega arith) in
    (ap (λ x. x.0) at_reset, rw (at_reset, still, no_opening, check_cooldown) refl)

check_cooldown-verdict :
    (b c : Breaker) (s : Ident) (now : ℕ) (o : Option ℕ)
    → (check_cooldown b s now o).0 ≡ (check_cooldown c s now o).0
unfolding check_cooldown
check_cooldown-verdict b c s now none = refl
check_cooldown-verdict b c s now (some t) = ground arith

same_verdict :
    (b c : Breaker) (j : Ident) (now : ℕ)
    → b.opened_at j ≡ c.opened_at j
    → (is_open b j now).0 ≡ (is_open c j now).0
unfolding is_open
same_verdict b c j now same =
    ap (λ o. (check_cooldown b j now o).0) same ∙ check_cooldown-verdict b c j now (c.opened_at j)

record_failure-others :
    (b : Breaker) (s j : Ident) (t : ℕ)
    → (s == j) ≡ false
    → (record_failure b s t).opened_at j ≡ b.opened_at j
unfolding record_failure
record_failure-others b s j t apart = ground (arith, assign_ne b.opened_at s j (some t) apart)

check_cooldown-others :
    (b : Breaker) (s j : Ident) (t : ℕ) (o : Option ℕ)
    → (s == j) ≡ false
    → (check_cooldown b s t o).1.opened_at j ≡ b.opened_at j
unfolding check_cooldown reset
check_cooldown-others b s j t none apart = refl
check_cooldown-others b s j t (some u) apart = ground (arith, assign_ne b.opened_at s j none apart)

-- What happens with one server, a failure, a success or a check, changes nothing for another.
pub breaker_isolates :
    (b : Breaker) (s j : Ident) (t now : ℕ)
    → (s == j) ≡ false
    → ((is_open (record_failure b s t) j now).0 ≡ (is_open b j now).0)
      × ((is_open (record_success b s) j now).0 ≡ (is_open b j now).0)
      × ((is_open (is_open b s t).1 j now).0 ≡ (is_open b j now).0)
breaker_isolates b s j t now apart = (
  same_verdict (record_failure b s t) b j now (record_failure-others b s j t apart),
  same_verdict (record_success b s) b j now
      (unfold record_success reset in assign_ne b.opened_at s j none apart),
  same_verdict (is_open b s t).1 b j now
      (unfold is_open in check_cooldown-others b s j t (b.opened_at s) apart),
)
