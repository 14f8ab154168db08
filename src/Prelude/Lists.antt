-- ===== src/Prelude/Lists.antt =====
-- Lists measured by native numbers, predicates on all elements, and rows that satisfy a test.
use Prim.Native.Nat.{ℕ, zero, suc, ◌+◌}
use mathlib.Core.Path.{◌≡◌, ◌∙◌, refl, ap, sym, subst}
use mathlib.Core.Logic.{◌⊎◌, inl, inr, ◌≢◌}
use mathlib.Core.Bool.{Bool, true, false}
use mathlib.Core.List.{List, [], ◌∷◌, ◌++◌}
use mathlib.Core.Option.{Option, none, some}
use native.Mathlib.Omega.{arith}
use ai_iam_platform.Prelude.Tests.{if◌then◌else◌, Bool-cases}

module _ {ℓ} {A : Type ℓ} where
  abbrev pub length : List A → ℕ
  length [] = 0
  length (x ∷ xs) = suc (length xs)

  pub length-append : (xs ys : List A) → length (xs ++ ys) ≡ length xs + length ys
  length-append [] ys = omega arith
  length-append (x ∷ xs) ys = omega (arith, length-append xs ys)

  abbrev pub All {κ} : (A → Type κ) → List A → Type κ
  All P [] = Unit
  All P (x ∷ xs) = P x × All P xs

  pub All-append {κ} : (P : A → Type κ) (xs ys : List A) → All P xs → All P ys → All P (xs ++ ys)
  All-append P [] ys h k = k
  All-append P (x ∷ xs) ys h k = (h.0, All-append P xs ys h.1 k)

  -- The rows of a table that satisfy a test, and the first of them.
  unfoldable pub select : (A → Bool) → List A → List A
  select p [] = []
  select p (x ∷ xs) = let rest = select p xs in if p x then x ∷ rest else rest

  unfoldable pub find : (A → Bool) → List A → Option A
  find p [] = none
  find p (x ∷ xs) = if p x then some x else find p xs

  unfoldable pub count : (A → Bool) → List A → ℕ
  count p [] = 0
  count p (x ∷ xs) = (if p x then 1 else 0) + count p xs

  unfoldable pub any : (A → Bool) → List A → Bool
  any p [] = false
  any p (x ∷ xs) = if p x then true else any p xs

  -- `UPDATE … WHERE p`: each row that satisfies the test is changed.
  unfoldable pub update_where : (A → Bool) → (A → A) → List A → List A
  update_where p f [] = []
  update_where p f (x ∷ xs) = (if p x then f x else x) ∷ update_where p f xs

-- `x` stands in the list; by recursion, with the place kept.
abbrev pub In : {A : Type 0} → A → List A → Type 0
In x [] = ⊥
In x (y ∷ ys) = (y ≡ x) ⊎ In x ys

module _ {A : Type 0} where
  pub In-append_left : (x : A) (xs ys : List A) → In x xs → In x (xs ++ ys)
  In-append_left x [] ys h = elim h [ ]
  In-append_left x (y ∷ xs) ys (inl e) = inl e
  In-append_left x (y ∷ xs) ys (inr h) = inr (In-append_left x xs ys h)

  pub In-append_right : (x : A) (xs ys : List A) → In x ys → In x (xs ++ ys)
  In-append_right x [] ys h = h
  In-append_right x (y ∷ xs) ys h = inr (In-append_right x xs ys h)

  pub All-In {κ} : (P : A → Type κ) (x : A) (xs : List A) → All P xs → In x xs → P x
  All-In P x [] h k = elim k [ ]
  All-In P x (y ∷ xs) h (inl e) = subst P e h.0
  All-In P x (y ∷ xs) h (inr k) = All-In P x xs h.1 k

  pub All-intro {κ} : (P : A → Type κ) (xs : List A) → ((x : A) → In x xs → P x) → All P xs
  All-intro P [] h = tt
  All-intro P (y ∷ xs) h = (h y (inl refl), All-intro P xs (λ x k. h x (inr k)))

  pub In-find : (p : A → Bool) (xs : List A) (x : A) → find p xs ≡ some x → In x xs × (p x ≡ true)
  unfolding find
  In-find p [] x h = absurd (cc)
  In-find p (y ∷ xs) x h = elim (Bool-cases (p y)) [
    | inl e ↦ let same : y ≡ x = ground arith in (inl same, rw same at e)
    | inr e ↦ let (place, holds) = In-find p xs x (rw e at h) in (inr place, holds)
  ]

  pub find-In : (p : A → Bool) (xs : List A) (x : A) → In x xs → p x ≡ true → find p xs ≢ none
  unfolding find
  find-In p [] x h k = elim h [ ]
  find-In p (y ∷ xs) x (inl e) k = rw (subst (λ z. p z ≡ true) (sym e) k) (cc)
  find-In p (y ∷ xs) x (inr h) k = ground (arith, find-In p xs x h k)

  pub In-select : (p : A → Bool) (xs : List A) (x : A) → In x (select p xs) → In x xs × (p x ≡ true)
  unfolding select
  In-select p [] x h = elim h [ ]
  In-select p (y ∷ xs) x h = elim (Bool-cases (p y)) [
    | inl e ↦ elim (rw e at h) [
      | inl same ↦ (inl same, rw same at e)
      | inr k ↦ let (place, holds) = In-select p xs x k in (inr place, holds)
    ]
    | inr e ↦
        let k : In x (select p xs) = rw e at h in
        let (place, holds) = In-select p xs x k in (inr place, holds)
  ]

  pub select-In : (p : A → Bool) (xs : List A) (x : A) → In x xs → p x ≡ true → In x (select p xs)
  unfolding select
  select-In p [] x h k = elim h [ ]
  select-In p (y ∷ xs) x (inl e) k = rw (subst (λ z. p z ≡ true) (sym e) k) (inl e)
  select-In p (y ∷ xs) x (inr h) k = elim (Bool-cases (p y)) [
    | inl e ↦ rw e (inr (select-In p xs x h k))
    | inr e ↦ rw e (select-In p xs x h k)
  ]

module _ {A : Type 0} where
  pub find-append_some :
      (p : A → Bool) (xs ys : List A) (x : A) → find p xs ≡ some x → find p (xs ++ ys) ≡ some x
  unfolding find
  find-append_some p [] ys x h = absurd (cc)
  find-append_some p (z ∷ xs) ys x h = ground (arith, find-append_some p xs ys x)

  pub find-append_none :
      (p : A → Bool) (xs ys : List A) → find p xs ≡ none → find p (xs ++ ys) ≡ find p ys
  unfolding find
  find-append_none p [] ys h = refl
  find-append_none p (z ∷ xs) ys h = ground (arith, find-append_none p xs ys)

  pub In-append→ : (x : A) (xs ys : List A) → In x (xs ++ ys) → In x xs ⊎ In x ys
  In-append→ x [] ys h = inr h
  In-append→ x (z ∷ xs) ys (inl e) = inl (inl e)
  In-append→ x (z ∷ xs) ys (inr h) = elim (In-append→ x xs ys h) [
    | inl k ↦ inl (inr k)
    | inr k ↦ inr k
  ]

  pub In-update_where :
      (p : A → Bool) (f : A → A) (xs : List A) (x : A)
      → In x (update_where p f xs)
      → (y : A) × In y xs × (x ≡ (if p y then f y else y))
  unfolding update_where
  In-update_where p f [] x h = elim h [ ]
  In-update_where p f (z ∷ xs) x (inl e) = (z, inl refl, sym e)
  In-update_where p f (z ∷ xs) x (inr h) =
      let (y, place, same) = In-update_where p f xs x h in (y, inr place, same)

  pub update_where-In :
      (p : A → Bool) (f : A → A) (xs : List A) (y : A)
      → In y xs
      → In (if p y then f y else y) (update_where p f xs)
  unfolding update_where
  update_where-In p f [] y h = elim h [ ]
  update_where-In p f (z ∷ xs) y (inl e) = inl (ap (λ v. if p v then f v else v) e)
  update_where-In p f (z ∷ xs) y (inr h) = inr (update_where-In p f xs y h)

  pub find-update_where :
      (p q : A → Bool) (f : A → A) (xs : List A) (a : A)
      → ((x : A) → p (f x) ≡ p x)
      → find p xs ≡ some a
      → find p (update_where q f xs) ≡ some (if q a then f a else a)
  unfolding find update_where
  find-update_where p q f [] a keeps h = absurd (cc)
  find-update_where p q f (x ∷ xs) a keeps h = elim (Bool-cases (p x)) [
    | inl e ↦
        let same : x ≡ a = let k = rw e at h in cc in
        let still : p (if q x then f x else x) ≡ true = elim (Bool-cases (q x)) [
          | inl d ↦ rw d (keeps x ∙ e)
          | inr d ↦ rw d e
        ] in
        rw still (ap (λ v. some (if q v then f v else v)) same)
    | inr e ↦
        let still : p (if q x then f x else x) ≡ false = elim (Bool-cases (q x)) [
          | inl d ↦ rw d (keeps x ∙ e)
          | inr d ↦ rw d e
        ] in
        rw still (find-update_where p q f xs a keeps (rw e at h))
  ]

module _ {ℓ} {A : Type ℓ} where
  abbrev pub take : ℕ → List A → List A
  take zero xs = []
  take (suc n) [] = []
  take (suc n) (x ∷ xs) = x ∷ take n xs

  abbrev pub drop : ℕ → List A → List A
  drop zero xs = xs
  drop (suc n) [] = []
  drop (suc n) (x ∷ xs) = drop n xs
