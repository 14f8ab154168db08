-- ===== src/Prelude/Sets.antt =====
-- Python's sets over lists: `in`, `set(xs)`, `&`, `-` and `<=`. A set is listed in some order, which
-- no theorem reads.
use Prim.Native.Nat.{◌≤◌}
use mathlib.Core.Path.{◌≡◌, refl, ap, ◌∙◌}
use mathlib.Core.Logic.{inl, inr}
use mathlib.Core.Bool.{Bool, true, false, ◌&&◌}
use mathlib.Core.List.{List, [], ◌∷◌, ◌++◌, map}
use native.Mathlib.Omega.{arith}
use ai_iam_platform.Prelude.Tests.{Eq, ◌==◌, if◌then◌else◌, Bool-cases}
use ai_iam_platform.Prelude.Lists.{length, select, In}

module _ {ℓ} {A : Type ℓ} ⦃e : Eq A⦄ where
  pub ==_refl : (a : A) → (a == a) ≡ true
  ==_refl a = (e.equals_iff a a).1 refl

  pub ==→≡ : (a b : A) → (a == b) ≡ true → a ≡ b
  ==→≡ a b h = (e.equals_iff a b).0 h

  pub ==_sym : (a b : A) → (a == b) ≡ (b == a)
  ==_sym a b = ground (arith, e.equals_iff a b, e.equals_iff b a)

  -- `a in xs`
  unfoldable pub contains : List A → A → Bool
  contains [] a = false
  contains (x ∷ xs) a = if x == a then true else contains xs a

  -- `set(xs)`
  unfoldable pub dedup : List A → List A
  unfolding contains
  dedup [] = []
  dedup (x ∷ xs) = let rest = dedup xs in if contains xs x then rest else x ∷ rest

  -- `set(xs) & set(ys)`
  unfoldable pub intersect : List A → List A → List A
  intersect xs ys = select (contains ys) (dedup xs)

  -- `set(xs) <= set(ys)`
  unfoldable pub is_subset : List A → List A → Bool
  unfolding contains
  is_subset [] ys = true
  is_subset (x ∷ xs) ys = if contains ys x then is_subset xs ys else false

  -- No element stands twice.
  unfoldable pub is_nodup : List A → Bool
  unfolding contains
  is_nodup [] = true
  is_nodup (x ∷ xs) = if contains xs x then false else is_nodup xs

  pub contains-append :
      (xs ys : List A) (a : A)
      → contains (xs ++ ys) a ≡ (if contains xs a then true else contains ys a)
  unfolding contains
  contains-append [] ys a = refl
  contains-append (x ∷ xs) ys a = ground (arith, contains-append xs ys a)

  pub contains-dedup : (xs : List A) (a : A) → contains (dedup xs) a ≡ contains xs a
  unfolding dedup
  contains-dedup [] a = refl
  contains-dedup (x ∷ xs) a = ground (arith, contains-dedup xs a, e.equals_iff x a)

  pub contains-select :
      (p : A → Bool) (xs : List A) (a : A) → contains (select p xs) a ≡ (contains xs a && p a)
  unfolding contains select
  contains-select p [] a = refl
  contains-select p (x ∷ xs) a = ground (arith, contains-select p xs a, e.equals_iff x a)

  pub contains-intersect :
      (xs ys : List A) (a : A) → contains (intersect xs ys) a ≡ (contains xs a && contains ys a)
  unfolding intersect
  contains-intersect xs ys a =
      contains-select (contains ys) (dedup xs) a
      ∙ ap (λ b. b && contains ys a) (contains-dedup xs a)

  pub is_subset→contains :
      (xs ys : List A) (a : A)
      → is_subset xs ys ≡ true
      → contains xs a ≡ true
      → contains ys a ≡ true
  unfolding is_subset
  is_subset→contains [] ys a h k = ground arith
  is_subset→contains (x ∷ xs) ys a h k =
      ground (arith, is_subset→contains xs ys a, e.equals_iff x a)

  pub contains→is_subset :
      (xs ys : List A)
      → ((a : A) → contains xs a ≡ true → contains ys a ≡ true)
      → is_subset xs ys ≡ true
  unfolding is_subset
  contains→is_subset [] ys h = refl
  contains→is_subset (x ∷ xs) ys h =
      let rest : is_subset xs ys ≡ true =
        contains→is_subset xs ys (λ a k. h a (ground (arith, k))) in
      ground (arith, h x, ==_refl x, rest)

  length-dedup-le : (xs : List A) → length (dedup xs) ≤ length xs
  unfolding dedup
  length-dedup-le [] = omega arith
  length-dedup-le (x ∷ xs) = ground (arith, length-dedup-le xs)

  length-select-le : (p : A → Bool) (xs : List A) → length (select p xs) ≤ length xs
  unfolding select
  length-select-le p [] = omega arith
  length-select-le p (x ∷ xs) = ground (arith, length-select-le p xs)

  -- The test of `len(set(xs) & set(ys)) != len(xs)`: the lengths agree just for a list without
  -- repetition, all of whose elements are in `ys`.
  pub length-intersect→ :
      (xs ys : List A)
      → length (intersect xs ys) ≡ length xs
      → (is_nodup xs ≡ true) × (is_subset xs ys ≡ true)
  unfolding intersect dedup is_nodup is_subset select
  length-intersect→ [] ys h = (refl, refl)
  length-intersect→ (x ∷ xs) ys h = ground (
    arith,
    length-intersect→ xs ys,
    length-dedup-le xs,
    length-select-le (contains ys) (dedup xs),
  )

  pub length-intersect← :
      (xs ys : List A)
      → is_nodup xs ≡ true
      → is_subset xs ys ≡ true
      → length (intersect xs ys) ≡ length xs
  unfolding intersect dedup is_nodup is_subset select
  length-intersect← [] ys h k = refl
  length-intersect← (x ∷ xs) ys h k = ground (arith, length-intersect← xs ys)

module _ {A : Type 0} {B : Type 0} ⦃e : Eq B⦄ where
  pub contains-map→ :
      (f : A → B) (xs : List A) (b : B)
      → contains (map f xs) b ≡ true
      → (x : A) × In x xs × (f x ≡ b)
  unfolding contains
  contains-map→ f [] b h = absurd (cc)
  contains-map→ f (x ∷ xs) b h = elim (Bool-cases (f x == b)) [
    | inl p ↦ (x, inl refl, (e.equals_iff (f x) b).0 p)
    | inr p ↦ let (y, place, same) = contains-map→ f xs b (ground arith) in (y, inr place, same)
  ]

  pub contains-map← : (f : A → B) (xs : List A) (x : A) → In x xs → contains (map f xs) (f x) ≡ true
  unfolding contains
  contains-map← f [] x h = elim h [ ]
  contains-map← f (y ∷ xs) x (inl same) = ground (arith, (e.equals_iff (f y) (f x)).1 (ap f same))
  contains-map← f (y ∷ xs) x (inr h) = ground (arith, contains-map← f xs x h)
