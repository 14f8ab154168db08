-- ===== src/Audit/Encoding.antt =====
-- Texts as lists of bytes.
use ai_iam_platform.Prelude.{
  ℕ, zero, suc, ◌≡◌, refl, Bool, true, false, List, [], ◌∷◌, ◌++◌, ◌==◌, ℕ_eq, if◌then◌else◌, arith,
  length,
}

abbrev pub Bytes : Type 0
Bytes = List ℕ

unfoldable pub bytes_eq : Bytes → Bytes → Bool
bytes_eq [] [] = true
bytes_eq (a ∷ x) (b ∷ y) = if a == b then bytes_eq x y else false
bytes_eq _ _ = false

abbrev pub zeros : ℕ → Bytes
zeros zero = []
zeros (suc n) = b'0' ∷ zeros n

pub bytes_eq→≡ : (x y : Bytes) → bytes_eq x y ≡ true → x ≡ y
unfolding bytes_eq
bytes_eq→≡ [] [] h = refl
bytes_eq→≡ [] (b ∷ y) h = absurd (cc)
bytes_eq→≡ (a ∷ x) [] h = absurd (cc)
bytes_eq→≡ (a ∷ x) (b ∷ y) h = ground (arith, bytes_eq→≡ x y)

pub bytes_eq_refl : (x : Bytes) → bytes_eq x x ≡ true
unfolding bytes_eq
bytes_eq_refl [] = refl
bytes_eq_refl (a ∷ x) = ground (arith, bytes_eq_refl x)

-- Two texts with fronts of one length are equal only part by part.
pub append-injective : (x y u v : Bytes) → length x ≡ length y → x ++ u ≡ y ++ v → (x ≡ y) × (u ≡ v)
append-injective [] [] u v h e = (refl, e)
append-injective [] (b ∷ y) u v h e = absurd (omega arith)
append-injective (a ∷ x) [] u v h e = absurd (omega arith)
append-injective (a ∷ x) (b ∷ y) u v h e =
    let (same_front, same_rest) = append-injective x y u v (omega arith) (ground arith) in
    let same_head : a ≡ b = ground arith in (cc, same_rest)
