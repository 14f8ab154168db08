-- ===== src/Keys/Secrets/Split.antt =====
-- A compound credential, `key_id:secret`, is split into what it was joined from
-- (`_split_compound_key` of backend/app/services/api_key_service.py).
use Prim.Native.Char.{code}
use Prim.Native.String.{◌++◌ as join, [] as blank, ◌∷◌ as put}
use text.Mathlib.Text.{starts_with}
use text.Mathlib.TextPositions.{starts_with-append}
use text.Mathlib.TextLemmas.{cons-append, nil-append}
use ai_iam_platform.Prelude.{
  ◌≡◌, ◌∙◌, ap, refl, inl, inr, String, Bool, true, false, some, nat_eq, ◌||◌, if◌then◌else◌,
  Bool-cases, arith,
}
use ai_iam_platform.Keys.Secrets.{
  Entropy, api_key_prefix, before_rest, partition, split_parts, split_compound_key, plaintext_of,
  generate_key_id,
}

unfoldable pub has_colon : String → Bool
has_colon blank = false
has_colon (put c s) = let rest = has_colon s in if nat_eq (code c) (code ":") then true else rest

-- A key id and a secret, joined the way that a client presents them.
unfoldable pub compound : String → String → String
compound key_id secret = join key_id (put ":" secret)

partition_lem :
    (key_id secret : String)
    → has_colon key_id ≡ false
    → partition (join key_id (put ":" secret)) ≡ some (key_id, secret)
unfolding has_colon partition
partition_lem blank secret h = ap partition (nil-append (put ":" secret))
partition_lem (put c key_id) secret h = elim (Bool-cases (nat_eq (code c) (code ":"))) [
  | inl e ↦ absurd (let bad = rw e at h in cc)
  | inr e ↦
      ap partition (cons-append c key_id (put ":" secret))
      ∙ rw e (ap (before_rest c) (partition_lem key_id secret (rw e at h)))
]

has_colon-append : (s t : String) → has_colon (join s t) ≡ (has_colon s || has_colon t)
unfolding has_colon
has_colon-append blank t = ap has_colon (nil-append t)
has_colon-append (put c s) t =
    ap has_colon (cons-append c s t) ∙ ground (arith, has_colon-append s t)

-- A compound credential whose key id has no `:` and the right prefix, and whose secret has the right
-- prefix, is split into both.
pub split_compound_key-compound :
    (key_id secret : String)
    → has_colon key_id ≡ false
    → starts_with key_id "kid_" ≡ true
    → starts_with secret api_key_prefix ≡ true
    → split_compound_key (compound key_id secret) ≡ (some key_id, secret)
unfolding split_compound_key compound
split_compound_key-compound key_id secret plain kid prefix =
    ap (split_parts (join key_id (put ":" secret))) (partition_lem key_id secret plain)
    ∙ rw (kid, prefix, split_parts) refl

kid_plain : (s : String) → has_colon s ≡ false → (has_colon "kid_" || has_colon s) ≡ false
unfolding has_colon
kid_plain s h = h

-- A generated key id is split from any secret, as a hex text has no `:`.
pub generated_compound :
    (e : Entropy) (secret : String)
    → has_colon e.id_hex ≡ false
    → starts_with secret api_key_prefix ≡ true
    → split_compound_key (compound (generate_key_id e) secret) ≡ (some (generate_key_id e), secret)
unfolding generate_key_id
generated_compound e secret plain prefix =
    split_compound_key-compound (join "kid_" e.id_hex) secret
      (has_colon-append "kid_" e.id_hex ∙ kid_plain e.id_hex plain)
      (starts_with-append "kid_" e.id_hex) prefix

pub generated_split :
    (e : Entropy)
    → has_colon e.id_hex ≡ false
    → split_compound_key (compound (generate_key_id e) (plaintext_of e))
      ≡ (some (generate_key_id e), plaintext_of e)
unfolding plaintext_of
generated_split e plain =
    generated_compound e (join api_key_prefix e.secret_hex) plain
      (starts_with-append api_key_prefix e.secret_hex)
