-- ===== src/Keys/Secrets.antt =====
-- The texts of a credential (backend/app/core/security.py, `_split_compound_key` of
-- backend/app/services/api_key_service.py). bcrypt is an interface, and what `secrets.token_hex` and
-- `gensalt` give are arguments.
pub mod Split
use Prim.Native.Char.{Char, code}
use Prim.Native.String.{len, slice, ◌++◌ as join}
use Prim.Native.String.{[] as blank, ◌∷◌ as put}
use text.Mathlib.Text.{starts_with}
use ai_iam_platform.Prelude.{
  ℕ, ◌-◌, ◌≤◌, ◌≡◌, String, Bool, true, false, Option, none, some, ◌&&◌, nat_eq, ltb, if◌then◌else◌,
}

pub record Bcrypt : Type 0 where
  -- `checkpw(plaintext, hashed)`, false where it raises.
  pub checkpw : String → String → Bool
  -- `hashpw(plaintext, salt)`
  pub hashpw : String → String → String
  -- A password of at most 72 bytes matches its own hash.
  pub checkpw-hashpw : (p salt : String) → len p ≤ 72 → checkpw p (hashpw p salt) ≡ true

-- `settings.API_KEY_PREFIX`
abbrev pub api_key_prefix : String
api_key_prefix = "aiiam_"

-- What one generation of a key takes from the random source: the hex digits of the secret and of the
-- identifier, and the salt.
pub record Entropy : Type 0 where
  pub secret_hex : String
  pub id_hex : String
  pub salt : String

unfoldable pub plaintext_of : Entropy → String
plaintext_of e = join api_key_prefix e.secret_hex

-- The plaintext, and the hash that is stored.
unfoldable pub generate_api_key : Bcrypt → Entropy → String × String
unfolding plaintext_of
generate_api_key b e = (plaintext_of e, b.hashpw (plaintext_of e) e.salt)

unfoldable pub generate_key_id : Entropy → String
generate_key_id e = join "kid_" e.id_hex

-- `plaintext[-4:]`, of a text whose characters are single bytes.
unfoldable pub key_hint_of : String → String
key_hint_of plaintext = slice plaintext (len plaintext - 4) (len plaintext)

unfoldable pub is_key_expired : Option ℕ → ℕ → Bool
is_key_expired none now = false
is_key_expired (some t) now = ltb t now

-- `plaintext_key.partition(":")`, none where there is no `:`.
abbrev pub before_rest : Char → Option (String × String) → Option (String × String)
before_rest c none = none
before_rest c (some (k, s)) = some (put c k, s)

unfoldable pub partition : String → Option (String × String)
partition blank = none
partition (put c s) =
    let rest = partition s in
    if nat_eq (code c) (code ":") then some (blank, s) else before_rest c rest

unfoldable pub split_parts : String → Option (String × String) → Option String × String
split_parts plaintext none = (none, plaintext)
split_parts plaintext (some (key_id, secret)) =
    if starts_with key_id "kid_" && starts_with secret api_key_prefix
    then (some key_id, secret)
    else (none, plaintext)

unfoldable pub split_compound_key : String → Option String × String
unfolding partition split_parts
split_compound_key plaintext = split_parts plaintext (partition plaintext)
