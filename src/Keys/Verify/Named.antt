-- ===== src/Keys/Verify/Named.antt =====
-- A compound credential is answered by the one row that its key id names.
use ai_iam_platform.Prelude.{
  ℕ, ◌≡◌, ◌∙◌, refl, ap, String, true, Option, none, some, string_eq, if◌then◌else◌, Bool-cases,
  inl, inr,
}
use ai_iam_platform.Model.{ApiKey}
use ai_iam_platform.Service.{World, return}
use ai_iam_platform.Keys.Secrets.{Bcrypt, split_compound_key}
use ai_iam_platform.Keys.Verify.{
  get_by_key_id, KeyInfo, VerifyRequest, verify_row, verify_by_key_id, verify_split, verify_key,
}
use ai_iam_platform.Keys.Verify.Sound.{verdict, match_and_record_returns}

-- What a row that may be missing answers.
unfoldable pub row_verdict : Bcrypt → Option ApiKey → String → ℕ → Option KeyInfo
row_verdict b none secret now = none
row_verdict b (some k) secret now = if k.is_active then verdict b k secret now else none

pub row_verdict-some :
    (b : Bcrypt) (k : ApiKey) (secret : String) (now : ℕ)
    → k.is_active ≡ true
    → row_verdict b (some k) secret now ≡ verdict b k secret now
unfolding row_verdict
row_verdict-some b k secret now on = ap (λ a. if a then verdict b k secret now else none) on

module _ {S : Type 0} (b : Bcrypt) where
  verify_row_returns :
      (q : VerifyRequest) (secret : String) (o : Option ApiKey) (w : World S)
      → (verify_row b q secret o w).0 ≡ return (row_verdict b o secret q.now)
  unfolding verify_row row_verdict verdict
  verify_row_returns q secret none w = refl
  verify_row_returns q secret (some k) w = elim (Bool-cases k.is_active) [
    | inl e ↦ rw e (match_and_record_returns b q k secret true w)
    | inr e ↦ rw e refl
  ]

  pub verify_key_named :
      (q : VerifyRequest) (plaintext key_id secret : String) (w : World S)
      → split_compound_key plaintext ≡ (some key_id, secret)
      → (verify_key b q plaintext w).0
        ≡ return (row_verdict b (get_by_key_id w.db.api_keys key_id) secret q.now)
  unfolding verify_key verify_split verify_by_key_id
  verify_key_named q plaintext key_id secret w parts =
      ap (λ p. (verify_split b q plaintext p w).0) parts
      ∙ verify_row_returns q secret (get_by_key_id w.db.api_keys key_id) w
