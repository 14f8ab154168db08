-- ===== src/Keys/Manage/Issued.antt =====
-- A key that has been issued is accepted.
use Prim.Native.String.{len}
use ai_iam_platform.Prelude.{
  ℕ, ◌≤◌, ◌≡◌, ◌∙◌, refl, sym, ap, subst, inl, inr, String, true, false, none, some, List, [], ◌∷◌,
  ◌++◌, ◌==◌, ltb, arith, string_eq, find, find-append_none, is_subset, Bool-cases, Option-cases,
  ==_refl,
}
use ai_iam_platform.Model.{Agent, ApiKey, is_active_status}
use ai_iam_platform.Service.{World, return}
use ai_iam_platform.Delegation.Grants.{agent_by_id_and_org}
use ai_iam_platform.Keys.Secrets.{Bcrypt, plaintext_of, generate_key_id, is_key_expired}
use ai_iam_platform.Keys.Secrets.Split.{has_colon, compound, generated_split}
use ai_iam_platform.Keys.Verify.{
  get_by_key_id, KeyInfo, info_of, match_secret, VerifyRequest, verify_key,
}
use ai_iam_platform.Keys.Verify.Sound.{verdict}
use ai_iam_platform.Keys.Verify.Named.{row_verdict, row_verdict-some, verify_key_named}
use ai_iam_platform.Keys.Manage.{
  IssueRequest, KeyFresh, IssuedKey, new_key, issued_of, key_expiry, issue_key,
}

-- A row that is added under a new key id is the one that the id names.
pub get_by_key_id-append :
    (keys : List ApiKey) (k : ApiKey)
    → get_by_key_id keys k.key_id ≡ none
    → get_by_key_id (keys ++ (k ∷ [])) k.key_id ≡ some k
unfolding get_by_key_id
get_by_key_id-append keys k fresh =
    find-append_none (λ x. x.key_id == k.key_id) keys (k ∷ []) fresh
    ∙ (unfold find in rw (==_refl k.key_id) refl)

-- A new row accepts the plaintext that it was made from, until it expires.
pub new_key_accepts :
    (b : Bcrypt) (f : KeyFresh) (k : ApiKey) (now t : ℕ)
    → k.hashed_secret ≡ b.hashpw (plaintext_of f.entropy) f.entropy.salt
    → k.expires_at ≡ some t
    → len (plaintext_of f.entropy) ≤ 72
    → now ≤ t
    → verdict b k (plaintext_of f.entropy) now ≡ some (info_of k false)
unfolding verdict match_secret is_key_expired
new_key_accepts b f k now t hash expires short early =
    let good : b.checkpw (plaintext_of f.entropy) k.hashed_secret ≡ true =
      ap (b.checkpw (plaintext_of f.entropy)) hash
      ∙ b.checkpw-hashpw (plaintext_of f.entropy) f.entropy.salt short in
    let alive : ltb t now ≡ false = ground arith in rw (expires, alive, good) refl

-- The identity that a request stands for, under its new key.
abbrev pub identity : IssueRequest → String → KeyInfo
identity q key_id = record {
  agent_id = q.agent_id;
  org_id = q.org_id;
  scopes = q.scopes;
  key_id = key_id;
  using_grace_key = false;
}

module _ {S : Type 0} (b : Bcrypt) where
  -- The credential of a generated key, against the row that was made for it.
  pub generated_accepts :
      (f : KeyFresh) (k : ApiKey) (t : ℕ) (w : World S) (v : VerifyRequest)
      → get_by_key_id w.db.api_keys (generate_key_id f.entropy) ≡ some k
      → k.is_active ≡ true
      → k.hashed_secret ≡ b.hashpw (plaintext_of f.entropy) f.entropy.salt
      → k.expires_at ≡ some t
      → has_colon f.entropy.id_hex ≡ false
      → len (plaintext_of f.entropy) ≤ 72
      → v.now ≤ t
      → (verify_key b v (compound (generate_key_id f.entropy) (plaintext_of f.entropy)) w).0
        ≡ return (some (info_of k false))
  generated_accepts f k t w v found on hash expires plain short early =
      verify_key_named b v (compound (generate_key_id f.entropy) (plaintext_of f.entropy))
        (generate_key_id f.entropy) (plaintext_of f.entropy) w (generated_split f.entropy plain)
      ∙ ap return (
          ap (λ o. row_verdict b o (plaintext_of f.entropy) v.now) found
          ∙ row_verdict-some b k (plaintext_of f.entropy) v.now on
          ∙ new_key_accepts b f k v.now t hash expires short early)

  pub issue_key-return :
      (q : IssueRequest) (f : KeyFresh) (w : World S) (k : IssuedKey)
      → (issue_key b q f w).0 ≡ return k
      → ((a : Agent) × (agent_by_id_and_org w.db.agents q.agent_id q.org_id ≡ some a)
          × (is_active_status a.status ≡ true)
          × (is_subset q.scopes a.allowed_scopes ≡ true))
        × (k ≡ issued_of q f)
        × ((issue_key b q f w).1.db.api_keys
            ≡ w.db.api_keys ++ (new_key b f q.agent_id q.org_id q.scopes (key_expiry q f) ∷ []))
  unfolding issue_key
  issue_key-return q f w k h =
      elim (Option-cases (agent_by_id_and_org w.db.agents q.agent_id q.org_id)) [
        | inl e ↦ absurd (let bad = rw e at h in cc)
        | inr (a, e) ↦ elim (Bool-cases (is_active_status a.status)) [
          | inr s ↦ absurd (let bad = rw (e, s) at h in cc)
          | inl s ↦ elim (Bool-cases (is_subset q.scopes a.allowed_scopes)) [
            | inr c ↦ absurd (let bad = rw (e, s, c) at h in cc)
            | inl c ↦ let same = rw (e, s, c) at h in ((a, e, s, c), cc, rw (e, s, c) refl)
          ]
        ]
      ]

  -- A key that has been issued is for an active agent and for scopes that the agent is allowed; and the
  -- credential that is shown is accepted, with the identity and the scopes asked for, until it expires.
  -- The key id is new to the table, the hex digits have no `:`, and bcrypt reads the whole secret.
  pub issue_key-verify_key :
      (q : IssueRequest) (f : KeyFresh) (w : World S) (k : IssuedKey) (v : VerifyRequest)
      → (issue_key b q f w).0 ≡ return k
      → get_by_key_id w.db.api_keys k.key_id ≡ none
      → has_colon f.entropy.id_hex ≡ false
      → len k.plaintext_key ≤ 72
      → v.now ≤ k.expires_at
      → ((a : Agent) × (agent_by_id_and_org w.db.agents q.agent_id q.org_id ≡ some a)
          × (is_active_status a.status ≡ true)
          × (is_subset q.scopes a.allowed_scopes ≡ true))
        × ((verify_key b v (compound k.key_id k.plaintext_key) (issue_key b q f w).1).0
            ≡ return (some (identity q k.key_id)))
  unfolding issued_of new_key info_of
  issue_key-verify_key q f w k v h fresh plain short early =
      let (agent, same, rows) = issue_key-return q f w k h in
      let row = new_key b f q.agent_id q.org_id q.scopes (key_expiry q f) in
      (
        agent,
        subst
            (λ x.
              (verify_key b v (compound x.key_id x.plaintext_key) (issue_key b q f w).1).0
              ≡ return (some (identity q x.key_id)))
            (sym same)
            (generated_accepts f row (key_expiry q f) (issue_key b q f w).1 v
              (ap (λ keys. get_by_key_id keys (generate_key_id f.entropy)) rows
                ∙ get_by_key_id-append w.db.api_keys row
                    (subst (λ x. get_by_key_id w.db.api_keys x.key_id ≡ none) same fresh))
              refl refl refl plain (subst (λ x. len x.plaintext_key ≤ 72) same short)
              (subst (λ x. v.now ≤ x.expires_at) same early)),
      )
