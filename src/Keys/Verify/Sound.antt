-- ===== src/Keys/Verify/Sound.antt =====
-- Who a credential is accepted for: `verify_key` always answers, and each acceptance has a live row
-- that the secret matches.
use ai_iam_platform.Prelude.{
  ℕ, ◌≡◌, ◌⊎◌, ◌∙◌, inl, inr, refl, sym, ap, subst, String, Bool, true, false, Option, none, some,
  List, [], ◌∷◌, ◌&&◌, ◌==◌, ℕ_eq, string_eq, select, find, In, In-select, In-find, Bool-cases,
  Option-cases, ==→≡, if◌then◌else◌,
}
use text.Mathlib.Text.{starts_with}
use ai_iam_platform.Model.{ApiKey}
use ai_iam_platform.Service.{World, return}
use ai_iam_platform.Keys.Secrets.{
  Bcrypt, api_key_prefix, is_key_expired, partition, split_parts, split_compound_key,
}
use ai_iam_platform.Keys.Verify.{
  get_by_key_id, KeyInfo, VerifyRequest, Match, primary, grace, no_match, matches_grace,
  match_secret, info_of, match_and_record, record_match, verify_row, verify_by_key_id, scan_keys,
  found_or, verify_by_full_scan, verify_bare, verify_split, verify_key,
}

-- What a row answers to a secret.
verdict_of : ApiKey → Match → Option KeyInfo
verdict_of k primary = some (info_of k false)
verdict_of k grace = some (info_of k true)
verdict_of k no_match = none

unfoldable pub verdict : Bcrypt → ApiKey → String → ℕ → Option KeyInfo
unfolding verdict_of
verdict b k secret now =
    if is_key_expired k.expires_at now then none else verdict_of k (match_secret b k secret now)

-- The first row that accepts.
unfoldable pub first_verdict : Bcrypt → List ApiKey → String → ℕ → Option KeyInfo
unfolding verdict
first_verdict b [] secret now = none
first_verdict b (k ∷ keys) secret now = elim (verdict b k secret now) [
  | none ↦ first_verdict b keys secret now
  | some i ↦ some i
]

-- A row accepts a secret: it has not expired, and its own hash matches, or within the grace period that
-- of the key before.
pub record IsAccepted (b : Bcrypt) (k : ApiKey) (secret : String) (now : ℕ) (info : KeyInfo)
    : Type 0 where
  pub unexpired : is_key_expired k.expires_at now ≡ false
  pub matches :
      ((b.checkpw secret k.hashed_secret ≡ true) × (info ≡ info_of k false))
      ⊎ ((matches_grace b k secret now ≡ true) × (info ≡ info_of k true))

verdict_lem :
    (b : Bcrypt) (k : ApiKey) (secret : String) (now : ℕ) (info : KeyInfo)
    → verdict b k secret now ≡ some info
    → IsAccepted b k secret now info
unfolding verdict match_secret
verdict_lem b k secret now info h = elim (Bool-cases (is_key_expired k.expires_at now)) [
  | inl e ↦ absurd (let bad = rw e at h in cc)
  | inr e ↦ elim (Bool-cases (b.checkpw secret k.hashed_secret)) [
    | inl c ↦ let same = rw (e, c) at h in record { unexpired = e; matches = inl (c, cc) }
    | inr c ↦ elim (Bool-cases (matches_grace b k secret now)) [
      | inl g ↦ let same = rw (e, c, g) at h in record { unexpired = e; matches = inr (g, cc) }
      | inr g ↦ absurd (let bad = rw (e, c, g) at h in cc)
    ]
  ]
]

module _ {S : Type 0} (b : Bcrypt) where
  pub match_and_record_returns :
      (q : VerifyRequest) (k : ApiKey) (secret : String) (d : Bool) (w : World S)
      → (match_and_record b q k secret d w).0 ≡ return (verdict b k secret q.now)
  unfolding match_and_record verdict
  match_and_record_returns q k secret d w = elim (Bool-cases (is_key_expired k.expires_at q.now)) [
    | inl e ↦ rw e refl
    | inr e ↦ rw e (by_match (match_secret b k secret q.now) d)
  ]
    where
      by_match : (m : Match) (d : Bool) → (record_match b q k d m w).0 ≡ return (verdict_of k m)
      by_match primary d = refl
      by_match grace d = refl
      by_match no_match true = refl
      by_match no_match false = refl

  scan_keys_returns :
      (q : VerifyRequest) (secret : String) (org : ℕ) (keys : List ApiKey) (w : World S)
      → (scan_keys b q secret org keys w).0 ≡ return (first_verdict b keys secret q.now)
  unfolding scan_keys first_verdict
  scan_keys_returns q secret org [] w = refl
  scan_keys_returns q secret org (k ∷ keys) w = elim (Option-cases (verdict b k secret q.now)) [
    | inl e ↦
        rw (match_and_record_returns q k secret false w, e, found_or, first_verdict)
          (scan_keys_returns q secret org keys _)
    | inr (i, e) ↦ rw (match_and_record_returns q k secret false w, e, found_or, first_verdict) refl
  ]

-- A row of the table that accepts the credential: the one that the key id names, or one of the
-- organisation that a bare key is checked against.
pub record IsVerified (b : Bcrypt) (keys : List ApiKey) (q : VerifyRequest)
    (parts : Option String × String) (info : KeyInfo) : Type 0 where
  pub row : ApiKey
  pub place : In row keys
  pub active : row.is_active ≡ true
  pub named : (parts.0 ≡ some row.key_id) ⊎ ((parts.0 ≡ none) × (q.org_id ≡ some row.org_id))
  pub accepted : IsAccepted b row parts.1 q.now info

first_verdict_lem :
    (b : Bcrypt) (keys : List ApiKey) (secret : String) (now : ℕ) (info : KeyInfo)
    → first_verdict b keys secret now ≡ some info
    → (k : ApiKey) × In k keys × IsAccepted b k secret now info
unfolding first_verdict
first_verdict_lem b [] secret now info h = absurd (cc)
first_verdict_lem b (k ∷ keys) secret now info h = elim (Option-cases (verdict b k secret now)) [
  | inl e ↦
      let (x, place, accepted) =
        first_verdict_lem b keys secret now info (rw (e, first_verdict) at h) in
      (x, inr place, accepted)
  | inr (i, e) ↦
      let same : i ≡ info = let k = rw (e, first_verdict) at h in cc in
      (k, inl refl, verdict_lem b k secret now info (e ∙ ap some same))
]

split_whole :
    (plaintext : String) (o : Option (String × String))
    → (split_parts plaintext o).0 ≡ none
    → (split_parts plaintext o).1 ≡ plaintext
unfolding split_parts
split_whole plaintext none h = refl
split_whole plaintext (some (key_id, secret)) h =
    elim (Bool-cases (starts_with key_id "kid_" && starts_with secret api_key_prefix)) [
      | inl e ↦ absurd (let bad = rw e at h in cc)
      | inr e ↦ rw e refl
    ]

module _ {S : Type 0} (b : Bcrypt) where
  by_key_id :
      (q : VerifyRequest) (key_id secret : String) (w : World S) (info : KeyInfo)
      → (verify_by_key_id b q key_id secret w).0 ≡ return (some info)
      → (k : ApiKey) × In k w.db.api_keys
        × (k.key_id ≡ key_id)
        × (k.is_active ≡ true)
        × IsAccepted b k secret q.now info
  unfolding verify_by_key_id verify_row get_by_key_id
  by_key_id q key_id secret w info h =
      elim (Option-cases (find (λ k. k.key_id == key_id) w.db.api_keys)) [
        | inl e ↦ absurd (let bad = rw (e, get_by_key_id) at h in cc)
        | inr (k, e) ↦
            let (place, named) = In-find (λ k. k.key_id == key_id) w.db.api_keys k e in
            elim (Bool-cases k.is_active) [
              | inr off ↦ absurd (let bad = rw (e, off) at h in cc)
              | inl on ↦
                  let found : (match_and_record b q k secret true w).0 ≡ return (some info) =
                    rw (e, on) at h in
                  let same : verdict b k secret q.now ≡ some info =
                    let k = sym (match_and_record_returns b q k secret true w) ∙ found in cc in
                  (k, place, ==→≡ k.key_id key_id named, on, verdict_lem b k secret q.now info same)
            ]
      ]

  by_scan :
      (q : VerifyRequest) (secret : String) (org : ℕ) (w : World S) (info : KeyInfo)
      → (verify_by_full_scan b q secret org w).0 ≡ return (some info)
      → (k : ApiKey) × In k w.db.api_keys
        × (k.org_id ≡ org)
        × (k.is_active ≡ true)
        × IsAccepted b k secret q.now info
  unfolding verify_by_full_scan
  by_scan q secret org w info h =
      let rows = select (λ k. (k.org_id == org) && k.is_active) w.db.api_keys in
      let same : first_verdict b rows secret q.now ≡ some info =
        let k = sym (scan_keys_returns b q secret org rows w) ∙ h in cc in
      let (k, place, accepted) = first_verdict_lem b rows secret q.now info same in
      let (there, both) = In-select (λ k. (k.org_id == org) && k.is_active) w.db.api_keys k place in
      elim (Bool-cases (k.org_id == org)) [
        | inl e ↦ (k, there, ==→≡ k.org_id org e, rw e at both, accepted)
        | inr e ↦ absurd (let bad = rw e at both in cc)
      ]

  bare_sound :
      (q : VerifyRequest) (plaintext : String) (w : World S) (info : KeyInfo)
      → (verify_split b q plaintext (none, plaintext) w).0 ≡ return (some info)
      → IsVerified b w.db.api_keys q (none, plaintext) info
  unfolding verify_split verify_bare
  bare_sound q plaintext w info h = elim (Bool-cases (starts_with plaintext api_key_prefix)) [
    | inr e ↦ absurd (let bad = rw e at h in cc)
    | inl e ↦ elim (Option-cases q.org_id) [
      | inl o ↦ absurd (let bad = rw (e, o) at h in cc)
      | inr (org, o) ↦
          let (k, place, owned, on, accepted) = by_scan q plaintext org w info (rw (e, o) at h) in
          record {
            row = k;
            place = place;
            active = on;
            named = inr (refl, o ∙ ap some (sym owned));
            accepted = accepted;
          }
    ]
  ]

  parts_sound :
      (q : VerifyRequest) (plaintext : String) (parts : Option String × String) (w : World S)
      (info : KeyInfo)
      → (parts.0 ≡ none → parts.1 ≡ plaintext)
      → (verify_split b q plaintext parts w).0 ≡ return (some info)
      → IsVerified b w.db.api_keys q parts info
  unfolding verify_split
  parts_sound q plaintext (some key_id, secret) w info whole h =
      let (k, place, named, on, accepted) = by_key_id q key_id secret w info h in
      record {
        row = k;
        place = place;
        active = on;
        named = inl (ap some (sym named));
        accepted = accepted;
      }
  parts_sound q plaintext (none, secret) w info whole h =
      subst (λ p. IsVerified b w.db.api_keys q (none, p) info) (sym (whole refl))
        (bare_sound q plaintext w info h)

  -- A credential is accepted only for an active, unexpired row that its secret matches: the row that
  -- the key id in it names, or for a bare key a row of the organisation given; the identity returned
  -- is that row's.
  pub verify_key_sound :
      (q : VerifyRequest) (plaintext : String) (w : World S) (info : KeyInfo)
      → (verify_key b q plaintext w).0 ≡ return (some info)
      → IsVerified b w.db.api_keys q (split_compound_key plaintext) info
  unfolding verify_key
  verify_key_sound q plaintext w info h =
      parts_sound q plaintext (split_compound_key plaintext) w info
        (split_whole plaintext (partition plaintext)) h
