-- ===== src/Exchange/Keeps.antt =====
-- What the verification of a key leaves alone: the revocation index, the agents and the grants of
-- humans (backend/app/services/api_key_service.py).
use ai_iam_platform.Prelude.{
  ℕ, ◌≡◌, ◌∙◌, refl, inl, inr, String, Bool, true, false, Option, none, some, List, [], ◌∷◌, ◌&&◌,
  ◌==◌, ℕ_eq, select, Bool-cases, if◌then◌else◌,
}
use text.Mathlib.Text.{starts_with}
use ai_iam_platform.Model.{ApiKey}
use ai_iam_platform.Service.{World, Method, pure}
use ai_iam_platform.Agents.Rows.{update_key}
use ai_iam_platform.Keys.Secrets.{Bcrypt, api_key_prefix, is_key_expired, split_compound_key}
use ai_iam_platform.Keys.Verify.{
  get_by_key_id, KeyInfo, VerifyRequest, Match, primary, grace, no_match, match_secret,
  match_and_record, record_match, accept_key, refuse_key, record_usage, verify_row,
  verify_by_key_id, scan_keys, found_or, verify_by_full_scan, verify_bare, verify_split, verify_key,
}
use ai_iam_platform.Keys.Verify.Sound.{verdict, match_and_record_returns}

module _ {S : Type 0} where
  pub record IsKept (w w' : World S) : Type 0 where
    pub same_redis : w'.redis ≡ w.redis
    pub same_agents : w'.db.agents ≡ w.db.agents
    pub same_grants : w'.db.on_behalf_of_grants ≡ w.db.on_behalf_of_grants

  IsKept-refl : (w : World S) → IsKept w w
  IsKept-refl w = record { same_redis = refl; same_agents = refl; same_grants = refl }

  IsKept-trans : (u v w : World S) → IsKept u v → IsKept v w → IsKept u w
  IsKept-trans u v w h k = record {
    same_redis = k.same_redis ∙ h.same_redis;
    same_agents = k.same_agents ∙ h.same_agents;
    same_grants = k.same_grants ∙ h.same_grants;
  }

  if-IsKept :
      {A : Type 0} (t : Bool) (m n : Method S A) (w : World S)
      → IsKept w (m w).1
      → IsKept w (n w).1
      → IsKept w ((if t then m else n) w).1
  if-IsKept true m n w h k = h
  if-IsKept false m n w h k = k

  module _ (b : Bcrypt) where
    found_or-IsKept :
        (rest : Method S (Option KeyInfo)) (o : Option KeyInfo) (w : World S)
        → IsKept w (rest w).1
        → IsKept w (found_or b rest o w).1
    unfolding found_or
    found_or-IsKept rest none w h = h
    found_or-IsKept rest (some i) w h = IsKept-refl w

    record_match-IsKept :
        (q : VerifyRequest) (k : ApiKey) (d : Bool) (m : Match) (w : World S)
        → IsKept w (record_match b q k d m w).1
    unfolding record_match accept_key refuse_key record_usage update_key
    record_match-IsKept q k d primary w = record {
      same_redis = refl;
      same_agents = refl;
      same_grants = refl;
    }
    record_match-IsKept q k d grace w = record {
      same_redis = refl;
      same_agents = refl;
      same_grants = refl;
    }
    record_match-IsKept q k true no_match w = record {
      same_redis = refl;
      same_agents = refl;
      same_grants = refl;
    }
    record_match-IsKept q k false no_match w = IsKept-refl w

    match_and_record-IsKept :
        (q : VerifyRequest) (k : ApiKey) (secret : String) (d : Bool) (w : World S)
        → IsKept w (match_and_record b q k secret d w).1
    unfolding match_and_record
    match_and_record-IsKept q k secret d w = elim (Bool-cases (is_key_expired k.expires_at q.now)) [
      | inl e ↦ rw e (IsKept-refl w)
      | inr e ↦ rw e (record_match-IsKept q k d (match_secret b k secret q.now) w)
    ]

    scan_keys-IsKept :
        (q : VerifyRequest) (secret : String) (org : ℕ) (keys : List ApiKey) (w : World S)
        → IsKept w (scan_keys b q secret org keys w).1
    unfolding scan_keys
    scan_keys-IsKept q secret org [] w = record {
      same_redis = refl;
      same_agents = refl;
      same_grants = refl;
    }
    scan_keys-IsKept q secret org (k ∷ keys) w =
        let w' = (match_and_record b q k secret false w).1 in
        rw (match_and_record_returns b q k secret false w) (
          IsKept-trans w w' _ (match_and_record-IsKept q k secret false w) (
            found_or-IsKept (scan_keys b q secret org keys) (verdict b k secret q.now) w'
              (scan_keys-IsKept q secret org keys w')))

    verify_row-IsKept :
        (q : VerifyRequest) (secret : String) (o : Option ApiKey) (w : World S)
        → IsKept w (verify_row b q secret o w).1
    unfolding verify_row
    verify_row-IsKept q secret none w = IsKept-refl w
    verify_row-IsKept q secret (some k) w =
        if-IsKept k.is_active (match_and_record b q k secret true) (pure none) w
          (match_and_record-IsKept q k secret true w) (IsKept-refl w)

    bare-IsKept :
        (q : VerifyRequest) (plaintext : String) (org : Option ℕ) (w : World S)
        → IsKept w (verify_bare b q plaintext org w).1
    unfolding verify_bare verify_by_full_scan
    bare-IsKept q plaintext none w = IsKept-refl w
    bare-IsKept q plaintext (some org) w =
        scan_keys-IsKept q plaintext org
          (select (λ k. (k.org_id == org) && k.is_active) w.db.api_keys) w

    parts-IsKept :
        (q : VerifyRequest) (plaintext : String) (parts : Option String × String) (w : World S)
        → IsKept w (verify_split b q plaintext parts w).1
    unfolding verify_split verify_by_key_id
    parts-IsKept q plaintext (some key_id, secret) w =
        verify_row-IsKept q secret (get_by_key_id w.db.api_keys key_id) w
    parts-IsKept q plaintext (none, secret) w =
        elim (Bool-cases (starts_with plaintext api_key_prefix)) [
          | inl e ↦ rw e (bare-IsKept q plaintext q.org_id w)
          | inr e ↦ rw e (IsKept-refl w)
        ]

    pub verify_key-IsKept :
        (q : VerifyRequest) (plaintext : String) (w : World S)
        → IsKept w (verify_key b q plaintext w).1
    unfolding verify_key
    verify_key-IsKept q plaintext w = parts-IsKept q plaintext (split_compound_key plaintext) w
