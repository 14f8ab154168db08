-- ===== src/Revocation/Sample.antt =====
-- A store that behaves as the interface asks: the assumptions about Redis can be met.
use ai_iam_platform.Prelude.{
  ℕ, ◌+◌, ◌*◌, ◌≤◌, ◌≡◌, ◌↔◌, inl, inr, refl, ap, Bool, true, false, ◌&&◌, List, [], ◌∷◌, Option,
  none, some, arith, ltb, leb, ◌==◌, ℕ_eq, if◌then◌else◌, In, select, In-select, select-In,
  nat_eq_iff, Bool-cases, ==→≡, ==_sym, string_eq,
}
use ai_iam_platform.Model.{Ident, micros}
use ai_iam_platform.Revocation.Redis.{Redis, IndexKey, agent_jtis, key_jtis, same_key}

abbrev KeyTable : Type 0
KeyTable = List (Ident × ℕ)

abbrev SetTable : Type 0
SetTable = List (IndexKey × Ident × ℕ)

abbrev lives : Ident → ℕ → KeyTable → Bool
lives j t [] = false
lives j t ((i, expiry) ∷ keys) = if i == j then ltb t expiry else lives j t keys

abbrev score_in : IndexKey → Ident → SetTable → Option ℕ
score_in k j [] = none
score_in k j ((l, i, e) ∷ sets) = if same_key l k && (i == j) then some e else score_in k j sets

-- The members of one set, in the order of the table.
abbrev members_in : IndexKey → SetTable → List (Ident × ℕ)
members_in k [] = []
members_in k ((l, i, e) ∷ sets) =
    if same_key l k then (i, e) ∷ members_in k sets else members_in k sets

abbrev is_score : Option ℕ → ℕ → Bool
is_score none e = false
is_score (some d) e = d == e

abbrev range_of : IndexKey → ℕ → SetTable → List (Ident × ℕ)
range_of k m sets =
    select (λ x. is_score (score_in k x.0 sets) x.1 && leb m x.1) (members_in k sets)

same_key→≡ : (k l : IndexKey) → same_key k l ≡ true → k ≡ l
unfolding same_key
same_key→≡ (agent_jtis a) (agent_jtis b) h = ap agent_jtis ((nat_eq_iff a b).0 h)
same_key→≡ (agent_jtis a) (key_jtis b) h = absurd (cc)
same_key→≡ (key_jtis a) (agent_jtis b) h = absurd (cc)
same_key→≡ (key_jtis a) (key_jtis b) h = ap key_jtis (==→≡ a b h)

members_in-score :
    (k : IndexKey) (j : Ident) (e : ℕ) (sets : SetTable)
    → score_in k j sets ≡ some e
    → In (j, e) (members_in k sets)
members_in-score k j e [] h = absurd (cc)
members_in-score k j e ((l, i, d) ∷ sets) h = elim (Bool-cases (same_key l k)) [
  | inl p ↦ elim (Bool-cases (i == j)) [
    | inl q ↦
        let same : i ≡ j = (nat_eq_iff i j).0 q in
        let equal : d ≡ e = ground arith in rw p (inl (λ n. (same n, equal n)))
    | inr q ↦ rw p (inr (members_in-score k j e sets (ground arith)))
  ]
  | inr p ↦ rw p (members_in-score k j e sets (ground arith))
]

pub score_in_iff :
    (k : IndexKey) (j : Ident) (m e : ℕ) (sets : SetTable)
    → In (j, e) (range_of k m sets) ↔ ((score_in k j sets ≡ some e) × (m ≤ e))
score_in_iff k j m e sets = (
  λ h.
      let (_, holds) =
        In-select (λ x. is_score (score_in k x.0 sets) x.1 && leb m x.1) (members_in k sets) (j, e)
          h in
      (ground arith, ground arith),
  λ h.
      select-In (λ x. is_score (score_in k x.0 sets) x.1 && leb m x.1) (members_in k sets) (j, e)
        (members_in-score k j e sets h.0) (ground arith),
)

-- The entries that a removal leaves.
abbrev kept : (IndexKey → ℕ → Bool) → SetTable → SetTable
kept gone [] = []
kept gone ((k, i, e) ∷ sets) = if gone k e then kept gone sets else (k, i, e) ∷ kept gone sets

same_key_sym : (k l : IndexKey) → same_key k l ≡ same_key l k
unfolding same_key
same_key_sym (agent_jtis a) (agent_jtis b) = ground arith
same_key_sym (agent_jtis a) (key_jtis b) = refl
same_key_sym (key_jtis a) (agent_jtis b) = refl
same_key_sym (key_jtis a) (key_jtis b) = ==_sym a b

abbrev below : IndexKey → ℕ → IndexKey → ℕ → Bool
below k m l e = same_key k l && leb e m

abbrev of_key : IndexKey → IndexKey → ℕ → Bool
of_key k l e = same_key k l

pub score_in-kept-below :
    (k l : IndexKey) (j : Ident) (m e : ℕ) (sets : SetTable)
    → score_in l j sets ≡ some e
    → leb e m ≡ false
    → score_in l j (kept (below k m) sets) ≡ some e
score_in-kept-below k l j m e [] h q = absurd (cc)
score_in-kept-below k l j m e ((a, i, d) ∷ sets) h q =
    ground (arith, score_in-kept-below k l j m e sets)

pub score_in-kept_ne :
    (gone : IndexKey → ℕ → Bool) (l : IndexKey) (j : Ident) (sets : SetTable)
    → ((a : IndexKey) (d : ℕ) → same_key a l ≡ true → gone a d ≡ false)
    → score_in l j (kept gone sets) ≡ score_in l j sets
score_in-kept_ne gone l j [] h = refl
score_in-kept_ne gone l j ((a, i, d) ∷ sets) h =
    ground (arith, h a d, score_in-kept_ne gone l j sets h)

pub score_in-kept-of_key :
    (k l : IndexKey) (j : Ident) (sets : SetTable)
    → score_in l j (kept (of_key k) sets) ≡ (if same_key k l then none else score_in l j sets)
score_in-kept-of_key k l j [] = ground arith
score_in-kept-of_key k l j ((a, i, d) ∷ sets) = elim (Bool-cases (same_key a l)) [
  | inl p ↦ let same = same_key→≡ a l p in rw same (ground (arith, score_in-kept-of_key k l j sets))
  | inr p ↦ ground (arith, p, score_in-kept-of_key k l j sets)
]

pub other_key :
    (k l : IndexKey) (m : ℕ)
    → same_key k l ≡ false
    → (a : IndexKey) (d : ℕ) → same_key a l ≡ true
    → below k m a d ≡ false
other_key k l m h a d p = let same = same_key→≡ a l p in rw same (ground arith)

abbrev pub sample_redis : Redis
sample_redis = record {
  Store = KeyTable × SetTable;
  exists = λ j t s. lives j t s.0;
  set_ex = λ j ttl now s. ((j, now + ttl * micros) ∷ s.0, s.1);
  zadd = λ k j e s. (s.0, (k, j, e) ∷ s.1);
  zremrangebyscore = λ k m s. (s.0, kept (below k m) s.1);
  delete = λ k s. (s.0, kept (of_key k) s.1);
  zrangebyscore = λ k m s. range_of k m s.1;
  score = λ k j s. score_in k j s.1;
  exists-set_ex = λ i j ttl now t s. refl;
  exists-zadd = λ k i j e t s. refl;
  exists-zremrangebyscore = λ k j e t s. refl;
  exists-delete = λ k j t s. refl;
  score-set_ex = λ k i j ttl now s. refl;
  score-zadd = λ k l i j e s. refl;
  score-zremrangebyscore_kept = λ k l j m e s. score_in-kept-below k l j m e s.1;
  score-zremrangebyscore_ne =
      λ k l j m s h. score_in-kept_ne (below k m) l j s.1 (other_key k l m h);
  score-delete = λ k l j s. score_in-kept-of_key k l j s.1;
  zrangebyscore_iff = λ k j m e s. score_in_iff k j m e s.1;
}
