-- ===== src/Scoring/Lexical.antt =====
-- modules/comparison/scoring.py: the order of a ranking, criterion after criterion.
use Prim.Native.Nat.{compare as compare_ℕ, Ordering}
use Prim.Native.Char.{code}
use hackathon_open_ai.Prelude.{
  ℕ, ◌≡◌, ◌<◌, ◌⊎◌, inl, inr, refl, sym, String, Bool, true, false, arith,
}
use hackathon_open_ai.Scoring.Score.{ScoreResult}
use hackathon_open_ai.Scoring.Keys.{
  Key, compare_key, compare_text, compare_eligible, not_after, ◌then◌,
}

-- The texts have the same code points.
abbrev pub SameText : String → String → Type 0
SameText String.[] String.[] = Unit
SameText String.[] (String.◌∷◌ d t) = ⊥
SameText (String.◌∷◌ c s) String.[] = ⊥
SameText (String.◌∷◌ c s) (String.◌∷◌ d t) = (code c ≡ code d) × SameText s t

-- The first text ends first, or has the smaller code point where they first differ.
abbrev pub TextBefore : String → String → Type 0
TextBefore String.[] String.[] = ⊥
TextBefore String.[] (String.◌∷◌ d t) = Unit
TextBefore (String.◌∷◌ c s) String.[] = ⊥
TextBefore (String.◌∷◌ c s) (String.◌∷◌ d t) =
    (code c < code d) ⊎ ((code c ≡ code d) × TextBefore s t)

-- `r`, answered in `m` minutes, may be ranked before `s`, answered in `n`: the eligible one first, then
-- the higher score, the lower total, the shorter response time, the supplier's id, the quote's id.
pub data Ahead (r : ScoreResult) (m : ℕ) (s : ScoreResult) (n : ℕ) : Type 0 where
  eligibility : r.eligible ≡ true → s.eligible ≡ false → Ahead r m s n
  score : r.eligible ≡ s.eligible → s.score_basis_points < r.score_basis_points → Ahead r m s n
  total :
      r.eligible ≡ s.eligible
      → r.score_basis_points ≡ s.score_basis_points
      → r.total_cents < s.total_cents
      → Ahead r m s n
  minutes :
      r.eligible ≡ s.eligible
      → r.score_basis_points ≡ s.score_basis_points
      → r.total_cents ≡ s.total_cents
      → m < n
      → Ahead r m s n
  supplier :
      r.eligible ≡ s.eligible
      → r.score_basis_points ≡ s.score_basis_points
      → r.total_cents ≡ s.total_cents
      → m ≡ n
      → TextBefore r.supplier_id s.supplier_id
      → Ahead r m s n
  quote :
      r.eligible ≡ s.eligible
      → r.score_basis_points ≡ s.score_basis_points
      → r.total_cents ≡ s.total_cents
      → m ≡ n
      → SameText r.supplier_id s.supplier_id
      → TextBefore r.quote_id s.quote_id ⊎ SameText r.quote_id s.quote_id
      → Ahead r m s n

then_cases :
    (a b : Ordering)
    → not_after (a then b) ≡ true
    → (a ≡ Ordering.lt) ⊎ ((a ≡ Ordering.eq) × (not_after b ≡ true))
then_cases Ordering.lt b h = inl refl
then_cases Ordering.eq b h = inr (refl, h)
then_cases Ordering.gt b h = absurd cc

not_after_cases : (a : Ordering) → not_after a ≡ true → (a ≡ Ordering.lt) ⊎ (a ≡ Ordering.eq)
not_after_cases Ordering.lt h = inl refl
not_after_cases Ordering.eq h = inr refl
not_after_cases Ordering.gt h = absurd cc

compare_ℕ-lt : (m n : ℕ) → compare_ℕ m n ≡ Ordering.lt → m < n
compare_ℕ-lt m n h = ground arith

compare_ℕ-eq : (m n : ℕ) → compare_ℕ m n ≡ Ordering.eq → m ≡ n
compare_ℕ-eq m n h = ground arith

then-lt :
    (a b : Ordering)
    → (a then b) ≡ Ordering.lt
    → (a ≡ Ordering.lt) ⊎ ((a ≡ Ordering.eq) × (b ≡ Ordering.lt))
then-lt Ordering.lt b h = inl refl
then-lt Ordering.eq b h = inr (refl, h)
then-lt Ordering.gt b h = absurd cc

then-eq : (a b : Ordering) → (a then b) ≡ Ordering.eq → (a ≡ Ordering.eq) × (b ≡ Ordering.eq)
then-eq Ordering.lt b h = absurd cc
then-eq Ordering.eq b h = (refl, h)
then-eq Ordering.gt b h = absurd cc

compare_text-lt : (s t : String) → compare_text s t ≡ Ordering.lt → TextBefore s t
unfolding compare_text
compare_text-lt String.[] String.[] h = absurd cc
compare_text-lt String.[] (String.◌∷◌ d t) h = tt
compare_text-lt (String.◌∷◌ c s) String.[] h = absurd cc
compare_text-lt (String.◌∷◌ c s) (String.◌∷◌ d t) h =
    elim (then-lt (compare_ℕ (code c) (code d)) (compare_text s t) h) [
      | inl e ↦ inl (compare_ℕ-lt (code c) (code d) e)
      | inr (e, k) ↦ inr (compare_ℕ-eq (code c) (code d) e, compare_text-lt s t k)
    ]

compare_text-eq : (s t : String) → compare_text s t ≡ Ordering.eq → SameText s t
unfolding compare_text
compare_text-eq String.[] String.[] h = tt
compare_text-eq String.[] (String.◌∷◌ d t) h = absurd cc
compare_text-eq (String.◌∷◌ c s) String.[] h = absurd cc
compare_text-eq (String.◌∷◌ c s) (String.◌∷◌ d t) h =
    let both = then-eq (compare_ℕ (code c) (code d)) (compare_text s t) h in
    (compare_ℕ-eq (code c) (code d) both.0, compare_text-eq s t both.1)

compare_eligible-lt : (a b : Bool) → compare_eligible a b ≡ Ordering.lt → (a ≡ true) × (b ≡ false)
compare_eligible-lt a b h = ground arith

compare_eligible-eq : (a b : Bool) → compare_eligible a b ≡ Ordering.eq → a ≡ b
compare_eligible-eq a b h = ground arith

-- The key of a result that was answered in `m` minutes.
abbrev pub key_of : ScoreResult → ℕ → Key
key_of r m = record {
  eligible = r.eligible;
  score = r.score_basis_points;
  total = r.total_cents;
  minutes = m;
  supplier = r.supplier_id;
  quote = r.quote_id;
}

pub compare_key-Ahead :
    (r : ScoreResult) (m : ℕ) (s : ScoreResult) (n : ℕ)
    → not_after (compare_key (key_of r m) (key_of s n)) ≡ true
    → Ahead r m s n
unfolding compare_key
compare_key-Ahead r m s n h = elim (then_cases (compare_eligible r.eligible s.eligible) _ h) [
  | inl e ↦
      let both = compare_eligible-lt r.eligible s.eligible e in Ahead.eligibility both.0 both.1
  | inr (e, h) ↦
      let same = compare_eligible-eq r.eligible s.eligible e in
      elim (then_cases (compare_ℕ s.score_basis_points r.score_basis_points) _ h) [
        | inl e ↦ Ahead.score same (compare_ℕ-lt _ _ e)
        | inr (e, h) ↦
            let scored = sym (compare_ℕ-eq s.score_basis_points r.score_basis_points e) in
            elim (then_cases (compare_ℕ r.total_cents s.total_cents) _ h) [
              | inl e ↦ Ahead.total same scored (compare_ℕ-lt _ _ e)
              | inr (e, h) ↦
                  let priced = compare_ℕ-eq r.total_cents s.total_cents e in
                  elim (then_cases (compare_ℕ m n) _ h) [
                    | inl e ↦ Ahead.minutes same scored priced (compare_ℕ-lt m n e)
                    | inr (e, h) ↦
                        by_texts same scored priced (compare_ℕ-eq m n e)
                          (then_cases (compare_text r.supplier_id s.supplier_id) _ h)
                  ]
            ]
      ]
]
  where
    by_texts :
        r.eligible ≡ s.eligible
        → r.score_basis_points ≡ s.score_basis_points
        → r.total_cents ≡ s.total_cents
        → m ≡ n
        → (compare_text r.supplier_id s.supplier_id ≡ Ordering.lt)
          ⊎ ((compare_text r.supplier_id s.supplier_id ≡ Ordering.eq)
              × (not_after (compare_text r.quote_id s.quote_id) ≡ true))
        → Ahead r m s n
    by_texts same scored priced timed (inl e) =
        Ahead.supplier same scored priced timed (compare_text-lt _ _ e)
    by_texts same scored priced timed (inr (e, h)) =
        Ahead.quote same scored priced timed (compare_text-eq _ _ e)
          (elim (not_after_cases (compare_text r.quote_id s.quote_id) h) [
            | inl l ↦ inl (compare_text-lt _ _ l)
            | inr l ↦ inr (compare_text-eq _ _ l)
          ])
