-- ===== src/Scoring/Order.antt =====
-- modules/comparison/scoring.py: the ranking is the scored quotes, the better ones first.
use hackathon_open_ai.Prelude.{subst, ap, ℕ, ◌≡◌, refl, String, List, [], ◌∷◌, some, All}
use mathlib.Core.List.{Perm}
use hackathon_open_ai.Shared.{◌>>=◌, pass, OnPass, OnPass-bind, OnPass-eq, value}
use hackathon_open_ai.Value.{Value, Fields}
use hackathon_open_ai.Scoring.Weights.{Weight, validate_weights}
use hackathon_open_ai.Scoring.Score.{ScoreResult, score_quote}
use hackathon_open_ai.Scoring.Ranking.{
  Keyed, sort, eligible_totals, lowest_total, score_all, key_all, score_quotes,
  response_time_for_quote,
}
use hackathon_open_ai.Scoring.Sorting.{
  IsSorted, StartsAfter, sort-IsSorted, sort-All, sort-Perm, results,
}
use hackathon_open_ai.Scoring.Lexical.{Ahead, key_of, compare_key-Ahead}
use hackathon_open_ai.Scoring.Lowest.{considered, IsLowest, lowest_total-IsLowest}

-- `r` may be ranked before `s`, each with the response time of its quote.
abbrev pub Precedes : (Value → String) → List Fields → ScoreResult → ScoreResult → Type 0
Precedes str quotes r s =
    (m : ℕ) × (n : ℕ) × (response_time_for_quote str quotes r.quote_id ≡ pass m)
    × (response_time_for_quote str quotes s.quote_id ≡ pass n)
    × Ahead r m s n

-- Each result may be ranked before the next.
abbrev pub BestFirst : (Value → String) → List Fields → List ScoreResult → Type 0
BestFirst str quotes [] = Unit
BestFirst str quotes (r ∷ []) = Unit
BestFirst str quotes (r ∷ s ∷ rest) = Precedes str quotes r s × BestFirst str quotes (s ∷ rest)

-- The results are those of the quotes, each scored against the floor with the weights.
abbrev pub Scored :
    (Value → String) → Fields → ℕ → List Weight → List Fields → List ScoreResult → Type 0
Scored str policy floor weights [] [] = Unit
Scored str policy floor weights [] (r ∷ rs) = ⊥
Scored str policy floor weights (q ∷ qs) [] = ⊥
Scored str policy floor weights (q ∷ qs) (r ∷ rs) =
    (score_quote str q policy (some floor) (some weights) ≡ pass r)
    × Scored str policy floor weights qs rs

-- What `score_quotes` makes of the quotes.
pub record Ranked (str : Value → String) (quotes : List Fields) (policy : Fields)
    (ranking : List ScoreResult) : Type 0 where
  pub floor : ℕ
  pub weights : List Weight
  pub scored : List ScoreResult
  pub weighed : (value policy "ranking_weights" >>= validate_weights) ≡ pass weights
  pub lowest : IsLowest floor (considered quotes)
  pub each_scored : Scored str policy floor weights quotes scored
  pub same_items : Perm ranking scored
  pub best_first : BestFirst str quotes ranking

score_all-Scored :
    (str : Value → String) (policy : Fields) (floor : ℕ) (weights : List Weight) (qs : List Fields)
    → OnPass (Scored str policy floor weights qs) (score_all str policy floor weights qs)
unfolding score_all
score_all-Scored str policy floor weights [] = tt
score_all-Scored str policy floor weights (q ∷ qs) =
    OnPass-bind (Scored str policy floor weights (q ∷ qs))
      (score_quote str q policy (some floor) (some weights)) _
      λ r e.
        OnPass-bind (Scored str policy floor weights (q ∷ qs))
          (score_all str policy floor weights qs) _
          λ rs k. (
            e,
            OnPass-eq (Scored str policy floor weights qs) _ rs k
                (score_all-Scored str policy floor weights qs),
          )

module _ (str : Value → String) (quotes : List Fields) where
  -- The key is that of the result, with the response time of its quote.
  abbrev IsKeyed : Keyed → Type 0
  IsKeyed k =
      (m : ℕ) × (response_time_for_quote str quotes k.result.quote_id ≡ pass m)
      × (k.key ≡ key_of k.result m)

  key_all-IsKeyed :
      (rs : List ScoreResult)
      → OnPass (λ ks. All IsKeyed ks × (results ks ≡ rs)) (key_all str quotes rs)
  unfolding key_all
  key_all-IsKeyed [] = (tt, refl)
  key_all-IsKeyed (r ∷ rs) =
      OnPass-bind (λ ks. All IsKeyed ks × (results ks ≡ r ∷ rs))
        (response_time_for_quote str quotes r.quote_id) _
        λ m e.
          OnPass-bind (λ ks. All IsKeyed ks × (results ks ≡ r ∷ rs)) (key_all str quotes rs) _
            λ ks k.
              let rest =
                OnPass-eq (λ ks. All IsKeyed ks × (results ks ≡ rs)) _ ks k (key_all-IsKeyed rs) in
              (((m, e, refl), rest.0), ap (λ t. r ∷ t) rest.1)

  keyed-Precedes :
      (k l : Keyed)
      → IsKeyed k
      → IsKeyed l
      → StartsAfter k (l ∷ [])
      → Precedes str quotes k.result l.result
  keyed-Precedes k l (m, e, i) (n, f, j) h =
      (m, n, e, f, compare_key-Ahead k.result m l.result n (rw (i, j) at h))

  sorted-BestFirst :
      (ks : List Keyed) → IsSorted ks → All IsKeyed ks → BestFirst str quotes (results ks)
  sorted-BestFirst [] sorted keyed = tt
  sorted-BestFirst (k ∷ []) sorted keyed = tt
  sorted-BestFirst (k ∷ l ∷ ks) sorted keyed =
      (keyed-Precedes k l keyed.0 keyed.1.0 sorted.0, sorted-BestFirst (l ∷ ks) sorted.1 keyed.1)

score_quotes-Ranked :
    (str : Value → String) (q : Fields) (qs : List Fields) (policy : Fields)
    → OnPass (Ranked str (q ∷ qs) policy) (score_quotes str (q ∷ qs) policy)
unfolding score_quotes
score_quotes-Ranked str q qs policy =
    let quotes = q ∷ qs in
    let R = Ranked str (q ∷ qs) policy in
    OnPass-bind R (value policy "ranking_weights" >>= validate_weights) _ λ weights weighed.
      OnPass-bind R (eligible_totals quotes) _ λ ns listed.
        OnPass-bind R (lowest_total quotes ns) _ λ floor found.
          OnPass-bind R (score_all str policy floor weights quotes) _ λ scored hs.
            OnPass-bind R (key_all str quotes scored) _ λ keyed hk.
              let keys =
                OnPass-eq (λ ks. All (IsKeyed str quotes) ks × (results ks ≡ scored)) _ keyed hk
                  (key_all-IsKeyed str quotes scored) in
              record {
                floor = floor;
                weights = weights;
                scored = scored;
                weighed = weighed;
                lowest =
                    OnPass-eq (λ floor. IsLowest floor (considered quotes)) _ floor found
                      (lowest_total-IsLowest quotes ns listed);
                each_scored =
                    OnPass-eq (Scored str policy floor weights quotes) _ scored hs
                      (score_all-Scored str policy floor weights quotes);
                same_items = subst (λ rs. Perm (results (sort keyed)) rs) keys.1 (sort-Perm keyed);
                best_first =
                    sorted-BestFirst str quotes (sort keyed) (sort-IsSorted keyed)
                      (sort-All (IsKeyed str quotes) keyed keys.0);
              }

-- A ranking of at least one quote is a permutation of the results of `score_quote` on the quotes, all
-- with the policy's weights and against the least total of the eligible quotes (of all, where none is
-- eligible). Of two results that follow each other the first is the eligible one, or has the higher
-- score, or the lower total, or the shorter response time, or the lower supplier's id, or else a
-- quote's id that is not higher, where all that is named before is equal.
pub ranking_sorts :
    (str : Value → String) (q : Fields) (qs : List Fields) (policy : Fields)
    (ranking : List ScoreResult)
    → score_quotes str (q ∷ qs) policy ≡ pass ranking
    → Ranked str (q ∷ qs) policy ranking
ranking_sorts str q qs policy ranking e =
    OnPass-eq (Ranked str (q ∷ qs) policy) _ ranking e (score_quotes-Ranked str q qs policy)
