-- ===== src/Scoring/Eligibility.antt =====
-- modules/comparison/scoring.py: an eligible quote is ranked before every one that is not.
use hackathon_open_ai.Prelude.{◌≡◌, refl, ◌∙◌, sym, String, true, List, [], ◌∷◌, map, All}
use hackathon_open_ai.Value.{Value, Fields}
use hackathon_open_ai.Shared.{pass, OnPass, OnPass-bind, OnPass-eq, value, ◌>>=◌}
use hackathon_open_ai.Scoring.Weights.{validate_weights}
use hackathon_open_ai.Scoring.Score.{ScoreResult}
use hackathon_open_ai.Scoring.Keys.{eligible_first}
use hackathon_open_ai.Scoring.Ranking.{
  Keyed, sort, eligible_totals, lowest_total, score_all, key_all, response_time_for_quote,
  score_quotes,
}
use hackathon_open_ai.Scoring.Sorting.{IsSorted, StartsAfter, sort-IsSorted, sort-All}

abbrev Agrees : Keyed → Type 0
Agrees k = k.key.eligible ≡ k.result.eligible

key_all-Agrees :
    (str : Value → String) (quotes : List Fields) (rs : List ScoreResult)
    → OnPass (All Agrees) (key_all str quotes rs)
unfolding key_all
key_all-Agrees str quotes [] = tt
key_all-Agrees str quotes (r ∷ rs) =
    OnPass-bind (All Agrees) (response_time_for_quote str quotes r.quote_id) _ λ minutes _.
      OnPass-bind (All Agrees) (key_all str quotes rs) _
        λ ks e. (refl, OnPass-eq (All Agrees) _ ks e (key_all-Agrees str quotes rs))

-- Whatever follows from the first key being eligible follows from a later one being so.
chain :
    (T : Type 0) (k : Keyed) (ks : List Keyed)
    → (k.key.eligible ≡ true → T)
    → StartsAfter k ks
    → IsSorted ks
    → All Agrees ks
    → All (λ r. r.eligible ≡ true → T) (map (λ l. l.result) ks)
chain T k [] h starts sorted agrees = tt
chain T k (l ∷ ls) h starts sorted agrees = (
  λ e. h (eligible_first k.key l.key starts (agrees.0 ∙ e)),
  chain T l ls (λ e. h (eligible_first k.key l.key starts e)) sorted.0 sorted.1 agrees.1,
)

-- Where a quote is eligible, so are all before it.
abbrev pub EligibleFirst : List ScoreResult → Type 0
EligibleFirst [] = Unit
EligibleFirst (r ∷ rs) = All (λ s. s.eligible ≡ true → r.eligible ≡ true) rs × EligibleFirst rs

sorted-EligibleFirst :
    (ks : List Keyed) → IsSorted ks → All Agrees ks → EligibleFirst (map (λ l. l.result) ks)
sorted-EligibleFirst [] sorted agrees = tt
sorted-EligibleFirst (k ∷ ks) sorted agrees = (
  chain (k.result.eligible ≡ true) k ks (λ e. sym agrees.0 ∙ e) sorted.0 sorted.1 agrees.1,
  sorted-EligibleFirst ks sorted.1 agrees.1,
)

score_quotes-EligibleFirst :
    (str : Value → String) (quotes : List Fields) (policy : Fields)
    → OnPass EligibleFirst (score_quotes str quotes policy)
unfolding score_quotes
score_quotes-EligibleFirst str [] policy = tt
score_quotes-EligibleFirst str (q ∷ qs) policy =
    OnPass-bind EligibleFirst (value policy "ranking_weights" >>= validate_weights) _ λ weights _.
      OnPass-bind EligibleFirst (eligible_totals (q ∷ qs)) _ λ ns _.
        OnPass-bind EligibleFirst (lowest_total (q ∷ qs) ns) _ λ floor _.
          OnPass-bind EligibleFirst (score_all str policy floor weights (q ∷ qs)) _ λ scored _.
            OnPass-bind EligibleFirst (key_all str (q ∷ qs) scored) _ λ keyed e.
              sorted-EligibleFirst (sort keyed) (sort-IsSorted keyed) (
                sort-All Agrees keyed
                  (OnPass-eq (All Agrees) _ keyed e (key_all-Agrees str (q ∷ qs) scored)))

-- In a ranking, wherever an eligible quote stands, every quote before it is eligible.
pub eligible_come_first :
    (str : Value → String) (quotes : List Fields) (policy : Fields) (ranking : List ScoreResult)
    → score_quotes str quotes policy ≡ pass ranking
    → EligibleFirst ranking
eligible_come_first str quotes policy ranking e =
    OnPass-eq EligibleFirst _ ranking e (score_quotes-EligibleFirst str quotes policy)
