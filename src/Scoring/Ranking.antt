-- ===== src/Scoring/Ranking.antt =====
-- modules/comparison/scoring.py: `score_quotes`.
use hackathon_open_ai.Prelude.{ℕ, pos, min, String, some, List, [], ◌∷◌, map, if◌then◌else◌, str_eq}
use hackathon_open_ai.Value.{Value, Fields}
use hackathon_open_ai.Shared.{
  Checked, pass, fail, ExecutionCode, ◌>>=◌, value, value_or, non_negative_integer,
}
use hackathon_open_ai.Scoring.Weights.{Weight, validate_weights}
use hackathon_open_ai.Scoring.Score.{ScoreResult, score_quote, money_of, is_eligible, to_text}
use hackathon_open_ai.Scoring.Keys.{Key, compare_key, not_after}

unfoldable pub totals : List Fields → Checked (List ℕ)
unfolding money_of
totals [] = pass []
totals (q ∷ qs) = money_of q "total_cents" >>= λ n. totals qs >>= λ ns. pass (n ∷ ns)

unfoldable pub eligible_totals : List Fields → Checked (List ℕ)
unfolding money_of
eligible_totals [] = pass []
eligible_totals (q ∷ qs) =
    let rest = eligible_totals qs in
    if is_eligible q then (money_of q "total_cents" >>= λ n. rest >>= λ ns. pass (n ∷ ns)) else rest

unfoldable pub lowest : ℕ → List ℕ → ℕ
lowest n [] = n
lowest n (m ∷ ms) = min n (lowest m ms)

-- `min(eligible_totals or [...])` of a list that is not empty.
unfoldable pub lowest_total : List Fields → List ℕ → Checked ℕ
unfolding totals lowest
lowest_total quotes (n ∷ ns) = pass (lowest n ns)
lowest_total quotes [] = totals quotes >>= λ all. elim all [
  | [] ↦ fail ExecutionCode.validation_error
  | n ∷ ns ↦ pass (lowest n ns)
]

unfoldable pub score_all :
    (Value → String) → Fields → ℕ → List Weight → List Fields → Checked (List ScoreResult)
unfolding score_quote
score_all str policy floor weights [] = pass []
score_all str policy floor weights (q ∷ qs) =
    score_quote str q policy (some floor) (some weights) >>= λ r.
    score_all str policy floor weights qs >>= λ rs. pass (r ∷ rs)

-- `_response_time_for_quote`
unfoldable pub response_time_for_quote : (Value → String) → List Fields → String → Checked ℕ
unfolding value value_or to_text non_negative_integer
response_time_for_quote str [] id = pass 0
response_time_for_quote str (q ∷ qs) id =
    let rest = response_time_for_quote str qs id in
    value q "quote_id" >>= λ v.
    if str_eq (to_text str v) id
    then non_negative_integer (value_or q "response_time_minutes" (Value.int (pos 0)))
    else rest

-- A result beside its key.
pub record Keyed : Type 0 where
  pub key : Key
  pub result : ScoreResult

unfoldable pub key_all : (Value → String) → List Fields → List ScoreResult → Checked (List Keyed)
unfolding response_time_for_quote
key_all str quotes [] = pass []
key_all str quotes (r ∷ rs) = response_time_for_quote str quotes r.quote_id >>= λ minutes.
    key_all str quotes rs >>= λ ks. pass (
      record {
        key = record {
          eligible = r.eligible;
          score = r.score_basis_points;
          total = r.total_cents;
          minutes = minutes;
          supplier = r.supplier_id;
          quote = r.quote_id;
        };
        result = r;
      }
      ∷ ks)

-- `list.sort` is stable: an item goes before those that its key is not above.
unfoldable pub insert : Keyed → List Keyed → List Keyed
unfolding compare_key
insert k [] = k ∷ []
insert k (l ∷ ls) =
    let rest = insert k ls in if not_after (compare_key k.key l.key) then k ∷ l ∷ ls else l ∷ rest

unfoldable pub sort : List Keyed → List Keyed
unfolding insert
sort [] = []
sort (k ∷ ks) = insert k (sort ks)

unfoldable pub score_quotes : (Value → String) → List Fields → Fields → Checked (List ScoreResult)
unfolding value validate_weights eligible_totals lowest_total score_all key_all sort
score_quotes str [] policy = pass []
score_quotes str (q ∷ qs) policy =
    value policy "ranking_weights" >>= validate_weights >>= λ weights.
    eligible_totals (q ∷ qs) >>= λ ns. lowest_total (q ∷ qs) ns >>= λ floor.
    score_all str policy floor weights (q ∷ qs) >>= λ results.
    key_all str (q ∷ qs) results >>= λ keyed. pass (map (λ k. k.result) (sort keyed))
