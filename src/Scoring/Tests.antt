-- ===== src/Scoring/Tests.antt =====
-- Runs of modules/comparison/scoring.py on three quotes.
use hackathon_open_ai.Prelude.{
  ℕ, pos, ◌≡◌, ◌≤◌, refl, String, Bool, true, false, none, List, [], ◌∷◌, map,
}
use hackathon_open_ai.Value.{Value, Fields}
use hackathon_open_ai.Shared.{Checked, pass, fail}
use hackathon_open_ai.Scoring.Weights.{Weight, validate_weights}
use hackathon_open_ai.Scoring.Score.{
  ScoreComponent, ScoreResult, score_components, score_quote, sum_points, total_score,
}
use hackathon_open_ai.Scoring.Points.{score_in_range}
use hackathon_open_ai.Scoring.Results.{Explained, score-Explained}
use hackathon_open_ai.Scoring.Ranking.{score_quotes}
use hackathon_open_ai.Scoring.Order.{Ranked, ranking_sorts}
use hackathon_open_ai.Scoring.Eligibility.{EligibleFirst, eligible_come_first}

abbrev str : Value → String
str v = "?"

abbrev quote : String → ℕ → ℕ → Bool → Fields
quote name total minutes eligible = Fields.field "quote_id" (Value.text name) (
    Fields.field "supplier_id" (Value.text "sup_1") (
      Fields.field "total_cents" (Value.int (pos total)) (
        Fields.field "response_time_minutes" (Value.int (pos minutes))
          (Fields.field "eligible" (Value.bool eligible) Fields.end))))

abbrev ranking_weights : Value
ranking_weights = Value.dict (
    Fields.field " Preço " (Value.int (pos 60))
      (Fields.field "response" (Value.int (pos 40)) Fields.end))

abbrev policy : Fields
policy = Fields.field "ranking_weights" ranking_weights Fields.end

abbrev weights : List Weight
weights =
    record { criterion = "Preço"; weight = 60 }
    ∷ record { criterion = "response"; weight = 40 }
    ∷ []

weights_valid : validate_weights ranking_weights ≡ pass weights
unfolding validate_weights
weights_valid = refl

abbrev quotes : List Fields
quotes = quote "quo_a" 2000 60 true ∷ quote "quo_b" 500 0 false ∷ quote "quo_c" 1000 720 true ∷ []

abbrev passed {ℓ} : {A : Type ℓ} → Checked (List A) → List A
passed (pass xs) = xs
passed (fail e) = []

abbrev components : List ScoreComponent
components = passed (score_components str (quote "quo_c" 1000 720 true) 1000 true weights)

components_valid :
    score_components str (quote "quo_c" 1000 720 true) 1000 true weights ≡ pass components
unfolding score_components
components_valid = refl

score_in_range_example :
    (total_score components ≡ pass (sum_points components)) × (sum_points components ≤ 10000)
score_in_range_example =
    score_in_range str (quote "quo_c" 1000 720 true) 1000 true ranking_weights weights components
      weights_valid components_valid

abbrev best : ScoreResult
best = record {
  quote_id = "quo_c";
  quote_version = 1;
  supplier_id = "sup_1";
  eligible = true;
  total_cents = 1000;
  price_per_person_cents = 0;
  score_basis_points = 8000;
  components = components;
  disqualification_reasons = [];
  risks = [];
}

scored : score_quote str (quote "quo_c" 1000 720 true) policy none none ≡ pass best
unfolding score_quote score_components
scored = refl

score-Explained_example : Explained (quote "quo_c" 1000 720 true) policy none none best
score-Explained_example =
    score-Explained str (quote "quo_c" 1000 720 true) policy none none best scored

abbrev ranking : List ScoreResult
ranking = passed (score_quotes str quotes policy)

ranked : score_quotes str quotes policy ≡ pass ranking
unfolding score_quotes
ranked = refl

order : map (λ r. r.quote_id) ranking ≡ "quo_c" ∷ "quo_a" ∷ "quo_b" ∷ []
unfolding score_quotes
order = refl

scores : map (λ r. r.score_basis_points) ranking ≡ 8000 ∷ 6833 ∷ 0 ∷ []
unfolding score_quotes
scores = refl

ranking_sorts_example : Ranked str quotes policy ranking
ranking_sorts_example =
    ranking_sorts str (quote "quo_a" 2000 60 true)
      (quote "quo_b" 500 0 false ∷ quote "quo_c" 1000 720 true ∷ []) policy ranking ranked

eligible_come_first_example : EligibleFirst ranking
eligible_come_first_example = eligible_come_first str quotes policy ranking ranked
