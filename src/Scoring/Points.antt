-- ===== src/Scoring/Points.antt =====
-- modules/comparison/scoring.py: the points stay in the range of basis points.
use hackathon_open_ai.Shared.{
  ExecutionCode, Checked, pass, fail, OnPass, OnPass-bind, OnPass-eq, OnPass-if, value, value_or,
  non_negative_integer, half_up, half_up_nearest,
}
use hackathon_open_ai.Prelude.{
  str_append, ℕ, pos, ◌+◌, ◌-◌, ◌*◌, ◌≤◌, ◌≡◌, String, Bool, true, false, List, [], ◌∷◌, leb,
  if◌then◌else◌, arith,
}
use hackathon_open_ai.Value.{Value, Fields}
use hackathon_open_ai.Scoring.Weights.{
  Weight, bounded_integer, sum_weights, validate_weights, collect_weights, require_full,
  weighted_points,
}
use hackathon_open_ai.Scoring.Criteria.{
  status_score, all_or_nothing, price_score, response_score, restrictions_score, stars,
  price_criterion, response_criterion, evaluate, override_or, normalized_score,
}
use hackathon_open_ai.Scoring.Score.{
  ScoreComponent, score_components, evidence_refs, points, sum_points, total_score,
}

abbrev IsBasis : ℕ → Type 0
IsBasis n = n ≤ 10000

bounded_integer-le :
    (v : Value) (low high : ℕ) → OnPass (λ n. n ≤ high) (bounded_integer v low high)
unfolding bounded_integer
bounded_integer-le v low high =
    OnPass-bind (λ n. n ≤ high) (non_negative_integer v) _
      λ n _. OnPass-if (λ n. n ≤ high) _ n _ λ h. ground arith

all_or_nothing-IsBasis : (b : Bool) → IsBasis (all_or_nothing b)
all_or_nothing-IsBasis true = omega arith
all_or_nothing-IsBasis false = omega arith

status_score-IsBasis : (v : Value) → IsBasis (status_score v)
unfolding status_score
status_score-IsBasis v = ground arith

price_score-IsBasis : (total lowest : ℕ) → IsBasis (price_score total lowest)
unfolding price_score
price_score-IsBasis total lowest = ground arith

third : (n : ℕ) → n ≤ 30000 → IsBasis (half_up n 3)
third n h = omega (arith, half_up_nearest n 3 (omega arith))

restrictions_score-IsBasis : (quote : Fields) → IsBasis (restrictions_score quote)
unfolding restrictions_score
restrictions_score-IsBasis quote = third _ (
    omega (
      arith,
      status_score-IsBasis (value_or quote "vegetarian_status" (Value.text "unknown")),
      status_score-IsBasis (value_or quote "vegan_status" (Value.text "unknown")),
      status_score-IsBasis (value_or quote "gluten_free_status" (Value.text "unknown")),
    ))

rating_le : (n : ℕ) → n ≤ 5 → IsBasis (n * 2000)
rating_le n h = omega arith

decay_le : (n : ℕ) → IsBasis (10000 - n)
decay_le n = omega arith

nothing_le : IsBasis 0
nothing_le = omega arith

stars-IsBasis : (quote : Fields) (name : String) → OnPass IsBasis (stars quote name)
unfolding stars
stars-IsBasis quote name =
    let rating = value_or quote name (Value.int (pos 0)) in
    OnPass-bind IsBasis (bounded_integer rating 0 5) (λ n. pass (n * 2000))
      λ n e. rating_le n (OnPass-eq (λ n. n ≤ 5) _ n e (bounded_integer-le rating 0 5))

price_criterion-IsBasis :
    (quote : Fields) (lowest : ℕ) → OnPass IsBasis (price_criterion quote lowest)
unfolding price_criterion
price_criterion-IsBasis quote lowest = OnPass-bind IsBasis (value quote "total_cents") _ λ v _.
    OnPass-bind IsBasis (non_negative_integer v) _ λ total _. price_score-IsBasis total lowest

response_criterion-IsBasis : (quote : Fields) → OnPass IsBasis (response_criterion quote)
unfolding response_criterion response_score
response_criterion-IsBasis quote =
    OnPass-bind IsBasis
      (non_negative_integer (value_or quote "response_time_minutes" (Value.int (pos 0)))) _
      λ minutes _. decay_le (half_up (minutes * 10000) 1440)

OnPass-branch :
    (b : Bool) (r s : Checked ℕ)
    → OnPass IsBasis r
    → OnPass IsBasis s
    → OnPass IsBasis (if b then r else s)
OnPass-branch true r s h k = h
OnPass-branch false r s h k = k

evaluate-IsBasis :
    (criterion : String) (quote : Fields) (lowest : ℕ)
    → OnPass IsBasis (evaluate criterion quote lowest)
unfolding evaluate
evaluate-IsBasis criterion quote lowest =
    search
      (
        OnPass-branch, price_criterion-IsBasis, restrictions_score-IsBasis, all_or_nothing-IsBasis,
        response_criterion-IsBasis, stars-IsBasis, nothing_le,
      )
      depth 20

override_or-IsBasis :
    (v : Value) (score : Checked ℕ) → OnPass IsBasis score → OnPass IsBasis (override_or v score)
unfolding override_or
override_or-IsBasis Value.null score h = h
override_or-IsBasis v score h = bounded_integer-le v 0 10000

normalized_score-IsBasis :
    (criterion : String) (quote : Fields) (lowest : ℕ)
    → OnPass IsBasis (normalized_score criterion quote lowest)
unfolding normalized_score
normalized_score-IsBasis criterion quote lowest =
    override_or-IsBasis (value_or quote (str_append criterion "_score_basis_points") Value.null)
      (evaluate criterion quote lowest) (evaluate-IsBasis criterion quote lowest)

product_le : (w n : ℕ) → n ≤ 10000 → w * n ≤ w * 10000
product_le w n h = grind arith

rounded_le : (w n : ℕ) → n ≤ 10000 → half_up (w * n) 100 ≤ 100 * w
rounded_le w n h = omega (arith, half_up_nearest (w * n) 100 (omega arith), product_le w n h)

points_le :
    (eligible : Bool) (weight normalized : ℕ)
    → IsBasis normalized
    → points eligible weight normalized ≤ 100 * weight
unfolding points weighted_points
points_le true weight normalized h = rounded_le weight normalized h
points_le false weight normalized h = omega arith

abbrev Within : List Weight → List ScoreComponent → Type 0
Within ws cs = sum_points cs ≤ 100 * sum_weights ws

sum_le :
    (eligible : Bool) (weight normalized weights rest : ℕ)
    → IsBasis normalized
    → rest ≤ 100 * weights
    → points eligible weight normalized + rest ≤ 100 * (weight + weights)
sum_le eligible weight normalized weights rest h k =
    omega (arith, points_le eligible weight normalized h)

score_components_le :
    (str : Value → String) (quote : Fields) (floor : ℕ) (eligible : Bool) (ws : List Weight)
    → OnPass (Within ws) (score_components str quote floor eligible ws)
unfolding score_components sum_points sum_weights
score_components_le str quote floor eligible [] = omega arith
score_components_le str quote floor eligible (w ∷ ws) =
    OnPass-bind (Within (w ∷ ws)) (normalized_score w.criterion quote floor) _ λ normalized scored.
      OnPass-bind (Within (w ∷ ws)) (evidence_refs str quote w.criterion) _ λ refs _.
        OnPass-bind (Within (w ∷ ws)) (score_components str quote floor eligible ws) _
          λ rest within.
            sum_le eligible w.weight normalized (sum_weights ws) (sum_points rest)
              (OnPass-eq IsBasis _ normalized scored
                (normalized_score-IsBasis w.criterion quote floor))
              (OnPass-eq (Within ws) _ rest within
                (score_components_le str quote floor eligible ws))

require_full-sum : (ws : List Weight) → OnPass (λ vs. sum_weights vs ≡ 100) (require_full ws)
unfolding require_full
require_full-sum ws = OnPass-if (λ vs. sum_weights vs ≡ 100) _ ws _ λ h. ground arith

validate_weights-sum : (v : Value) → OnPass (λ ws. sum_weights ws ≡ 100) (validate_weights v)
unfolding validate_weights
validate_weights-sum (Value.dict (Fields.field name v rest)) =
    OnPass-bind (λ ws. sum_weights ws ≡ 100) (collect_weights (Fields.field name v rest) []) _
      λ ws _. require_full-sum ws
validate_weights-sum _ = tt

in_range :
    (total weights : ℕ)
    → weights ≡ 100
    → total ≤ 100 * weights
    → ((if leb total 10000 then pass total else fail ExecutionCode.validation_error) ≡ pass total)
      × (total ≤ 10000)
in_range total weights h k = ground arith

-- With weights that are accepted, the range check on the score never fails, whatever the quote: the
-- score is the sum of the points of the components, at most 10000.
pub score_in_range :
    (str : Value → String) (quote : Fields) (floor : ℕ) (eligible : Bool) (ranking_weights : Value)
    (weights : List Weight) (components : List ScoreComponent)
    → validate_weights ranking_weights ≡ pass weights
    → score_components str quote floor eligible weights ≡ pass components
    → (total_score components ≡ pass (sum_points components)) × (sum_points components ≤ 10000)
unfolding total_score
score_in_range str quote floor eligible ranking_weights weights components hw hc =
    let full =
      OnPass-eq (λ ws. sum_weights ws ≡ 100) _ weights hw (validate_weights-sum ranking_weights) in
    let within =
      OnPass-eq (Within weights) _ components hc
        (score_components_le str quote floor eligible weights) in
    in_range (sum_points components) (sum_weights weights) full within
