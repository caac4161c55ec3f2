-- ===== src/Scoring/Score.antt =====
-- modules/comparison/scoring.py: `score_quote`. Python's `str` of a value that is not a text is a
-- parameter.
use hackathon_open_ai.Prelude.{
  ℕ, pos, ◌+◌, String, Bool, true, false, Option, none, some, List, [], ◌∷◌, leb, if◌then◌else◌,
}
use hackathon_open_ai.Value.{Value, Values, Fields}
use hackathon_open_ai.Shared.{
  Checked, pass, fail, ExecutionCode, ◌>>=◌, value, value_or, non_negative_integer, truthy,
}
use hackathon_open_ai.Scoring.Weights.{Weight, validate_weights, weighted_points, positive_integer}
use hackathon_open_ai.Scoring.Criteria.{max_basis_points, normalized_score}

pub record ScoreComponent : Type 0 where
  pub criterion : String
  pub weight : ℕ
  pub normalized_score_basis_points : ℕ
  pub points_basis_points : ℕ
  pub evidence_refs : List String

pub record ScoreResult : Type 0 where
  pub quote_id : String
  pub quote_version : ℕ
  pub supplier_id : String
  pub eligible : Bool
  pub total_cents : ℕ
  pub price_per_person_cents : ℕ
  pub score_basis_points : ℕ
  pub components : List ScoreComponent
  pub disqualification_reasons : List String
  pub risks : List String

-- `str(value)`: a text stays as it is.
unfoldable pub to_text : (Value → String) → Value → String
to_text str (Value.text s) = s
to_text str v = str v

unfoldable pub all_texts : (Value → String) → Values → List String
unfolding to_text
all_texts str Values.nil = []
all_texts str (Values.cons v vs) = to_text str v ∷ all_texts str vs

unfoldable pub string_tuple : (Value → String) → Value → Checked (List String)
unfolding all_texts
string_tuple str Value.null = pass []
string_tuple str (Value.list vs) = pass (all_texts str vs)
string_tuple str _ = fail ExecutionCode.validation_error

-- `evidence.get(criterion, ())` of a mapping.
unfoldable pub evidence_for : Value → String → Value
unfolding value_or
evidence_for (Value.dict fields) criterion = value_or fields criterion (Value.list Values.nil)
evidence_for evidence criterion = evidence

unfoldable pub evidence_refs : (Value → String) → Fields → String → Checked (List String)
unfolding string_tuple evidence_for value_or
evidence_refs str quote criterion =
    string_tuple str
      (evidence_for (value_or quote "evidence_refs" (Value.list Values.nil)) criterion)

-- A disqualified quote receives no points.
unfoldable pub points : Bool → ℕ → ℕ → ℕ
unfolding weighted_points
points eligible weight normalized = if eligible then weighted_points weight normalized else 0

-- The loop over the weights.
unfoldable pub score_components :
    (Value → String) → Fields → ℕ → Bool → List Weight → Checked (List ScoreComponent)
unfolding normalized_score evidence_refs points
score_components str quote floor eligible [] = pass []
score_components str quote floor eligible (w ∷ ws) =
    normalized_score w.criterion quote floor >>= λ normalized.
    evidence_refs str quote w.criterion >>= λ refs.
    score_components str quote floor eligible ws >>= λ rest. pass (
      record {
        criterion = w.criterion;
        weight = w.weight;
        normalized_score_basis_points = normalized;
        points_basis_points = points eligible w.weight normalized;
        evidence_refs = refs;
      }
      ∷ rest)

unfoldable pub sum_points : List ScoreComponent → ℕ
sum_points [] = 0
sum_points (c ∷ cs) = c.points_basis_points + sum_points cs

-- The sum, if it is in the range.
unfoldable pub total_score : List ScoreComponent → Checked ℕ
unfolding sum_points
total_score components =
    if leb (sum_points components) max_basis_points
    then pass (sum_points components)
    else fail ExecutionCode.validation_error

-- `reasons or otherwise`
abbrev pub or_else : List String → List String → List String
or_else [] otherwise = otherwise
or_else (r ∷ rs) otherwise = r ∷ rs

unfoldable pub reasons : Bool → List String → List String → List String
reasons true errors risks = errors
reasons false errors risks = or_else errors (or_else risks ("QUOTE_NOT_ELIGIBLE" ∷ []))

unfoldable pub errors_of : (Value → String) → Fields → Checked (List String)
unfolding string_tuple value_or
errors_of str quote = string_tuple str (value_or quote "validation_errors" (Value.list Values.nil))

unfoldable pub risks_of : (Value → String) → Fields → Checked (List String)
unfolding string_tuple value_or
risks_of str quote =
    string_tuple str
      (value_or quote "validation_warnings" (value_or quote "risks" (Value.list Values.nil)))

unfoldable pub version_of : Fields → Checked ℕ
unfolding positive_integer value_or
version_of quote = positive_integer (value_or quote "quote_version" (Value.int (pos 1)))

-- What follows the components and their sum.
unfoldable pub score_result :
    (Value → String) → Fields → ℕ → ℕ → Bool → List ScoreComponent → ℕ → Checked ScoreResult
unfolding value to_text reasons errors_of risks_of version_of
score_result str quote total price eligible components score = errors_of str quote >>= λ errors.
    risks_of str quote >>= λ risks. value quote "quote_id" >>= λ id. version_of quote >>= λ version.
    value quote "supplier_id" >>= λ supplier. pass record {
      quote_id = to_text str id;
      quote_version = version;
      supplier_id = to_text str supplier;
      eligible = eligible;
      total_cents = total;
      price_per_person_cents = price;
      score_basis_points = score;
      components = components;
      disqualification_reasons = reasons eligible errors risks;
      risks = risks;
    }

-- `dict(validated_weights)`, or the policy's weights.
unfoldable pub weights_of : Fields → Option (List Weight) → Checked (List Weight)
unfolding validate_weights value
weights_of policy (some weights) = pass weights
weights_of policy none = value policy "ranking_weights" >>= validate_weights

unfoldable pub money_of : Fields → String → Checked ℕ
unfolding value non_negative_integer
money_of quote name = value quote name >>= non_negative_integer

abbrev pub is_eligible : Fields → Bool
is_eligible quote = truthy (value_or quote "eligible" (Value.bool true))

abbrev pub floor_of : ℕ → Option ℕ → ℕ
floor_of total none = total
floor_of total (some lowest) = lowest

unfoldable pub score_quote :
    (Value → String) → Fields → Fields → Option ℕ → Option (List Weight) → Checked ScoreResult
unfolding weights_of money_of score_components total_score score_result value_or truthy
score_quote str quote policy lowest validated = weights_of policy validated >>= λ weights.
    money_of quote "total_cents" >>= λ total.
    non_negative_integer (value_or quote "price_per_person_cents" (Value.int (pos 0))) >>= λ price.
    score_components str quote (floor_of total lowest) (is_eligible quote) weights >>= λ components.
    total_score components >>= λ score.
    score_result str quote total price (is_eligible quote) components score
