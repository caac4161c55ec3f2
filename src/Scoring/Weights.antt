-- ===== src/Scoring/Weights.antt =====
-- modules/comparison/scoring.py: `_validate_weights`, the bounded integers and the points of a
-- weight.
use hackathon_open_ai.Prelude.{
  ℕ, ◌+◌, ◌*◌, String, Bool, true, false, List, [], ◌∷◌, leb, ◌==◌, ◌&&◌, str_eq, if◌then◌else◌,
}
use hackathon_open_ai.Value.{Value, Fields}
use hackathon_open_ai.Shared.{
  Checked, pass, fail, ExecutionCode, ◌>>=◌, non_negative_integer, strip, half_up,
}

unfoldable pub bounded_integer : Value → ℕ → ℕ → Checked ℕ
unfolding non_negative_integer
bounded_integer value minimum maximum = non_negative_integer value >>= λ result.
    if leb minimum result && leb result maximum
    then pass result
    else fail ExecutionCode.validation_error

-- `_positive_integer`
unfoldable pub positive_integer : Value → Checked ℕ
unfolding non_negative_integer
positive_integer value = non_negative_integer value >>= λ result.
    if result == 0 then fail ExecutionCode.validation_error else pass result

-- An entry of `weights`.
pub record Weight : Type 0 where
  pub criterion : String
  pub weight : ℕ

-- `weights[criterion] = weight`: an entry that is there keeps its place.
unfoldable pub set_weight : String → ℕ → List Weight → List Weight
set_weight criterion weight [] = record { criterion = criterion; weight = weight } ∷ []
set_weight criterion weight (w ∷ ws) =
    let rest = set_weight criterion weight ws in
    if str_eq w.criterion criterion
    then record { criterion = criterion; weight = weight } ∷ ws
    else w ∷ rest

unfoldable pub sum_weights : List Weight → ℕ
sum_weights [] = 0
sum_weights (w ∷ ws) = w.weight + sum_weights ws

abbrev pub is_empty_text : String → Bool
is_empty_text String.[] = true
is_empty_text (String.◌∷◌ c s) = false

-- The loop over `value.items()`.
unfoldable pub collect_weights : Fields → List Weight → Checked (List Weight)
unfolding set_weight strip bounded_integer
collect_weights Fields.end weights = pass weights
collect_weights (Fields.field raw raw_weight rest) weights =
    if is_empty_text (strip raw)
    then fail ExecutionCode.validation_error
    else (bounded_integer raw_weight 0 100 >>= λ weight.
        collect_weights rest (set_weight (strip raw) weight weights))

unfoldable pub require_full : List Weight → Checked (List Weight)
unfolding sum_weights
require_full weights =
    if sum_weights weights == 100 then pass weights else fail ExecutionCode.validation_error

unfoldable pub validate_weights : Value → Checked (List Weight)
unfolding collect_weights require_full
validate_weights (Value.dict (Fields.field name value rest)) =
    collect_weights (Fields.field name value rest) [] >>= require_full
validate_weights _ = fail ExecutionCode.validation_error

-- The weight is a percentage.
unfoldable pub weighted_points : ℕ → ℕ → ℕ
unfolding half_up
weighted_points weight normalized = half_up (weight * normalized) 100
