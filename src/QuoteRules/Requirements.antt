-- ===== src/QuoteRules/Requirements.antt =====
-- modules/quotes/rules.py: the requirements of the buyer. A check returns its risks with whether it
-- is passed.
use hackathon_open_ai.Prelude.{
  ℕ, zero, suc, pos, Bool, true, false, String, List, [], ◌∷◌, ◌++◌, if◌then◌else◌, not, ◌||◌, ◌&&◌,
  leb,
}
use hackathon_open_ai.Value.{Value, Values, Fields}
use hackathon_open_ai.Shared.{
  Checked, pass, fail, ExecutionCode, ◌>>=◌, value_or, non_negative_integer, is_true, spells, reads,
}

-- `tuple[bool, tuple[str, ...]]`
pub record Check : Type 0 where
  pub passed : Bool
  pub risks : List String

unfoldable pub check : Bool → String → Check
check true risk = record { passed = true; risks = [] }
check false risk = record { passed = false; risks = risk ∷ [] }

-- A limit of `None` is none.
unfoldable pub budget_check : ℕ → Value → Checked Check
unfolding check non_negative_integer
budget_check total Value.null = pass (check true "")
budget_check total maximum =
    non_negative_integer maximum >>= λ m. pass (check (leb total m) "BUDGET_LIMIT_EXCEEDED")

unfoldable pub validate_budget_limit : ℕ → Fields → Checked Check
unfolding budget_check value_or
validate_budget_limit total requirements =
    budget_check total (value_or requirements "maximum_total_cents" Value.null)

-- Whether a text that reads `name` is among the values.
unfoldable pub names : String → Values → Bool
unfolding spells
names name Values.nil = false
names name (Values.cons (Value.text s) vs) = spells s name || names name vs
names name (Values.cons _ vs) = names name vs

-- `name in _mandatory_requirements(...)`
unfoldable pub names_mandatory : String → Value → Checked Bool
unfolding names
names_mandatory name (Value.list vs) = pass (names name vs)
names_mandatory name _ = fail ExecutionCode.validation_error

unfoldable pub validate_invoice_requirement : Fields → Fields → Checked Check
unfolding check names_mandatory value_or
validate_invoice_requirement submission requirements =
    names_mandatory "invoice"
      (value_or requirements "mandatory_requirements" (Value.list Values.nil))
    >>= λ mandatory. pass (
        check
          (not (is_true (value_or requirements "invoice_required" Value.null) || mandatory)
            || is_true (value_or submission "invoice_available" Value.null))
          "INVOICE_REQUIREMENT_NOT_MET")

unfoldable pub is_known_status : Value → Bool
unfolding reads
is_known_status status =
    reads status "confirmed"
    || reads status "partial"
    || reads status "unknown"
    || reads status "not_available"

abbrev pub is_zero : ℕ → Bool
is_zero zero = true
is_zero (suc n) = false

-- One turn of the loop over the categories.
unfoldable pub dietary_check : Fields → Fields → String → String → String → Checked Check
unfolding check is_known_status non_negative_integer value_or
dietary_check submission requirements count_field status_field risk =
    non_negative_integer (value_or requirements count_field (Value.int (pos 0))) >>= λ count.
    let status = value_or submission status_field (Value.text "unknown") in
    if is_known_status status
    then pass (check (is_zero count || reads status "confirmed") risk)
    else fail ExecutionCode.validation_error

-- The risks of two checks, passed when there are none.
unfoldable pub both : Check → Check → Check
both a b = record { passed = a.passed && b.passed; risks = a.risks ++ b.risks }

unfoldable pub validate_dietary_requirements : Fields → Fields → Checked Check
unfolding dietary_check both
validate_dietary_requirements submission requirements =
    dietary_check submission requirements "vegetarian_count" "vegetarian_status"
      "VEGETARIAN_REQUIREMENT_NOT_CONFIRMED"
    >>= λ vegetarian.
        dietary_check submission requirements "vegan_count" "vegan_status"
          "VEGAN_REQUIREMENT_NOT_CONFIRMED"
        >>= λ vegan.
            dietary_check submission requirements "gluten_free_count" "gluten_free_status"
              "GLUTEN_FREE_REQUIREMENT_NOT_CONFIRMED"
            >>= λ gluten_free. pass (both vegetarian (both vegan gluten_free))
