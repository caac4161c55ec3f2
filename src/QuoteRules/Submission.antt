-- ===== src/QuoteRules/Submission.antt =====
-- modules/quotes/rules.py: `validate_quote_submission`.
use hackathon_open_ai.Prelude.{
  ℕ, suc, pos, Bool, true, false, String, List, [], ◌∷◌, ◌++◌, if◌then◌else◌, not, ◌||◌, ◌&&◌, ◌==◌,
  is_empty,
}
use hackathon_open_ai.Value.{Value, Fields}
use hackathon_open_ai.Shared.{
  Checked, pass, fail, ExecutionCode, ◌>>=◌, ◌>>◌, require, value_or, value, non_negative_integer,
  is_true,
}
use hackathon_open_ai.QuoteRules.Amounts.{
  calculate_quote_total, calculate_price_per_person, validate_quote_expiration,
}
use hackathon_open_ai.QuoteRules.Presence.{validate_required_quote_fields, is_blank_value, distinct}
use hackathon_open_ai.QuoteRules.Requirements.{
  Check, check, both, validate_budget_limit, validate_invoice_requirement,
  validate_dietary_requirements,
}

pub record QuoteValidationResult : Type 0 where
  pub total_cents : ℕ
  pub price_per_person_cents : ℕ
  pub eligible : Bool
  pub risks : List String

-- `amount > 0`, of an integer.
unfoldable pub is_positive : Value → Bool
is_positive (Value.int (pos (suc n))) = true
is_positive _ = false

-- The total that the server calculates, when the declared one agrees with it.
unfoldable pub agreed_total : Fields → Checked ℕ
unfolding value value_or calculate_quote_total non_negative_integer
agreed_total submission = value submission "subtotal_cents" >>= λ subtotal.
    calculate_quote_total subtotal (value_or submission "delivery_fee_cents" (Value.int (pos 0)))
      (value_or submission "other_fee_cents" (Value.int (pos 0)))
    >>= λ calculated. value submission "total_cents" >>= λ total.
        non_negative_integer total >>= λ declared.
        if declared == calculated then pass calculated else fail ExecutionCode.quote_total_mismatch

unfoldable pub contamination_risks : Fields → Fields → List String
unfolding is_positive is_blank_value value_or
contamination_risks submission requirements =
    if is_positive (value_or requirements "gluten_free_count" (Value.int (pos 0)))
      && is_blank_value (value_or submission "cross_contamination_warning" Value.null)
    then "CROSS_CONTAMINATION_INFORMATION_MISSING" ∷ []
    else []

unfoldable pub plastic_check : Fields → Fields → Check
unfolding check value_or
plastic_check submission requirements =
    check
      (not (is_true (value_or requirements "no_single_use_plastic" Value.null))
        || is_true (value_or submission "no_single_use_plastic_confirmed" Value.null))
      "NO_SINGLE_USE_PLASTIC_REQUIREMENT_NOT_MET"

-- What is decided of a quote whose values are accepted: from the availability on.
unfoldable pub decide : Fields → Fields → ℕ → ℕ → Checked QuoteValidationResult
unfolding check both plastic_check contamination_risks distinct value_or validate_budget_limit
    validate_invoice_requirement validate_dietary_requirements
decide submission requirements total price = validate_budget_limit total requirements >>= λ budget.
    validate_invoice_requirement submission requirements >>= λ invoice.
    validate_dietary_requirements submission requirements >>= λ dietary.
    let available =
      check (is_true (value_or submission "availability_confirmed" (Value.bool false)))
        "AVAILABILITY_NOT_CONFIRMED" in
    let plastic = plastic_check submission requirements in
    pass record {
      total_cents = total;
      price_per_person_cents = price;
      eligible =
          available.passed
          && (budget.passed && (invoice.passed && (dietary.passed && plastic.passed)));
      risks = distinct (
          available.risks
          ++ (budget.risks
              ++ (invoice.risks
                  ++ (dietary.risks
                      ++ (contamination_risks submission requirements ++ plastic.risks)))));
    }

-- The fields are there, and the supplier's confirmation is `True` itself.
unfoldable pub require_complete : Fields → Checked (Unit {0})
unfolding validate_required_quote_fields require value_or
require_complete submission =
    require (is_empty (validate_required_quote_fields submission)) ExecutionCode.validation_error
    >> require (is_true (value_or submission "supplier_confirmation" (Value.bool false)))
        ExecutionCode.validation_error

unfoldable pub validate_quote_submission : Fields → Fields → Value → Checked QuoteValidationResult
unfolding require_complete value agreed_total decide validate_quote_expiration
    calculate_price_per_person
validate_quote_submission submission requirements now =
    require_complete submission
    >> (agreed_total submission >>= λ total. value submission "valid_until" >>= λ until.
        validate_quote_expiration until now
        >> (value requirements "people_count" >>= λ people.
            calculate_price_per_person total people >>= λ price.
            decide submission requirements total price))
