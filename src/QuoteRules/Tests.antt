-- ===== src/QuoteRules/Tests.antt =====
-- Runs of modules/quotes/rules.py on a quote for forty people.
use hackathon_open_ai.Prelude.{ℕ, pos, true, false, ◌≡◌, refl, [], ◌∷◌, ◌↔◌}
use hackathon_open_ai.Value.{Value, Values, Fields, Moment}
use hackathon_open_ai.Shared.{pass, fail, ExecutionCode}
use hackathon_open_ai.QuoteRules.Submission.{QuoteValidationResult, validate_quote_submission}
use hackathon_open_ai.QuoteRules.Accepted.{Accepted, quote-Accepted}
use hackathon_open_ai.QuoteRules.Eligible.{Meets, Explains}
use hackathon_open_ai.QuoteRules.Decision.{eligible_iff}

-- A submission that declares `total`.
abbrev submission : ℕ → Fields
submission total = Fields.field "availability_confirmed" (Value.bool true) (
    Fields.field "subtotal_cents" (Value.int (pos 100000)) (
      Fields.field "delivery_fee_cents" (Value.int (pos 5000)) (
        Fields.field "other_fee_cents" (Value.int (pos 10)) (
          Fields.field "total_cents" (Value.int (pos total)) (
            Fields.field "included_items" (Value.list (Values.cons (Value.text "lunch") Values.nil))
              (Fields.field "invoice_available" (Value.bool true) (
                Fields.field "vegetarian_status" (Value.text " Confirmed ") (
                  Fields.field "vegan_status" (Value.text "unknown") (
                    Fields.field "gluten_free_status" (Value.text "partial") (
                      Fields.field "valid_until" (Value.datetime (Moment.aware 900)) (
                        Fields.field "supplier_confirmation" (Value.bool true) (
                          Fields.field "respondent_name" (Value.text "Ana") (
                            Fields.field "respondent_contact" (Value.text "ana@example.com") (
                              Fields.field "cancellation_terms" (Value.text "none")
                                Fields.end))))))))))))))

abbrev requirements : ℕ → Fields
requirements maximum = Fields.field "people_count" (Value.int (pos 40)) (
    Fields.field "maximum_total_cents" (Value.int (pos maximum)) (
      Fields.field "invoice_required" (Value.bool true)
        (Fields.field "vegetarian_count" (Value.int (pos 3)) Fields.end)))

abbrev now : Value
now = Value.datetime (Moment.aware 800)

abbrev result : QuoteValidationResult
result = record { total_cents = 105010; price_per_person_cents = 2625; eligible = true; risks = [] }

runs : validate_quote_submission (submission 105010) (requirements 200000) now ≡ pass result
unfolding validate_quote_submission
runs = refl

mismatch :
    validate_quote_submission (submission 105000) (requirements 200000) now
    ≡ fail ExecutionCode.quote_total_mismatch
unfolding validate_quote_submission
mismatch = refl

over_budget :
    validate_quote_submission (submission 105010) (requirements 100000) now
    ≡ pass record {
      total_cents = 105010;
      price_per_person_cents = 2625;
      eligible = false;
      risks = "BUDGET_LIMIT_EXCEEDED" ∷ [];
    }
unfolding validate_quote_submission
over_budget = refl

quote-Accepted_example : Accepted (submission 105010) (requirements 200000) now result
quote-Accepted_example = quote-Accepted (submission 105010) (requirements 200000) now result runs

abbrev rejected : QuoteValidationResult
rejected = record result { eligible = false; risks = "BUDGET_LIMIT_EXCEEDED" ∷ [] }

eligible_iff_example :
    ((rejected.eligible ≡ true) ↔ Meets (submission 105010) (requirements 100000) 105010)
    × Explains (submission 105010) (requirements 100000) 105010 ("BUDGET_LIMIT_EXCEEDED" ∷ [])
eligible_iff_example =
    eligible_iff (submission 105010) (requirements 100000) now rejected over_budget
