-- ===== src/Rfq/Attributes.antt =====
-- The attributes of the DTOs that modules/quotes and modules/comparison read by name.
use hackathon_open_ai.Prelude.{ℕ, pos, String, Option, none, some, List, [], ◌∷◌}
use hackathon_open_ai.Value.{Moment, Value, Values, Fields}
use hackathon_open_ai.Rfq.Contracts.{
  Requirements, Policy, Submission, Quote, dietary_text, quote_text,
}

unfoldable pub texts : List String → Values
texts [] = Values.nil
texts (s ∷ ss) = Values.cons (Value.text s) (texts ss)

abbrev pub number : ℕ → Value
number n = Value.int (pos n)

abbrev pub optional {ℓ} : {A : Type ℓ} → (A → Value) → Option A → Value
optional f none = Value.null
optional f (some a) = f a

unfoldable pub weights : List (String × ℕ) → Fields
weights [] = Fields.end
weights ((s, n) ∷ ws) = Fields.field s (number n) (weights ws)

-- The attributes that follow those given.
unfoldable pub with_fields : List (String × Value) → Fields → Fields
with_fields [] rest = rest
with_fields ((s, v) ∷ fs) rest = Fields.field s v (with_fields fs rest)

-- `policy.ranking_weights`, the one attribute of a policy that is read by name.
unfoldable pub policy_fields : Policy → Fields
unfolding weights
policy_fields p = Fields.field "ranking_weights" (Value.dict (weights p.ranking_weights)) Fields.end

unfoldable pub requirements_fields : Requirements → Fields
unfolding with_fields texts
requirements_fields r =
    with_fields
      (("people_count", number r.people_count)
        ∷ ("maximum_total_cents", optional number r.maximum_total_cents)
        ∷ ("vegetarian_count", number r.vegetarian_count)
        ∷ ("vegan_count", number r.vegan_count)
        ∷ ("gluten_free_count", number r.gluten_free_count)
        ∷ ("invoice_required", optional Value.bool r.invoice_required)
        ∷ ("no_single_use_plastic", optional Value.bool r.no_single_use_plastic)
        ∷ ("mandatory_requirements", Value.list (texts r.mandatory_requirements))
        ∷ [])
      Fields.end

unfoldable pub submission_onto : Submission → Fields → Fields
unfolding with_fields texts dietary_text
submission_onto s = with_fields (
    ("availability_confirmed", Value.bool s.availability_confirmed)
    ∷ ("subtotal_cents", number s.subtotal_cents)
    ∷ ("delivery_fee_cents", number s.delivery_fee_cents)
    ∷ ("other_fee_cents", number s.other_fee_cents)
    ∷ ("total_cents", number s.total_cents)
    ∷ ("included_items", Value.list (texts s.included_items))
    ∷ ("substitutions", Value.list (texts s.substitutions))
    ∷ ("invoice_available", optional Value.bool s.invoice_available)
    ∷ ("vegetarian_status", Value.text (dietary_text s.vegetarian_status))
    ∷ ("vegan_status", Value.text (dietary_text s.vegan_status))
    ∷ ("gluten_free_status", Value.text (dietary_text s.gluten_free_status))
    ∷ ("cross_contamination_warning", optional Value.text s.cross_contamination_warning)
    ∷ ("no_single_use_plastic_confirmed", optional Value.bool s.no_single_use_plastic_confirmed)
    ∷ ("valid_until", Value.datetime (Moment.aware s.valid_until))
    ∷ ("cancellation_terms", Value.text s.cancellation_terms)
    ∷ ("respondent_name", Value.text s.respondent_name)
    ∷ ("respondent_contact", Value.text s.respondent_contact)
    ∷ ("supplier_confirmation", Value.bool s.supplier_confirmation)
    ∷ ("sustainability_score", number s.sustainability_score)
    ∷ ("history_score", number s.history_score)
    ∷ ("response_time_minutes", number s.response_time_minutes)
    ∷ [])

unfoldable pub submission_fields : Submission → Fields
unfolding submission_onto
submission_fields s = submission_onto s Fields.end

unfoldable pub quote_fields : Quote → Fields
unfolding submission_onto with_fields texts quote_text
quote_fields q = submission_onto q.submission (
    with_fields
      (("quote_id", Value.text q.quote_id)
        ∷ ("quote_version", number q.quote_version)
        ∷ ("rfq_round_id", Value.text q.rfq_round_id)
        ∷ ("recipient_id", Value.text q.recipient_id)
        ∷ ("supplier_id", Value.text q.supplier_id)
        ∷ ("status", Value.text (quote_text q.status))
        ∷ ("price_per_person_cents", number q.price_per_person_cents)
        ∷ ("eligible", Value.bool q.eligible)
        ∷ ("validation_errors", Value.list (texts q.validation_errors))
        ∷ ("validation_warnings", Value.list (texts q.validation_warnings))
        ∷ ("submitted_at", Value.datetime (Moment.aware q.submitted_at))
        ∷ [])
      Fields.end)
