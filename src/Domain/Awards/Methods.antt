-- ===== src/Domain/Awards/Methods.antt =====
-- domain/awards/aggregate.py: the methods of `AwardAggregate` that change it.
use hackathon_open_ai.Prelude.{ℕ, String, some, [], ◌∷◌}
use hackathon_open_ai.Value.{Value}
use hackathon_open_ai.Contracts.{ErrorCode, AwardStatus as State}
use hackathon_open_ai.Domain.Common.{domain_error, require_utc}
use hackathon_open_ai.Domain.Common.Methods.{
  Method, lift, gets, raise_if, assign, ◌>>=◌, ◌>>◌, require_state, transition,
}
use hackathon_open_ai.Domain.Awards.Facts.{
  AwardFacts, award_class, require_ack, validated_response, is_not_true, require_terms,
}

abbrev pub AwardMethod : Type 0
AwardMethod = Method State AwardFacts (Unit {0})

unfoldable pub confirm_delivery : Value → Value → AwardMethod
confirm_delivery delivery_ack_id sent_at = do
  require_state (State.created ∷ []) State.sent
  ack ← lift (require_ack delivery_ack_id)
  instant ← lift (require_utc sent_at "sent_at")
  assign (λ self. record self { delivery_ack_id = some ack; sent_at = some instant })
  transition (State.created ∷ []) State.sent "AWARD_DELIVERY_CONFIRMED"
      (("delivery_ack_id", Value.text ack) ∷ ("sent_at", Value.iso instant) ∷ [])

-- `_record_response`
abbrev pub record_response : String × String × ℕ → AwardFacts → AwardFacts
record_response response self = record self {
  response_submission_id = some response.0;
  respondent_id = some response.1;
  responded_at = some response.2;
}

unfoldable pub accept : Value → Value → Value → Value → Value → AwardMethod
accept submission_id respondent_id submitted_at displayed_terms_hash explicit_confirmation = do
  require_state (State.sent ∷ []) State.accepted
  response ← lift (validated_response submission_id respondent_id submitted_at)
  raise_if (is_not_true explicit_confirmation)
      (domain_error ErrorCode.validation_error "Award acceptance requires explicit confirmation")
  self ← gets (λ self. self.facts)
  _ ← lift (require_terms displayed_terms_hash self.terms_hash)
  assign (record_response response)
  transition (State.sent ∷ []) State.accepted "SUPPLIER_ACCEPTED_AWARD" (
      ("submission_id", Value.text response.0)
      ∷ ("respondent_id", Value.text response.1)
      ∷ ("submitted_at", Value.iso response.2)
      ∷ ("terms_hash", Value.text self.terms_hash)
      ∷ [])

unfoldable pub decline : Value → Value → Value → AwardMethod
decline submission_id respondent_id submitted_at = do
  require_state (State.sent ∷ []) State.declined
  response ← lift (validated_response submission_id respondent_id submitted_at)
  assign (record_response response)
  transition (State.sent ∷ []) State.declined "SUPPLIER_DECLINED_AWARD" (
      ("submission_id", Value.text response.0)
      ∷ ("respondent_id", Value.text response.1)
      ∷ ("submitted_at", Value.iso response.2)
      ∷ [])
