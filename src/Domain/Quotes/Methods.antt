-- ===== src/Domain/Quotes/Methods.antt =====
-- domain/quotes/aggregate.py: the methods of `QuoteAggregate` that change it.
use hackathon_open_ai.Prelude.{pos, some, [], ◌∷◌}
use hackathon_open_ai.Value.{Value}
use hackathon_open_ai.Contracts.{QuoteState as State}
use hackathon_open_ai.Domain.Common.{require_non_empty, require_utc}
use hackathon_open_ai.Domain.Common.Methods.{
  Method, lift, gets, assign, ◌>>=◌, ◌>>◌, require_state, transition,
}
use hackathon_open_ai.Domain.Quotes.Facts.{
  QuoteFacts, quote_class, ValidationInput, validated_facts,
}

abbrev pub QuoteMethod : Type 0
QuoteMethod = Method State QuoteFacts (Unit {0})

unfoldable pub record_opened : Value → QuoteMethod
record_opened open_event_id = do
  require_state (State.requested ∷ []) State.opened
  id ← lift (require_non_empty open_event_id "open_event_id")
  assign (λ self. record self { open_event_id = some id })
  transition (State.requested ∷ []) State.opened "RFQ_OPENED"
      (("open_event_id", Value.text id) ∷ [])

unfoldable pub save_draft : QuoteMethod
save_draft = transition (State.opened ∷ []) State.draft_response "QUOTE_DRAFT_SAVED" []

unfoldable pub submit : Value → Value → QuoteMethod
submit submission_id respondent_id = do
  require_state (State.draft_response ∷ []) State.submitted
  submission ← lift (require_non_empty submission_id "submission_id")
  respondent ← lift (require_non_empty respondent_id "respondent_id")
  assign (λ self. record self { submission_id = some submission; respondent_id = some respondent })
  transition (State.draft_response ∷ []) State.submitted "QUOTE_SUBMITTED"
      (("submission_id", Value.text submission) ∷ ("respondent_id", Value.text respondent) ∷ [])

unfoldable pub start_validation : QuoteMethod
start_validation = transition (State.submitted ∷ []) State.validating "QUOTE_VALIDATION_STARTED" []

unfoldable pub request_clarification : Value → QuoteMethod
request_clarification reason = do
  require_state (State.validating ∷ []) State.needs_clarification
  why ← lift (require_non_empty reason "reason")
  transition (State.validating ∷ []) State.needs_clarification "QUOTE_NEEDS_CLARIFICATION"
      (("reason", Value.text why) ∷ [])

unfoldable pub record_clarification : Value → QuoteMethod
record_clarification submission_id = do
  require_state (State.needs_clarification ∷ []) State.validating
  submission ← lift (require_non_empty submission_id "submission_id")
  assign (λ self. record self { submission_id = some submission })
  transition (State.needs_clarification ∷ []) State.validating "QUOTE_CLARIFICATION_SUBMITTED"
      (("submission_id", Value.text submission) ∷ [])

unfoldable pub mark_valid : ValidationInput → QuoteMethod
mark_valid input = do
  require_state (State.validating ∷ []) State.valid
  self ← gets (λ self. self.facts)
  facts ← lift (validated_facts self input)
  assign (λ self. record self { validation_facts = some facts })
  transition (State.validating ∷ []) State.valid "QUOTE_VALIDATED" (
      ("total_cents", Value.int (pos facts.total.cents))
      ∷ ("availability", Value.bool facts.availability)
      ∷ ("valid_until", Value.iso facts.valid_until)
      ∷ ("respondent_id", Value.text facts.respondent_id)
      ∷ [])

unfoldable pub start_negotiation : QuoteMethod
start_negotiation = transition (State.valid ∷ []) State.negotiating "NEGOTIATION_ROUND_CREATED" []

unfoldable pub finalize : QuoteMethod
finalize = transition (State.valid ∷ State.negotiating ∷ []) State.final "QUOTE_FINALIZED" []

unfoldable pub select : QuoteMethod
select = transition (State.final ∷ []) State.selected "QUOTE_SELECTED" []

unfoldable pub reject : QuoteMethod
reject = transition (State.final ∷ []) State.rejected "QUOTE_REJECTED" []

unfoldable pub expire : Value → QuoteMethod
expire expired_at = do
  require_state (State.final ∷ []) State.expired
  instant ← lift (require_utc expired_at "expired_at")
  transition (State.final ∷ []) State.expired "QUOTE_EXPIRED"
      (("expired_at", Value.iso instant) ∷ [])
