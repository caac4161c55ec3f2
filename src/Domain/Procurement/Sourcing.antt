-- ===== src/Domain/Procurement/Sourcing.antt =====
-- domain/procurement/aggregate.py: the methods of `ProcurementRequestAggregate` up to the choice of
-- a quote, and the two that end a request early.
use hackathon_open_ai.Prelude.{String, not, List, [], ◌∷◌, sorted_set, difference, is_empty}
use hackathon_open_ai.Value.{Value}
use hackathon_open_ai.Contracts.{ErrorCode, ProcurementRequestState as State}
use hackathon_open_ai.Domain.Common.{
  domain_error, require_non_empty, require_utc, require_each, texts,
}
use hackathon_open_ai.Domain.Common.Methods.{
  Method, lift, raise_if, assign, ◌>>=◌, ◌>>◌, require_state, transition,
}
use hackathon_open_ai.Domain.Procurement.Facts.{
  ProcurementFacts, procurement_request_class, required_procurement_fields, pre_commit_states,
  require_delivery_ack,
}

abbrev pub ProcurementMethod : Type 0
ProcurementMethod = Method State ProcurementFacts (Unit {0})

unfoldable pub request_clarification : List Value → ProcurementMethod
request_clarification missing_fields = do
  require_state (State.draft ∷ []) State.needs_clarification
  fields ← lift (require_each missing_fields "missing_fields")
  raise_if (is_empty (sorted_set fields))
      (domain_error ErrorCode.validation_error "Clarification requires at least one missing field")
  transition (State.draft ∷ []) State.needs_clarification "PROCUREMENT_CLARIFICATION_REQUESTED"
      (("missing_fields", Value.list (texts (sorted_set fields))) ∷ [])

unfoldable pub mark_ready : List String → ProcurementMethod
mark_ready provided_fields = do
  require_state (State.draft ∷ State.needs_clarification ∷ []) State.ready
  raise_if (not (is_empty (difference required_procurement_fields (sorted_set provided_fields))))
      (domain_error ErrorCode.validation_error "Procurement request has missing required fields")
  assign (λ self. record self { provided_fields = sorted_set provided_fields })
  transition (State.draft ∷ State.needs_clarification ∷ []) State.ready "PROCUREMENT_READY"
      (("provided_fields", Value.list (texts (sorted_set provided_fields))) ∷ [])

unfoldable pub start_sourcing : ProcurementMethod
start_sourcing = transition (State.ready ∷ []) State.sourcing "SOURCING_STARTED" []

unfoldable pub mark_no_eligible_suppliers : ProcurementMethod
mark_no_eligible_suppliers =
    transition (State.sourcing ∷ []) State.no_eligible_suppliers "NO_ELIGIBLE_SUPPLIERS" []

unfoldable pub mark_rfq_active : Value → ProcurementMethod
mark_rfq_active delivery_ack_id = do
  require_state (State.sourcing ∷ []) State.rfq_active
  ack ← lift (require_delivery_ack delivery_ack_id)
  transition (State.sourcing ∷ []) State.rfq_active "RFQ_DELIVERY_CONFIRMED"
      (("delivery_ack_id", Value.text ack) ∷ [])

unfoldable pub begin_quote_review : Value → ProcurementMethod
begin_quote_review submission_id = do
  require_state (State.rfq_active ∷ []) State.quotes_under_review
  submission ← lift (require_non_empty submission_id "submission_id")
  transition (State.rfq_active ∷ []) State.quotes_under_review "QUOTE_SUBMITTED"
      (("submission_id", Value.text submission) ∷ [])

unfoldable pub mark_no_valid_quotes : ProcurementMethod
mark_no_valid_quotes =
    transition (State.rfq_active ∷ State.quotes_under_review ∷ State.negotiating ∷ [])
      State.no_valid_quotes "NO_VALID_QUOTES" []

unfoldable pub start_negotiation : ProcurementMethod
start_negotiation =
    transition (State.quotes_under_review ∷ []) State.negotiating "NEGOTIATION_ROUND_CREATED" []

unfoldable pub cancel : Value → Value → ProcurementMethod
cancel actor_id reason = do
  require_state pre_commit_states State.cancelled
  actor ← lift (require_non_empty actor_id "actor_id")
  why ← lift (require_non_empty reason "reason")
  transition pre_commit_states State.cancelled "PROCUREMENT_CANCELLED"
      (("actor_id", Value.text actor) ∷ ("reason", Value.text why) ∷ [])

unfoldable pub expire : Value → ProcurementMethod
expire expired_at = do
  require_state pre_commit_states State.expired
  instant ← lift (require_utc expired_at "expired_at")
  transition pre_commit_states State.expired "PROCUREMENT_EXPIRED"
      (("expired_at", Value.iso instant) ∷ [])
