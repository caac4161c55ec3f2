-- ===== src/Domain/Procurement/Commitment.antt =====
-- domain/procurement/aggregate.py: the methods of `ProcurementRequestAggregate` from the request for
-- approval on.
use hackathon_open_ai.Prelude.{pos, Bool, true, false, [], ◌∷◌, not, some}
use hackathon_open_ai.Value.{Value}
use hackathon_open_ai.Contracts.{ErrorCode, ActorType, ProcurementRequestState as State}
use hackathon_open_ai.Domain.Common.{
  domain_error, require_prefixed_id, require_non_empty, require_positive_int, require_utc, is_text,
}
use hackathon_open_ai.Domain.Common.Methods.{
  lift, gets, raise_if, assign, ◌>>=◌, ◌>>◌, require_state, transition,
}
use hackathon_open_ai.Domain.Procurement.Facts.{
  procurement_request_class, require_selected_quote, require_matching_award, require_delivery_ack,
}
use hackathon_open_ai.Domain.Procurement.Sourcing.{ProcurementMethod}

-- `actor_type is not ActorType.HUMAN`
abbrev pub is_not_human : ActorType → Bool
is_not_human ActorType.human = false
is_not_human _ = true

unfoldable pub request_approval : Value → Value → ProcurementMethod
request_approval quote_id quote_version = do
  require_state (State.quotes_under_review ∷ State.negotiating ∷ []) State.awaiting_approval
  id ← lift (require_prefixed_id quote_id "quote_id" "quo_")
  version ← lift (require_positive_int quote_version "quote_version")
  assign
      (λ self. record self { selected_quote_id = some id; selected_quote_version = some version })
  transition (State.quotes_under_review ∷ State.negotiating ∷ []) State.awaiting_approval
      "APPROVAL_REQUESTED"
      (("quote_id", Value.text id) ∷ ("quote_version", Value.int (pos version)) ∷ [])

unfoldable pub record_human_approval : Value → ActorType → Value → Value → Value → ProcurementMethod
record_human_approval approval_id actor_type actor_id quote_id quote_version = do
  require_state (State.awaiting_approval ∷ []) State.approved
  raise_if (is_not_human actor_type)
      (domain_error ErrorCode.policy_denied "Only a human approval can approve procurement spend")
  actor ← lift (require_non_empty actor_id "actor_id")
  approval ← lift (require_prefixed_id approval_id "approval_id" "apr_")
  self ← gets (λ self. self.facts)
  quote ← lift (require_selected_quote self quote_id quote_version)
  assign (λ self. record self { approval_id = some approval })
  transition (State.awaiting_approval ∷ []) State.approved "APPROVAL_GRANTED" (
      ("approval_id", Value.text approval)
      ∷ ("actor_id", Value.text actor)
      ∷ ("quote_id", Value.text quote.0)
      ∷ ("quote_version", Value.int (pos quote.1))
      ∷ [])

unfoldable pub record_approval_rejected : Value → Value → ProcurementMethod
record_approval_rejected approval_id reason = do
  require_state (State.awaiting_approval ∷ []) State.approval_rejected
  approval ← lift (require_prefixed_id approval_id "approval_id" "apr_")
  why ← lift (require_non_empty reason "reason")
  transition (State.awaiting_approval ∷ []) State.approval_rejected "APPROVAL_REJECTED"
      (("approval_id", Value.text approval) ∷ ("reason", Value.text why) ∷ [])

unfoldable pub record_award_sent : Value → Value → Value → Value → Value → ProcurementMethod
record_award_sent award_id delivery_ack_id quote_id quote_version terms_hash = do
  require_state (State.approved ∷ []) State.award_sent
  award ← lift (require_prefixed_id award_id "award_id" "awd_")
  ack ← lift (require_delivery_ack delivery_ack_id)
  hash ← lift (require_non_empty terms_hash "terms_hash")
  self ← gets (λ self. self.facts)
  quote ← lift (require_selected_quote self quote_id quote_version)
  assign (λ self. record self { award_id = some award; award_terms_hash = some hash })
  transition (State.approved ∷ []) State.award_sent "AWARD_DELIVERY_CONFIRMED" (
      ("award_id", Value.text award)
      ∷ ("delivery_ack_id", Value.text ack)
      ∷ ("quote_id", Value.text quote.0)
      ∷ ("quote_version", Value.int (pos quote.1))
      ∷ ("terms_hash", Value.text hash)
      ∷ [])

unfoldable pub record_supplier_acceptance : Value → Value → Value → ProcurementMethod
record_supplier_acceptance award_id submission_id terms_hash = do
  require_state (State.award_sent ∷ []) State.supplier_accepted
  submission ← lift (require_non_empty submission_id "submission_id")
  self ← gets (λ self. self.facts)
  award ← lift (require_matching_award self award_id terms_hash)
  assign (λ self. record self { acceptance_submission_id = some submission })
  transition (State.award_sent ∷ []) State.supplier_accepted "SUPPLIER_ACCEPTED_AWARD" (
      ("award_id", Value.text award.0)
      ∷ ("submission_id", Value.text submission)
      ∷ ("terms_hash", Value.text award.1)
      ∷ [])

unfoldable pub record_supplier_decline : Value → Value → ProcurementMethod
record_supplier_decline award_id submission_id = do
  require_state (State.award_sent ∷ []) State.supplier_declined_award
  award ← lift (require_prefixed_id award_id "award_id" "awd_")
  submission ← lift (require_non_empty submission_id "submission_id")
  self ← gets (λ self. self.facts)
  raise_if (not (is_text self.award_id award))
      (domain_error ErrorCode.conflict "Supplier response references a different award")
  transition (State.award_sent ∷ []) State.supplier_declined_award "SUPPLIER_DECLINED_AWARD"
      (("award_id", Value.text award) ∷ ("submission_id", Value.text submission) ∷ [])

unfoldable pub mark_ready_for_contracting : Value → Value → ProcurementMethod
mark_ready_for_contracting reservation_id confirmed_at = do
  require_state (State.supplier_accepted ∷ []) State.ready_for_contracting
  reservation ← lift (require_non_empty reservation_id "reservation_id")
  instant ← lift (require_utc confirmed_at "confirmed_at")
  assign (λ self. record self { reservation_id = some reservation })
  transition (State.supplier_accepted ∷ []) State.ready_for_contracting
      "PROCUREMENT_READY_FOR_CONTRACTING"
      (("reservation_id", Value.text reservation) ∷ ("confirmed_at", Value.iso instant) ∷ [])

unfoldable pub close : ProcurementMethod
close = transition (State.ready_for_contracting ∷ []) State.closed "PROCUREMENT_CLOSED" []
