-- ===== src/Domain/Procurement/Moves.antt =====
-- How each method of `ProcurementRequestAggregate` can end: it raises and changes nothing, or it
-- takes one step of the lifecycle and records it as one event.
use hackathon_open_ai.Prelude.{All-present, ℕ, ◌<◌, String, List, ◌≡◌, arith}
use hackathon_open_ai.Value.{Value}
use hackathon_open_ai.Contracts.{ActorType}
use hackathon_open_ai.Domain.Common.{require_positive_int, ok}
use hackathon_open_ai.Domain.Common.Outcomes.{Moves, moves_rules}
use hackathon_open_ai.Domain.Procurement.Facts.{ProcurementRequest, procurement_request_class}
use hackathon_open_ai.Domain.Procurement.Route.{Step}
use hackathon_open_ai.Domain.Procurement.Steps.{
  Step-to_needs_clarification, Step-to_sourcing, Step-to_no_eligible_suppliers, Step-to_rfq_active,
  Step-to_quotes_under_review, Step-to_no_valid_quotes, Step-to_negotiating,
  Step-to_approval_rejected, Step-to_supplier_declined_award, Step-to_closed, Step-to_cancelled,
  Step-to_expired, Step-to_ready, Step-to_awaiting_approval, Step-to_approved, Step-to_award_sent,
  Step-to_supplier_accepted, Step-to_ready_for_contracting,
}
use hackathon_open_ai.Domain.Procurement.Sourcing.{
  request_clarification, mark_ready, start_sourcing, mark_no_eligible_suppliers, mark_rfq_active,
  begin_quote_review, mark_no_valid_quotes, start_negotiation, cancel, expire,
}
use hackathon_open_ai.Domain.Procurement.Commitment.{
  request_approval, record_human_approval, record_approval_rejected, record_award_sent,
  record_supplier_acceptance, record_supplier_decline, mark_ready_for_contracting, close,
}

require_positive_int-pos :
    (v : Value) (field : String) (n : ℕ) → require_positive_int v field ≡ ok n → 0 < n
unfolding require_positive_int
require_positive_int-pos v field n h = ground arith

ruleset request_rules = (
  moves_rules, Step-to_needs_clarification, Step-to_sourcing, Step-to_no_eligible_suppliers,
  Step-to_rfq_active, Step-to_quotes_under_review, Step-to_no_valid_quotes, Step-to_negotiating,
  Step-to_approval_rejected, Step-to_supplier_declined_award, Step-to_closed, Step-to_cancelled,
  Step-to_expired, Step-to_ready, Step-to_awaiting_approval, Step-to_approved, Step-to_award_sent,
  Step-to_supplier_accepted, Step-to_ready_for_contracting, require_positive_int-pos, All-present,
)

module _ (self : ProcurementRequest) where
  pub request_clarification-Moves :
      (missing_fields : List Value) → Moves Step self (request_clarification missing_fields self)
  unfolding request_clarification
  request_clarification-Moves missing_fields = search request_rules depth 9

  pub mark_ready-Moves :
      (provided_fields : List String) → Moves Step self (mark_ready provided_fields self)
  unfolding mark_ready
  mark_ready-Moves provided_fields = search request_rules depth 9

  pub start_sourcing-Moves : Moves Step self (start_sourcing self)
  unfolding start_sourcing
  start_sourcing-Moves = search request_rules depth 9

  pub mark_no_eligible_suppliers-Moves : Moves Step self (mark_no_eligible_suppliers self)
  unfolding mark_no_eligible_suppliers
  mark_no_eligible_suppliers-Moves = search request_rules depth 9

  pub mark_rfq_active-Moves :
      (delivery_ack_id : Value) → Moves Step self (mark_rfq_active delivery_ack_id self)
  unfolding mark_rfq_active
  mark_rfq_active-Moves delivery_ack_id = search request_rules depth 9

  pub begin_quote_review-Moves :
      (submission_id : Value) → Moves Step self (begin_quote_review submission_id self)
  unfolding begin_quote_review
  begin_quote_review-Moves submission_id = search request_rules depth 9

  pub mark_no_valid_quotes-Moves : Moves Step self (mark_no_valid_quotes self)
  unfolding mark_no_valid_quotes
  mark_no_valid_quotes-Moves = search request_rules depth 9

  pub start_negotiation-Moves : Moves Step self (start_negotiation self)
  unfolding start_negotiation
  start_negotiation-Moves = search request_rules depth 9

  pub request_approval-Moves :
      (quote_id quote_version : Value)
      → Moves Step self (request_approval quote_id quote_version self)
  unfolding request_approval
  request_approval-Moves quote_id quote_version = search request_rules depth 9

  pub record_human_approval-Moves :
      (approval_id : Value) (actor_type : ActorType) (actor_id quote_id quote_version : Value)
      → Moves Step self
          (record_human_approval approval_id actor_type actor_id quote_id quote_version self)
  unfolding record_human_approval
  record_human_approval-Moves approval_id actor_type actor_id quote_id quote_version =
      search request_rules depth 9

  pub record_approval_rejected-Moves :
      (approval_id reason : Value)
      → Moves Step self (record_approval_rejected approval_id reason self)
  unfolding record_approval_rejected
  record_approval_rejected-Moves approval_id reason = search request_rules depth 9

  pub record_award_sent-Moves :
      (award_id delivery_ack_id quote_id quote_version terms_hash : Value)
      → Moves Step self
          (record_award_sent award_id delivery_ack_id quote_id quote_version terms_hash self)
  unfolding record_award_sent
  record_award_sent-Moves award_id delivery_ack_id quote_id quote_version terms_hash =
      search request_rules depth 9

  pub record_supplier_acceptance-Moves :
      (award_id submission_id terms_hash : Value)
      → Moves Step self (record_supplier_acceptance award_id submission_id terms_hash self)
  unfolding record_supplier_acceptance
  record_supplier_acceptance-Moves award_id submission_id terms_hash = search request_rules depth 9

  pub record_supplier_decline-Moves :
      (award_id submission_id : Value)
      → Moves Step self (record_supplier_decline award_id submission_id self)
  unfolding record_supplier_decline
  record_supplier_decline-Moves award_id submission_id = search request_rules depth 9

  pub mark_ready_for_contracting-Moves :
      (reservation_id confirmed_at : Value)
      → Moves Step self (mark_ready_for_contracting reservation_id confirmed_at self)
  unfolding mark_ready_for_contracting
  mark_ready_for_contracting-Moves reservation_id confirmed_at = search request_rules depth 9

  pub close-Moves : Moves Step self (close self)
  unfolding close
  close-Moves = search request_rules depth 9

  pub cancel-Moves : (actor_id reason : Value) → Moves Step self (cancel actor_id reason self)
  unfolding cancel
  cancel-Moves actor_id reason = search request_rules depth 9

  pub expire-Moves : (expired_at : Value) → Moves Step self (expire expired_at self)
  unfolding expire
  expire-Moves expired_at = search request_rules depth 9
