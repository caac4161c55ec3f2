-- ===== src/Domain/Procurement/Calls.antt =====
-- Histories of a procurement request: a client makes any calls in any order, and goes on after an
-- exception with the object as the call left it.
use hackathon_open_ai.Prelude.{Bool, true, false, List, [], ◌∷◌, String, ◌||◌}
use hackathon_open_ai.Value.{Value}
use hackathon_open_ai.Contracts.{ActorType}
use hackathon_open_ai.Domain.Procurement.Sourcing
use hackathon_open_ai.Domain.Procurement.Sourcing.{ProcurementMethod}
use hackathon_open_ai.Domain.Procurement.Commitment

-- A call of one of the public methods.
pub data Call : Type 0 where
  request_clarification : (missing_fields : List Value) → Call
  mark_ready : (provided_fields : List String) → Call
  start_sourcing : Call
  mark_no_eligible_suppliers : Call
  mark_rfq_active : (delivery_ack_id : Value) → Call
  begin_quote_review : (submission_id : Value) → Call
  mark_no_valid_quotes : Call
  start_negotiation : Call
  request_approval : (quote_id quote_version : Value) → Call
  record_human_approval :
      (approval_id : Value) (actor_type : ActorType) (actor_id quote_id quote_version : Value)
      → Call
  record_approval_rejected : (approval_id reason : Value) → Call
  record_award_sent : (award_id delivery_ack_id quote_id quote_version terms_hash : Value) → Call
  record_supplier_acceptance : (award_id submission_id terms_hash : Value) → Call
  record_supplier_decline : (award_id submission_id : Value) → Call
  mark_ready_for_contracting : (reservation_id confirmed_at : Value) → Call
  close : Call
  cancel : (actor_id reason : Value) → Call
  expire : (expired_at : Value) → Call

unfoldable pub run : Call → ProcurementMethod
run (Call.request_clarification fields) = Sourcing.request_clarification fields
run (Call.mark_ready fields) = Sourcing.mark_ready fields
run Call.start_sourcing = Sourcing.start_sourcing
run Call.mark_no_eligible_suppliers = Sourcing.mark_no_eligible_suppliers
run (Call.mark_rfq_active ack) = Sourcing.mark_rfq_active ack
run (Call.begin_quote_review submission) = Sourcing.begin_quote_review submission
run Call.mark_no_valid_quotes = Sourcing.mark_no_valid_quotes
run Call.start_negotiation = Sourcing.start_negotiation
run (Call.request_approval quote version) = Commitment.request_approval quote version
run (Call.record_human_approval apr kind actor quote version) =
    Commitment.record_human_approval apr kind actor quote version
run (Call.record_approval_rejected apr why) = Commitment.record_approval_rejected apr why
run (Call.record_award_sent award ack quote version hash) =
    Commitment.record_award_sent award ack quote version hash
run (Call.record_supplier_acceptance award submission hash) =
    Commitment.record_supplier_acceptance award submission hash
run (Call.record_supplier_decline award submission) =
    Commitment.record_supplier_decline award submission
run (Call.mark_ready_for_contracting reservation at) =
    Commitment.mark_ready_for_contracting reservation at
run Call.close = Commitment.close
run (Call.cancel actor why) = Sourcing.cancel actor why
run (Call.expire at) = Sourcing.expire at

-- Whether a call grants the approval on behalf of a human.
abbrev pub is_human_grant : Call → Bool
is_human_grant (Call.record_human_approval apr ActorType.human actor quote version) = true
is_human_grant _ = false

abbrev pub has_human_grant : List Call → Bool
has_human_grant [] = false
has_human_grant (call ∷ calls) = is_human_grant call || has_human_grant calls
