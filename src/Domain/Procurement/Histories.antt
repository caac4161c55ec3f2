-- ===== src/Domain/Procurement/Histories.antt =====
-- What every history of a procurement request keeps.
use hackathon_open_ai.Domain.Procurement.Facts.{
  ProcurementFacts, ProcurementRequest, procurement_request_class, no_facts, create,
}
use hackathon_open_ai.Prelude.{List, [], ◌≡◌, refl}
use hackathon_open_ai.Domain.Common.Lifecycle
use hackathon_open_ai.Domain.Common.Lifecycle.{Lifecycle, IsAtomic, IsSound, runs-IsSound}
use hackathon_open_ai.Value.{Value}
use hackathon_open_ai.Contracts.{ProcurementRequestState, procurement_request_state_enum}
use hackathon_open_ai.Domain.Common.{
  ok, OnOk, OnOk-bind, OnOk-eq, new_aggregate, require_prefixed_id, require_non_empty,
}
use hackathon_open_ai.Domain.Common.Outcomes.{Moves}
use hackathon_open_ai.Domain.Procurement.Route.{Step, Backing, successors}
use hackathon_open_ai.Domain.Procurement.Calls.{Call, run}
use hackathon_open_ai.Domain.Procurement.Moves.{
  request_clarification-Moves, mark_ready-Moves, start_sourcing-Moves,
  mark_no_eligible_suppliers-Moves, mark_rfq_active-Moves, begin_quote_review-Moves,
  mark_no_valid_quotes-Moves, start_negotiation-Moves, request_approval-Moves,
  record_human_approval-Moves, record_approval_rejected-Moves, record_award_sent-Moves,
  record_supplier_acceptance-Moves, record_supplier_decline-Moves, mark_ready_for_contracting-Moves,
  close-Moves, cancel-Moves, expire-Moves,
}

pub run-Moves : (call : Call) (self : ProcurementRequest) → Moves Step self (run call self)
unfolding run
run-Moves (Call.request_clarification fields) self = request_clarification-Moves self fields
run-Moves (Call.mark_ready fields) self = mark_ready-Moves self fields
run-Moves Call.start_sourcing self = start_sourcing-Moves self
run-Moves Call.mark_no_eligible_suppliers self = mark_no_eligible_suppliers-Moves self
run-Moves (Call.mark_rfq_active ack) self = mark_rfq_active-Moves self ack
run-Moves (Call.begin_quote_review submission) self = begin_quote_review-Moves self submission
run-Moves Call.mark_no_valid_quotes self = mark_no_valid_quotes-Moves self
run-Moves Call.start_negotiation self = start_negotiation-Moves self
run-Moves (Call.request_approval quote version) self = request_approval-Moves self quote version
run-Moves (Call.record_human_approval apr kind actor quote version) self =
    record_human_approval-Moves self apr kind actor quote version
run-Moves (Call.record_approval_rejected apr why) self = record_approval_rejected-Moves self apr why
run-Moves (Call.record_award_sent award ack quote version hash) self =
    record_award_sent-Moves self award ack quote version hash
run-Moves (Call.record_supplier_acceptance award submission hash) self =
    record_supplier_acceptance-Moves self award submission hash
run-Moves (Call.record_supplier_decline award submission) self =
    record_supplier_decline-Moves self award submission
run-Moves (Call.mark_ready_for_contracting reservation at) self =
    mark_ready_for_contracting-Moves self reservation at
run-Moves Call.close self = close-Moves self
run-Moves (Call.cancel actor why) self = cancel-Moves self actor why
run-Moves (Call.expire at) self = expire-Moves self at

abbrev pub procurement_request_lifecycle : Lifecycle ProcurementRequestState ProcurementFacts
procurement_request_lifecycle = record {
  class = procurement_request_class;
  Call = Call;
  run = run;
  successors = successors;
  Backing = Backing;
  run-Moves = run-Moves;
}

abbrev pub runs : List Call → ProcurementRequest → ProcurementRequest
runs = Lifecycle.runs procurement_request_lifecycle

-- A call that raises leaves the request exactly as it was, whichever check failed; one that returns
-- moves to a successor of the state, counts the version up by one, and keeps the id and the tenant.
pub request_call-IsAtomic :
    (call : Call) (self : ProcurementRequest)
    → IsAtomic procurement_request_lifecycle self (run call self)
request_call-IsAtomic = Lifecycle.run-IsAtomic procurement_request_lifecycle

-- A request in a state that leads nowhere is never changed again, whatever is called.
pub request_final_states_stay :
    (self : ProcurementRequest) (calls : List Call)
    → successors self.state ≡ []
    → runs calls self ≡ self
request_final_states_stay = Lifecycle.final_states_stay procurement_request_lifecycle

-- A created request is in the state DRAFT with no facts, and sound.
pub record IsFresh (self : ProcurementRequest) : Type 0 where
  pub sound : IsSound procurement_request_lifecycle self
  pub in_draft : self.state ≡ ProcurementRequestState.draft
  pub bare : self.facts ≡ no_facts

pub create-IsFresh : (request_id tenant_id : Value) → OnOk IsFresh (create request_id tenant_id)
unfolding create new_aggregate
create-IsFresh request_id tenant_id =
    OnOk-bind IsFresh (require_prefixed_id request_id "request_id" "pr_") _ λ id _.
      OnOk-bind IsFresh (require_non_empty tenant_id "tenant_id") _ λ tenant _. record {
        sound = record {
          audited = record { trail = (refl, refl, refl, refl, (refl, refl)) };
          backed = record { backing = tt };
        };
        in_draft = refl;
        bare = refl;
      }

pub request_history-IsSound :
    (request_id tenant_id : Value) (self : ProcurementRequest) (calls : List Call)
    → create request_id tenant_id ≡ ok self
    → IsSound procurement_request_lifecycle (runs calls self)
request_history-IsSound request_id tenant_id self calls e =
    runs-IsSound procurement_request_lifecycle calls self
      (OnOk-eq IsFresh _ self e (create-IsFresh request_id tenant_id)).sound
