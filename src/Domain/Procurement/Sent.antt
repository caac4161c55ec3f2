-- ===== src/Domain/Procurement/Sent.antt =====
-- domain/procurement/aggregate.py: an award that is sent is never taken back.
use hackathon_open_ai.Prelude.{Bool, true, false, List, [], ◌∷◌, ◌≡◌, arith, inl, inr}
use hackathon_open_ai.Contracts.{
  contains, ProcurementRequestState, procurement_request_state_enum,
  procurement_request_state_index,
}
use hackathon_open_ai.Domain.Procurement.Facts.{ProcurementRequest}
use hackathon_open_ai.Domain.Procurement.Route.{successors}
use hackathon_open_ai.Domain.Procurement.Calls.{Call, run}
use hackathon_open_ai.Domain.Procurement.Histories.{request_call-IsAtomic, runs}

-- The award went out to the supplier.
abbrev pub is_sent : ProcurementRequestState → Bool
is_sent ProcurementRequestState.award_sent = true
is_sent ProcurementRequestState.supplier_accepted = true
is_sent ProcurementRequestState.supplier_declined_award = true
is_sent ProcurementRequestState.ready_for_contracting = true
is_sent ProcurementRequestState.closed = true
is_sent _ = false

sent_leads :
    (s s' : ProcurementRequestState)
    → is_sent s ≡ true
    → contains ⦃e = procurement_request_state_enum⦄ (successors s) s' ≡ true
    → is_sent s' ≡ true
unfolding contains procurement_request_state_index
sent_leads s s' h c = ground arith

-- A call on a request whose award is sent leaves it so.
call_stays_sent :
    (call : Call) (self : ProcurementRequest)
    → is_sent self.state ≡ true
    → is_sent (run call self).1.state ≡ true
call_stays_sent call self h = elim (request_call-IsAtomic call self) [
  | inl (e, same) ↦ rw same h
  | inr (done, way, version, id, tenant) ↦ sent_leads self.state _ h way
]

-- Once the award of a request is sent, whatever is called in whatever order, the request stays in one
-- of the states AWARD_SENT, SUPPLIER_ACCEPTED, SUPPLIER_DECLINED_AWARD, READY_FOR_CONTRACTING and
-- CLOSED: it is never cancelled and never expires.
pub sent_stays_sent :
    (self : ProcurementRequest) (calls : List Call)
    → is_sent self.state ≡ true
    → is_sent (runs calls self).state ≡ true
sent_stays_sent self [] h = h
sent_stays_sent self (call ∷ calls) h =
    sent_stays_sent (run call self).1 calls (call_stays_sent call self h)
