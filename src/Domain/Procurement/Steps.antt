-- ===== src/Domain/Procurement/Steps.antt =====
-- Each transition of a procurement request is a step of its lifecycle: from a state that the code's
-- test lets through, the state that it assigns is a successor, and holds what it must.
use hackathon_open_ai.Prelude.{ℕ, ◌<◌, String, true, List, [], ◌∷◌, some, ◌≡◌, arith, All, member}
use hackathon_open_ai.Contracts.{
  contains, ProcurementRequestState as State, procurement_request_state_enum,
  procurement_request_state_index,
}
use hackathon_open_ai.Domain.Procurement.Facts.{
  ProcurementFacts, pre_commit_states, required_procurement_fields,
}
use hackathon_open_ai.Domain.Procurement.Route.{Step}

-- The test of `_require_state` passed.
abbrev pub Allowed : List State → State → Type 0
Allowed allowed s = contains ⦃e = procurement_request_state_enum⦄ allowed s ≡ true

module _ (s : State) (f : ProcurementFacts) where
  pub Step-to_needs_clarification :
      Allowed (State.draft ∷ []) s → Step s f State.needs_clarification f
  unfolding contains procurement_request_state_index
  Step-to_needs_clarification h = ground arith

  pub Step-to_sourcing : Allowed (State.ready ∷ []) s → Step s f State.sourcing f
  unfolding contains procurement_request_state_index
  Step-to_sourcing h = ground arith

  pub Step-to_no_eligible_suppliers :
      Allowed (State.sourcing ∷ []) s → Step s f State.no_eligible_suppliers f
  unfolding contains procurement_request_state_index
  Step-to_no_eligible_suppliers h = ground arith

  pub Step-to_rfq_active : Allowed (State.sourcing ∷ []) s → Step s f State.rfq_active f
  unfolding contains procurement_request_state_index
  Step-to_rfq_active h = ground arith

  pub Step-to_quotes_under_review :
      Allowed (State.rfq_active ∷ []) s → Step s f State.quotes_under_review f
  unfolding contains procurement_request_state_index
  Step-to_quotes_under_review h = ground arith

  pub Step-to_no_valid_quotes :
      Allowed (State.rfq_active ∷ State.quotes_under_review ∷ State.negotiating ∷ []) s
      → Step s f State.no_valid_quotes f
  unfolding contains procurement_request_state_index
  Step-to_no_valid_quotes h = ground arith

  pub Step-to_negotiating :
      Allowed (State.quotes_under_review ∷ []) s → Step s f State.negotiating f
  unfolding contains procurement_request_state_index
  Step-to_negotiating h = ground arith

  pub Step-to_approval_rejected :
      Allowed (State.awaiting_approval ∷ []) s → Step s f State.approval_rejected f
  unfolding contains procurement_request_state_index
  Step-to_approval_rejected h = ground arith

  pub Step-to_supplier_declined_award :
      Allowed (State.award_sent ∷ []) s → Step s f State.supplier_declined_award f
  unfolding contains procurement_request_state_index
  Step-to_supplier_declined_award h = ground arith

  pub Step-to_closed : Allowed (State.ready_for_contracting ∷ []) s → Step s f State.closed f
  unfolding contains procurement_request_state_index
  Step-to_closed h = ground arith

  pub Step-to_cancelled : Allowed pre_commit_states s → Step s f State.cancelled f
  unfolding contains procurement_request_state_index
  Step-to_cancelled h = ground arith

  pub Step-to_expired : Allowed pre_commit_states s → Step s f State.expired f
  unfolding contains procurement_request_state_index
  Step-to_expired h = ground arith

  pub Step-to_ready :
      (fields : List String)
      → All (λ s. member s fields ≡ true) required_procurement_fields
      → Allowed (State.draft ∷ State.needs_clarification ∷ []) s
      → Step s f State.ready (record f { provided_fields = fields })
  unfolding contains procurement_request_state_index
  Step-to_ready fields has h = ground arith

  pub Step-to_awaiting_approval :
      (id : String) (n : ℕ)
      → 0 < n
      → Allowed (State.quotes_under_review ∷ State.negotiating ∷ []) s
      → Step s f State.awaiting_approval
          (record f { selected_quote_id = some id; selected_quote_version = some n })
  unfolding contains procurement_request_state_index
  Step-to_awaiting_approval id n p h = ground arith

  pub Step-to_approved :
      (id : String)
      → Allowed (State.awaiting_approval ∷ []) s
      → Step s f State.approved (record f { approval_id = some id })
  unfolding contains procurement_request_state_index
  Step-to_approved id h = ground arith

  pub Step-to_award_sent :
      (id hash : String)
      → Allowed (State.approved ∷ []) s
      → Step s f State.award_sent (record f { award_id = some id; award_terms_hash = some hash })
  unfolding contains procurement_request_state_index
  Step-to_award_sent id hash h = ground arith

  pub Step-to_supplier_accepted :
      (id : String)
      → Allowed (State.award_sent ∷ []) s
      → Step s f State.supplier_accepted (record f { acceptance_submission_id = some id })
  unfolding contains procurement_request_state_index
  Step-to_supplier_accepted id h = ground arith

  pub Step-to_ready_for_contracting :
      (id : String)
      → Allowed (State.supplier_accepted ∷ []) s
      → Step s f State.ready_for_contracting (record f { reservation_id = some id })
  unfolding contains procurement_request_state_index
  Step-to_ready_for_contracting id h = ground arith
