-- ===== src/Domain/Procurement/Route.antt =====
-- The lifecycle of a procurement request, stated by where each state leads and by what a request
-- must hold in it (the rules of canal_agente_implementation_plans/01, sections 5.2 and 5.3).
use hackathon_open_ai.Prelude.{true, List, [], ◌∷◌, ◌≡◌, All, member, IsPresent, IsPositive}
use hackathon_open_ai.Domain.Common.Lifecycle.{StepOf}
use hackathon_open_ai.Contracts.{ProcurementRequestState, procurement_request_state_enum}
use hackathon_open_ai.Domain.Procurement.Facts.{ProcurementFacts, required_procurement_fields}

-- Where each state leads.
abbrev pub successors : ProcurementRequestState → List ProcurementRequestState
successors ProcurementRequestState.draft =
    ProcurementRequestState.needs_clarification ∷ ProcurementRequestState.ready
    ∷ ProcurementRequestState.cancelled ∷ ProcurementRequestState.expired ∷ []
successors ProcurementRequestState.needs_clarification =
    ProcurementRequestState.ready ∷ ProcurementRequestState.cancelled
    ∷ ProcurementRequestState.expired ∷ []
successors ProcurementRequestState.ready =
    ProcurementRequestState.sourcing ∷ ProcurementRequestState.cancelled
    ∷ ProcurementRequestState.expired ∷ []
successors ProcurementRequestState.sourcing =
    ProcurementRequestState.rfq_active ∷ ProcurementRequestState.no_eligible_suppliers
    ∷ ProcurementRequestState.cancelled ∷ ProcurementRequestState.expired ∷ []
successors ProcurementRequestState.rfq_active =
    ProcurementRequestState.quotes_under_review ∷ ProcurementRequestState.no_valid_quotes
    ∷ ProcurementRequestState.cancelled ∷ ProcurementRequestState.expired ∷ []
successors ProcurementRequestState.quotes_under_review =
    ProcurementRequestState.negotiating ∷ ProcurementRequestState.awaiting_approval
    ∷ ProcurementRequestState.no_valid_quotes ∷ ProcurementRequestState.cancelled
    ∷ ProcurementRequestState.expired ∷ []
successors ProcurementRequestState.negotiating =
    ProcurementRequestState.awaiting_approval ∷ ProcurementRequestState.no_valid_quotes
    ∷ ProcurementRequestState.cancelled ∷ ProcurementRequestState.expired ∷ []
successors ProcurementRequestState.awaiting_approval =
    ProcurementRequestState.approved ∷ ProcurementRequestState.approval_rejected
    ∷ ProcurementRequestState.cancelled ∷ ProcurementRequestState.expired ∷ []
successors ProcurementRequestState.approved =
    ProcurementRequestState.award_sent ∷ ProcurementRequestState.cancelled
    ∷ ProcurementRequestState.expired ∷ []
successors ProcurementRequestState.award_sent =
    ProcurementRequestState.supplier_accepted ∷ ProcurementRequestState.supplier_declined_award ∷ []
successors ProcurementRequestState.supplier_accepted =
    ProcurementRequestState.ready_for_contracting ∷ []
successors ProcurementRequestState.ready_for_contracting = ProcurementRequestState.closed ∷ []
successors _ = []

-- Every required field was provided.
abbrev pub HasFields : ProcurementFacts → Type 0
HasFields f = All (λ s. member s f.provided_fields ≡ true) required_procurement_fields

-- A quote is selected, at a version of 1 or more.
abbrev pub HasQuote : ProcurementFacts → Type 0
HasQuote f = HasFields f × IsPresent f.selected_quote_id × IsPositive f.selected_quote_version

abbrev pub HasApproval : ProcurementFacts → Type 0
HasApproval f = HasQuote f × IsPresent f.approval_id

abbrev pub HasAward : ProcurementFacts → Type 0
HasAward f = HasApproval f × IsPresent f.award_id × IsPresent f.award_terms_hash

abbrev pub HasAcceptance : ProcurementFacts → Type 0
HasAcceptance f = HasAward f × IsPresent f.acceptance_submission_id

abbrev pub HasReservation : ProcurementFacts → Type 0
HasReservation f = HasAcceptance f × IsPresent f.reservation_id

-- What a request holds in each state. One that was cancelled or has expired may hold nothing.
abbrev pub Backing : ProcurementRequestState → ProcurementFacts → Type 0
Backing ProcurementRequestState.draft f = Unit
Backing ProcurementRequestState.needs_clarification f = Unit
Backing ProcurementRequestState.cancelled f = Unit
Backing ProcurementRequestState.expired f = Unit
Backing ProcurementRequestState.ready f = HasFields f
Backing ProcurementRequestState.sourcing f = HasFields f
Backing ProcurementRequestState.no_eligible_suppliers f = HasFields f
Backing ProcurementRequestState.rfq_active f = HasFields f
Backing ProcurementRequestState.quotes_under_review f = HasFields f
Backing ProcurementRequestState.negotiating f = HasFields f
Backing ProcurementRequestState.no_valid_quotes f = HasFields f
Backing ProcurementRequestState.awaiting_approval f = HasQuote f
Backing ProcurementRequestState.approval_rejected f = HasQuote f
Backing ProcurementRequestState.approved f = HasApproval f
Backing ProcurementRequestState.award_sent f = HasAward f
Backing ProcurementRequestState.supplier_declined_award f = HasAward f
Backing ProcurementRequestState.supplier_accepted f = HasAcceptance f
Backing ProcurementRequestState.ready_for_contracting f = HasReservation f
Backing ProcurementRequestState.closed f = HasReservation f

-- A step along the lifecycle that keeps what the states demand.
abbrev pub Step :
    ProcurementRequestState → ProcurementFacts → ProcurementRequestState → ProcurementFacts → Type 0
Step = StepOf procurement_request_state_enum successors Backing
