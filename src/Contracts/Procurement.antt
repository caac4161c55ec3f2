-- ===== src/Contracts/Procurement.antt =====
-- contracts/common.py: `ProcurementRequestState`, with the numbering of the members and its inverse.
use hackathon_open_ai.Prelude.{ℕ, zero, suc, String, Option, none, some, ◌≡◌, refl}
use hackathon_open_ai.Contracts.Enums.{StrEnum, injective_of_inverse}

pub data ProcurementRequestState : Type 0 where
  draft needs_clarification ready sourcing : ProcurementRequestState
  rfq_active quotes_under_review negotiating awaiting_approval : ProcurementRequestState
  approved award_sent supplier_accepted ready_for_contracting : ProcurementRequestState
  closed cancelled no_eligible_suppliers no_valid_quotes : ProcurementRequestState
  approval_rejected supplier_declined_award expired : ProcurementRequestState

unfoldable pub procurement_request_state_value : ProcurementRequestState → String
procurement_request_state_value ProcurementRequestState.draft = "DRAFT"
procurement_request_state_value ProcurementRequestState.needs_clarification = "NEEDS_CLARIFICATION"
procurement_request_state_value ProcurementRequestState.ready = "READY"
procurement_request_state_value ProcurementRequestState.sourcing = "SOURCING"
procurement_request_state_value ProcurementRequestState.rfq_active = "RFQ_ACTIVE"
procurement_request_state_value ProcurementRequestState.quotes_under_review = "QUOTES_UNDER_REVIEW"
procurement_request_state_value ProcurementRequestState.negotiating = "NEGOTIATING"
procurement_request_state_value ProcurementRequestState.awaiting_approval = "AWAITING_APPROVAL"
procurement_request_state_value ProcurementRequestState.approved = "APPROVED"
procurement_request_state_value ProcurementRequestState.award_sent = "AWARD_SENT"
procurement_request_state_value ProcurementRequestState.supplier_accepted = "SUPPLIER_ACCEPTED"
procurement_request_state_value ProcurementRequestState.ready_for_contracting =
    "READY_FOR_CONTRACTING"
procurement_request_state_value ProcurementRequestState.closed = "CLOSED"
procurement_request_state_value ProcurementRequestState.cancelled = "CANCELLED"
procurement_request_state_value ProcurementRequestState.no_eligible_suppliers =
    "NO_ELIGIBLE_SUPPLIERS"
procurement_request_state_value ProcurementRequestState.no_valid_quotes = "NO_VALID_QUOTES"
procurement_request_state_value ProcurementRequestState.approval_rejected = "APPROVAL_REJECTED"
procurement_request_state_value ProcurementRequestState.supplier_declined_award =
    "SUPPLIER_DECLINED_AWARD"
procurement_request_state_value ProcurementRequestState.expired = "EXPIRED"

unfoldable pub procurement_request_state_index : ProcurementRequestState → ℕ
procurement_request_state_index ProcurementRequestState.draft = 0
procurement_request_state_index ProcurementRequestState.needs_clarification = 1
procurement_request_state_index ProcurementRequestState.ready = 2
procurement_request_state_index ProcurementRequestState.sourcing = 3
procurement_request_state_index ProcurementRequestState.rfq_active = 4
procurement_request_state_index ProcurementRequestState.quotes_under_review = 5
procurement_request_state_index ProcurementRequestState.negotiating = 6
procurement_request_state_index ProcurementRequestState.awaiting_approval = 7
procurement_request_state_index ProcurementRequestState.approved = 8
procurement_request_state_index ProcurementRequestState.award_sent = 9
procurement_request_state_index ProcurementRequestState.supplier_accepted = 10
procurement_request_state_index ProcurementRequestState.ready_for_contracting = 11
procurement_request_state_index ProcurementRequestState.closed = 12
procurement_request_state_index ProcurementRequestState.cancelled = 13
procurement_request_state_index ProcurementRequestState.no_eligible_suppliers = 14
procurement_request_state_index ProcurementRequestState.no_valid_quotes = 15
procurement_request_state_index ProcurementRequestState.approval_rejected = 16
procurement_request_state_index ProcurementRequestState.supplier_declined_award = 17
procurement_request_state_index ProcurementRequestState.expired = 18

procurement_request_state_of : ℕ → Option ProcurementRequestState
procurement_request_state_of zero = some ProcurementRequestState.draft
procurement_request_state_of (suc zero) = some ProcurementRequestState.needs_clarification
procurement_request_state_of (suc (suc zero)) = some ProcurementRequestState.ready
procurement_request_state_of (suc (suc (suc zero))) = some ProcurementRequestState.sourcing
procurement_request_state_of (suc (suc (suc (suc zero)))) = some ProcurementRequestState.rfq_active
procurement_request_state_of (suc (suc (suc (suc (suc zero))))) =
    some ProcurementRequestState.quotes_under_review
procurement_request_state_of (suc (suc (suc (suc (suc (suc zero)))))) =
    some ProcurementRequestState.negotiating
procurement_request_state_of (suc (suc (suc (suc (suc (suc (suc zero))))))) =
    some ProcurementRequestState.awaiting_approval
procurement_request_state_of (suc (suc (suc (suc (suc (suc (suc (suc zero)))))))) =
    some ProcurementRequestState.approved
procurement_request_state_of (suc (suc (suc (suc (suc (suc (suc (suc (suc zero))))))))) =
    some ProcurementRequestState.award_sent
procurement_request_state_of (suc (suc (suc (suc (suc (suc (suc (suc (suc (suc zero)))))))))) =
    some ProcurementRequestState.supplier_accepted
procurement_request_state_of
      (suc (suc (suc (suc (suc (suc (suc (suc (suc (suc (suc zero))))))))))) =
    some ProcurementRequestState.ready_for_contracting
procurement_request_state_of
      (suc (suc (suc (suc (suc (suc (suc (suc (suc (suc (suc (suc zero)))))))))))) =
    some ProcurementRequestState.closed
procurement_request_state_of
      (suc (suc (suc (suc (suc (suc (suc (suc (suc (suc (suc (suc (suc zero))))))))))))) =
    some ProcurementRequestState.cancelled
procurement_request_state_of
      (suc (suc (suc (suc (suc (suc (suc (suc (suc (suc (suc (suc (suc (suc zero)))))))))))))) =
    some ProcurementRequestState.no_eligible_suppliers
procurement_request_state_of
      (suc
        (suc (suc (suc (suc (suc (suc (suc (suc (suc (suc (suc (suc (suc (suc zero))))))))))))))) =
    some ProcurementRequestState.no_valid_quotes
procurement_request_state_of
      (suc (
        suc (
          suc
            (suc (suc (suc (suc (suc (suc (suc (suc (suc (suc (suc (suc (suc zero)))))))))))))))) =
    some ProcurementRequestState.approval_rejected
procurement_request_state_of
      (suc (
        suc (
          suc (
            suc (
              suc
                (suc (suc (suc (suc (suc (suc (suc (suc (suc (suc (suc (suc zero))))))))))))))))) =
    some ProcurementRequestState.supplier_declined_award
procurement_request_state_of
      (suc (
        suc (
          suc (
            suc (
              suc (
                suc (
                  suc
                    (suc (suc (suc (suc (suc (suc (suc (suc (suc (suc (suc zero)))))))))))))))))) =
    some ProcurementRequestState.expired
procurement_request_state_of _ = none

procurement_request_state_of-index :
    (s : ProcurementRequestState)
    → procurement_request_state_of (procurement_request_state_index s) ≡ some s
unfolding procurement_request_state_of procurement_request_state_index
procurement_request_state_of-index ProcurementRequestState.draft = refl
procurement_request_state_of-index ProcurementRequestState.needs_clarification = refl
procurement_request_state_of-index ProcurementRequestState.ready = refl
procurement_request_state_of-index ProcurementRequestState.sourcing = refl
procurement_request_state_of-index ProcurementRequestState.rfq_active = refl
procurement_request_state_of-index ProcurementRequestState.quotes_under_review = refl
procurement_request_state_of-index ProcurementRequestState.negotiating = refl
procurement_request_state_of-index ProcurementRequestState.awaiting_approval = refl
procurement_request_state_of-index ProcurementRequestState.approved = refl
procurement_request_state_of-index ProcurementRequestState.award_sent = refl
procurement_request_state_of-index ProcurementRequestState.supplier_accepted = refl
procurement_request_state_of-index ProcurementRequestState.ready_for_contracting = refl
procurement_request_state_of-index ProcurementRequestState.closed = refl
procurement_request_state_of-index ProcurementRequestState.cancelled = refl
procurement_request_state_of-index ProcurementRequestState.no_eligible_suppliers = refl
procurement_request_state_of-index ProcurementRequestState.no_valid_quotes = refl
procurement_request_state_of-index ProcurementRequestState.approval_rejected = refl
procurement_request_state_of-index ProcurementRequestState.supplier_declined_award = refl
procurement_request_state_of-index ProcurementRequestState.expired = refl

pub procurement_request_state_index_injective :
    (s t : ProcurementRequestState)
    → procurement_request_state_index s ≡ procurement_request_state_index t
    → s ≡ t
procurement_request_state_index_injective =
    injective_of_inverse procurement_request_state_index procurement_request_state_of
      procurement_request_state_of-index

instance abbrev pub procurement_request_state_enum : StrEnum ProcurementRequestState
procurement_request_state_enum = record {
  value = procurement_request_state_value;
  index = procurement_request_state_index;
  index_injective = procurement_request_state_index_injective;
}
