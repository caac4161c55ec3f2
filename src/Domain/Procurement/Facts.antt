-- ===== src/Domain/Procurement/Facts.antt =====
-- domain/procurement/aggregate.py: the attributes that `ProcurementRequestAggregate` adds to
-- `AggregateRoot`, its constructor and its private checks.
use hackathon_open_ai.Prelude.{
  ℕ, String, Bool, false, not, Option, none, some, List, [], ◌∷◌, ◌||◌, if◌then◌else◌, is_blank,
}
use hackathon_open_ai.Value.{Value}
use hackathon_open_ai.Contracts.{ErrorCode, ProcurementRequestState, procurement_request_state_enum}
use hackathon_open_ai.Domain.Common.{
  Aggregate, AggregateClass, new_aggregate, Result, ok, err, domain_error, ◌>>=◌,
  require_prefixed_id, require_non_empty, require_positive_int, is_text, is_number, compare_digest,
}

pub record ProcurementFacts : Type 0 where
  -- a frozenset
  pub provided_fields : List String
  pub selected_quote_id : Option String
  pub selected_quote_version : Option ℕ
  pub approval_id : Option String
  pub award_id : Option String
  pub award_terms_hash : Option String
  pub acceptance_submission_id : Option String
  pub reservation_id : Option String

abbrev pub ProcurementRequest : Type 0
ProcurementRequest = Aggregate ProcurementRequestState ProcurementFacts

instance abbrev pub procurement_request_class : AggregateClass ProcurementRequestState
procurement_request_class = record {
  aggregate_type = "procurement_request";
  enum = procurement_request_state_enum;
}

abbrev pub no_facts : ProcurementFacts
no_facts = record {
  provided_fields = [];
  selected_quote_id = none;
  selected_quote_version = none;
  approval_id = none;
  award_id = none;
  award_terms_hash = none;
  acceptance_submission_id = none;
  reservation_id = none;
}

-- `ProcurementRequestAggregate.create`
unfoldable pub create : Value → Value → Result ProcurementRequest
create request_id tenant_id = do
  id ← require_prefixed_id request_id "request_id" "pr_"
  new_aggregate id tenant_id ProcurementRequestState.draft "PROCUREMENT_REQUEST_CREATED" no_facts

-- `REQUIRED_PROCUREMENT_FIELDS`, sorted.
abbrev pub required_procurement_fields : List String
required_procurement_fields =
    "approver_id" ∷ "category" ∷ "delivery_time" ∷ "event_date" ∷ "location"
    ∷ "mandatory_requirements" ∷ "maximum_total_cents" ∷ "quantity" ∷ "response_deadline" ∷ []

-- `_PRE_COMMIT_STATES`
abbrev pub pre_commit_states : List ProcurementRequestState
pre_commit_states =
    ProcurementRequestState.draft ∷ ProcurementRequestState.needs_clarification
    ∷ ProcurementRequestState.ready ∷ ProcurementRequestState.sourcing
    ∷ ProcurementRequestState.rfq_active ∷ ProcurementRequestState.quotes_under_review
    ∷ ProcurementRequestState.negotiating ∷ ProcurementRequestState.awaiting_approval
    ∷ ProcurementRequestState.approved ∷ []

-- `_require_selected_quote`: the quote of the action, if it is the selected one.
unfoldable pub require_selected_quote : ProcurementFacts → Value → Value → Result (String × ℕ)
require_selected_quote facts quote_id quote_version = do
  id ← require_prefixed_id quote_id "quote_id" "quo_"
  version ← require_positive_int quote_version "quote_version"
  if not (is_text facts.selected_quote_id id)
        || not (is_number facts.selected_quote_version version)
      then err
          (domain_error ErrorCode.conflict "Action does not reference the selected quote version")
      else ok (id, version)

-- The hash test of `_require_matching_award`, which is not reached unless the award is the same.
unfoldable pub matches_award : ProcurementFacts → String → String → Result Bool
matches_award facts award_id terms_hash =
    if not (is_text facts.award_id award_id) then ok false else elim (facts.award_terms_hash) [
      | none ↦ ok false
      | some expected ↦ compare_digest terms_hash expected
    ]

-- `_require_matching_award`: the award and the hash of the response, if both are as delivered.
unfoldable pub require_matching_award : ProcurementFacts → Value → Value → Result (String × String)
unfolding matches_award
require_matching_award facts award_id terms_hash = do
  award ← require_prefixed_id award_id "award_id" "awd_"
  hash ← require_non_empty terms_hash "terms_hash"
  same ← matches_award facts award hash
  if same
      then ok (award, hash)
      else err
          (domain_error ErrorCode.conflict "Supplier acceptance does not match the delivered award")

-- `_require_delivery_ack`
unfoldable pub require_delivery_ack : Value → Result String
require_delivery_ack (Value.text delivery_ack_id) =
    if is_blank delivery_ack_id
    then err (
        domain_error ErrorCode.external_delivery_not_confirmed
          "State change requires a real delivery acknowledgement")
    else ok delivery_ack_id
require_delivery_ack _ = err (
    domain_error ErrorCode.external_delivery_not_confirmed
      "State change requires a real delivery acknowledgement")
