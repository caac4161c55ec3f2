-- ===== src/Domain/Procurement/Tests.antt =====
-- Runs of a procurement request on concrete inputs.
use hackathon_open_ai.Prelude.{
  is_blank, sorted_set, difference, true, some, none, pos, [], ◌∷◌, List, ◌≡◌, refl,
}
use hackathon_open_ai.Domain.Procurement.Sourcing
use hackathon_open_ai.Domain.Procurement.Commitment
use hackathon_open_ai.Value.{Value, Moment}
use hackathon_open_ai.Contracts.{
  ActorType, ProcurementRequestState, contains, procurement_request_state_enum,
  procurement_request_state_index, procurement_request_state_value,
}
use hackathon_open_ai.Domain.Common.{
  ok, new_aggregate, require_prefixed_id, require_non_empty, require_positive_int, require_utc,
  is_text, is_number, compare_digest,
}
use hackathon_open_ai.Domain.Common.Lifecycle.{IsAtomic}
use hackathon_open_ai.Domain.Common.Methods.{require_state, transition}
use hackathon_open_ai.Domain.Procurement.Facts.{
  ProcurementRequest, procurement_request_class, no_facts, create, required_procurement_fields,
  require_selected_quote, require_matching_award, require_delivery_ack,
}
use hackathon_open_ai.Domain.Procurement.Calls.{Call, run, has_human_grant}
use hackathon_open_ai.Domain.Procurement.Histories.{
  procurement_request_lifecycle, runs, request_call-IsAtomic, request_final_states_stay,
}
use hackathon_open_ai.Domain.Procurement.Sent.{is_sent, sent_stays_sent}
use hackathon_open_ai.Domain.Procurement.Grants.{committed_needs_human}
use hackathon_open_ai.Domain.Procurement.Bindings.{
  NamesQuote, NamesAward, record_human_approval_binds, record_supplier_acceptance_binds,
}
use hackathon_open_ai.Domain.Procurement.Sourcing.{cancel}
use hackathon_open_ai.Domain.Procurement.Commitment.{
  record_human_approval, record_supplier_acceptance,
}

abbrev fresh : ProcurementRequest
fresh = record {
  id = "pr_1";
  tenant_id = "ten_1";
  state = ProcurementRequestState.draft;
  version = 1;
  pending_events =
      record {
        event_type = "PROCUREMENT_REQUEST_CREATED";
        aggregate_type = "procurement_request";
        aggregate_id = "pr_1";
        previous_state = none;
        new_state = some "DRAFT";
        aggregate_version = 1;
        payload = [];
      }
      ∷ [];
  facts = no_facts;
}

create-fresh : create (Value.text "pr_1") (Value.text "ten_1") ≡ ok fresh
unfolding create require_prefixed_id new_aggregate require_non_empty procurement_request_state_value
    is_blank
create-fresh = refl

abbrev to_approval : List Call
to_approval =
    Call.mark_ready required_procurement_fields
    ∷ Call.start_sourcing
    ∷ Call.mark_rfq_active (Value.text "ack_1")
    ∷ Call.begin_quote_review (Value.text "sub_1")
    ∷ Call.request_approval (Value.text "quo_1") (Value.int (pos 2))
    ∷ []

abbrev grant : Call
grant =
    Call.record_human_approval (Value.text "apr_1") ActorType.human (Value.text "usr_1")
      (Value.text "quo_1") (Value.int (pos 2))

-- Before the state of the award, by the fields that the calls would have set.
abbrev awaiting : ProcurementRequest
awaiting = record fresh {
  state = ProcurementRequestState.awaiting_approval;
  facts = record no_facts {
    provided_fields = required_procurement_fields;
    selected_quote_id = some "quo_1";
    selected_quote_version = some 2;
  };
}

abbrev sent : ProcurementRequest
sent = record awaiting {
  state = ProcurementRequestState.award_sent;
  facts = record no_facts {
    provided_fields = required_procurement_fields;
    selected_quote_id = some "quo_1";
    selected_quote_version = some 2;
    approval_id = some "apr_1";
    award_id = some "awd_1";
    award_terms_hash = some "abc";
  };
}

request_call-IsAtomic_example : IsAtomic procurement_request_lifecycle awaiting (run grant awaiting)
request_call-IsAtomic_example = request_call-IsAtomic grant awaiting

request_final_states_stay_example :
    runs (grant ∷ Call.close ∷ []) (record sent { state = ProcurementRequestState.closed })
    ≡ record sent { state = ProcurementRequestState.closed }
request_final_states_stay_example =
    request_final_states_stay (record sent { state = ProcurementRequestState.closed })
      (grant ∷ Call.close ∷ []) refl

abbrev to_closed : List Call
to_closed =
    Call.mark_ready required_procurement_fields
    ∷ Call.start_sourcing
    ∷ Call.mark_rfq_active (Value.text "ack_1")
    ∷ Call.begin_quote_review (Value.text "sub_1")
    ∷ Call.request_approval (Value.text "quo_1") (Value.int (pos 2))
    ∷ grant
    ∷ Call.record_award_sent (Value.text "awd_1") (Value.text "ack_2") (Value.text "quo_1")
        (Value.int (pos 2)) (Value.text "abc")
    ∷ Call.record_supplier_acceptance (Value.text "awd_1") (Value.text "sub_2") (Value.text "abc")
    ∷ Call.mark_ready_for_contracting (Value.text "rsv_1") (Value.datetime (Moment.aware 5))
    ∷ Call.close
    ∷ []

to_closed_closes : (runs to_closed fresh).state ≡ ProcurementRequestState.closed
unfolding run Sourcing.mark_ready Sourcing.start_sourcing Sourcing.mark_rfq_active
    Sourcing.begin_quote_review Commitment.request_approval record_human_approval
    Commitment.record_award_sent record_supplier_acceptance Commitment.mark_ready_for_contracting
    Commitment.close require_state transition require_prefixed_id require_non_empty
    require_positive_int require_utc require_selected_quote require_matching_award
    require_delivery_ack is_text is_number compare_digest contains procurement_request_state_index
    sorted_set difference is_blank
to_closed_closes = refl

committed_needs_human_example : has_human_grant to_closed ≡ true
unfolding contains procurement_request_state_index
committed_needs_human_example =
    committed_needs_human (Value.text "pr_1") (Value.text "ten_1") fresh to_closed create-fresh
      (rw to_closed_closes refl)

granted :
    (record_human_approval
      (Value.text "apr_1")
      ActorType.human
      (Value.text "usr_1")
      (Value.text "quo_1")
      (Value.int (pos 2))
      awaiting).0
    ≡ ok tt
unfolding record_human_approval require_state transition require_prefixed_id require_non_empty
    require_positive_int require_selected_quote is_text is_number contains
    procurement_request_state_index is_blank
granted = refl

record_human_approval_binds_example :
    (ActorType.human ≡ ActorType.human)
    × NamesQuote awaiting.facts (Value.text "quo_1") (Value.int (pos 2))
record_human_approval_binds_example =
    record_human_approval_binds awaiting (Value.text "apr_1") ActorType.human (Value.text "usr_1")
      (Value.text "quo_1") (Value.int (pos 2)) granted

accepted :
    (record_supplier_acceptance (Value.text "awd_1") (Value.text "sub_2") (Value.text "abc") sent).0
    ≡ ok tt
unfolding record_supplier_acceptance require_state transition require_prefixed_id require_non_empty
    require_matching_award is_text compare_digest contains procurement_request_state_index is_blank
accepted = refl

record_supplier_acceptance_binds_example :
    NamesAward sent.facts (Value.text "awd_1") (Value.text "abc")
record_supplier_acceptance_binds_example =
    record_supplier_acceptance_binds sent (Value.text "awd_1") (Value.text "sub_2")
      (Value.text "abc") accepted

abbrev cancelling : List Call
cancelling =
    Call.cancel (Value.text "usr_1") (Value.text "late")
    ∷ Call.record_supplier_acceptance (Value.text "awd_1") (Value.text "sub_2") (Value.text "abc")
    ∷ Call.cancel (Value.text "usr_1") (Value.text "late")
    ∷ []

sent_stays_sent_example : is_sent (runs cancelling sent).state ≡ true
sent_stays_sent_example = sent_stays_sent sent cancelling refl
