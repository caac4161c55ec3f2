-- ===== src/Domain/Awards/Tests.antt =====
-- Runs of an award on concrete inputs. The canonical form is the mapping itself, with a constant digest.
use hackathon_open_ai.Domain.Awards.Facts.{
  create, Award, Canonical, validate_approval_scope, canonical_snapshot,
}
use hackathon_open_ai.Domain.Awards.Calls.{Call, run}
use hackathon_open_ai.Domain.Awards.Histories.{award_lifecycle, runs, award_call-IsAtomic}
use hackathon_open_ai.Domain.Awards.Bindings.{Follows, award-Follows_approval, accept_binds_terms}
use hackathon_open_ai.Domain.Awards.Methods
use hackathon_open_ai.Domain.Awards.Methods.{accept}
use hackathon_open_ai.Domain.Approvals.{Approval, assert_valid_for}
use hackathon_open_ai.Domain.Common.Lifecycle.{IsAtomic}
use hackathon_open_ai.Contracts.{AwardStatus, ApprovalStatus, award_status_value}
use hackathon_open_ai.Domain.Common.{
  ok, new_aggregate, require_prefixed_id, require_non_empty, money,
}
use hackathon_open_ai.Value.{Value, Moment, Fields}
use hackathon_open_ai.Prelude.{[], ◌∷◌, List, some, none, pos, true, ◌≡◌, refl}

abbrev approval : Approval
approval = record {
  id = "apr_1";
  tenant_id = "ten_1";
  state = ApprovalStatus.approved;
  version = 2;
  pending_events = [];
  facts = record {
    procurement_request_id = "pr_1";
    quote_id = "quo_1";
    quote_version = 2;
    approved_total = record { cents = 500; currency = "BRL" };
    decided_by = some "usr_1";
    decided_at = some 7;
    reason = none;
  };
}

abbrev terms : Fields
terms = Fields.field "total_cents" (Value.int (pos 500)) Fields.end

abbrev constant_digest : Canonical
constant_digest fields = some (fields, "abc")

abbrev fresh : Award
fresh = record {
  id = "awd_1";
  tenant_id = "ten_1";
  state = AwardStatus.created;
  version = 1;
  pending_events =
      record {
        event_type = "AWARD_CREATED";
        aggregate_type = "award";
        aggregate_id = "awd_1";
        previous_state = none;
        new_state = some "CREATED";
        aggregate_version = 1;
        payload = [];
      }
      ∷ [];
  facts = record {
    procurement_request_id = "pr_1";
    supplier_id = "sup_1";
    approval_id = "apr_1";
    approved_quote_id = "quo_1";
    approved_quote_version = 2;
    approved_total_cents = 500;
    terms_snapshot = terms;
    terms_hash = "abc";
    delivery_ack_id = none;
    sent_at = none;
    response_submission_id = none;
    respondent_id = none;
    responded_at = none;
  };
}

create-fresh :
    create constant_digest
      (Value.text "awd_1")
      (Value.text "ten_1")
      (Value.text "pr_1")
      (Value.text "sup_1")
      approval
      terms
    ≡ ok fresh
unfolding create require_prefixed_id new_aggregate require_non_empty validate_approval_scope
    assert_valid_for canonical_snapshot award_status_value hackathon_open_ai.Prelude.is_blank
create-fresh = refl

abbrev accepts : Call
accepts =
    Call.accept (Value.text "sub_1") (Value.text "ana") (Value.datetime (Moment.aware 9))
      (Value.text "abc") (Value.bool true)

abbrev answers : List Call
answers =
    accepts
    ∷ Call.confirm_delivery (Value.text "ack_1") (Value.datetime (Moment.aware 8))
    ∷ accepts
    ∷ Call.decline (Value.text "sub_2") (Value.text "ana") (Value.datetime (Moment.aware 9))
    ∷ []

answers_accept : (runs answers fresh).state ≡ AwardStatus.accepted
unfolding run Methods.accept Methods.confirm_delivery Methods.decline
    hackathon_open_ai.Domain.Common.Methods.require_state hackathon_open_ai.Contracts.contains
    hackathon_open_ai.Contracts.award_status_index hackathon_open_ai.Domain.Awards.Facts.require_ack
    hackathon_open_ai.Prelude.is_blank hackathon_open_ai.Domain.Common.require_utc
    hackathon_open_ai.Domain.Common.Methods.transition
    hackathon_open_ai.Domain.Awards.Facts.validated_response require_non_empty
    hackathon_open_ai.Domain.Awards.Facts.require_terms
    hackathon_open_ai.Domain.Common.compare_digest
answers_accept = refl

award_call-IsAtomic_example : IsAtomic award_lifecycle fresh (run accepts fresh)
award_call-IsAtomic_example = award_call-IsAtomic accepts fresh

award-Follows_approval_example : Follows approval (Value.text "ten_1") (Value.text "pr_1") fresh
award-Follows_approval_example =
    award-Follows_approval constant_digest (Value.text "awd_1") (Value.text "ten_1")
      (Value.text "pr_1") (Value.text "sup_1") approval terms fresh create-fresh

abbrev sent : Award
sent = record fresh { state = AwardStatus.sent }

accept-passes :
    (accept
      (Value.text "sub_1")
      (Value.text "ana")
      (Value.datetime (Moment.aware 9))
      (Value.text "abc")
      (Value.bool true)
      sent).0
    ≡ ok tt
unfolding accept hackathon_open_ai.Domain.Common.Methods.require_state
    hackathon_open_ai.Contracts.contains hackathon_open_ai.Contracts.award_status_index
    hackathon_open_ai.Domain.Awards.Facts.validated_response require_non_empty
    hackathon_open_ai.Prelude.is_blank hackathon_open_ai.Domain.Common.require_utc
    hackathon_open_ai.Domain.Awards.Facts.require_terms
    hackathon_open_ai.Domain.Common.compare_digest
    hackathon_open_ai.Domain.Common.Methods.transition
accept-passes = refl

accept_binds_terms_example :
    (Value.text "abc" ≡ Value.text sent.facts.terms_hash)
    × (Value.bool true ≡ Value.bool true)
    × ((accept
          (Value.text "sub_1")
          (Value.text "ana")
          (Value.datetime (Moment.aware 9))
          (Value.text "abc")
          (Value.bool true)
          sent).1.facts.terms_hash
        ≡ sent.facts.terms_hash)
accept_binds_terms_example =
    accept_binds_terms sent (Value.text "sub_1") (Value.text "ana")
      (Value.datetime (Moment.aware 9)) (Value.text "abc") (Value.bool true) accept-passes
