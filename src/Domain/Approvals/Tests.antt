-- ===== src/Domain/Approvals/Tests.antt =====
-- Runs of an approval on concrete inputs.
use hackathon_open_ai.Domain.Approvals.Facts.{Approval}
use hackathon_open_ai.Domain.Approvals.Calls.{Call, run}
use hackathon_open_ai.Domain.Approvals.Histories.{
  approval_lifecycle, runs, approval_call-IsAtomic, approval_final_states_stay,
}
use hackathon_open_ai.Domain.Approvals.Bindings.{
  SameSubject, actor_of, approval_needs_human, approval_keeps_subject,
}
use hackathon_open_ai.Domain.Approvals.Methods
use hackathon_open_ai.Domain.Common.Lifecycle.{IsAtomic}
use hackathon_open_ai.Contracts.{ActorType, ApprovalStatus}
use hackathon_open_ai.Domain.Common.{ok, require_non_empty}
use hackathon_open_ai.Value.{Value, Moment}
use hackathon_open_ai.Prelude.{[], ◌∷◌, List, some, none, ◌≡◌, refl}

abbrev fresh : Approval
fresh = record {
  id = "apr_1";
  tenant_id = "ten_1";
  state = ApprovalStatus.requested;
  version = 1;
  pending_events =
      record {
        event_type = "APPROVAL_REQUESTED";
        aggregate_type = "approval";
        aggregate_id = "apr_1";
        previous_state = none;
        new_state = some "REQUESTED";
        aggregate_version = 1;
        payload = [];
      }
      ∷ [];
  facts = record {
    procurement_request_id = "pr_1";
    quote_id = "quo_1";
    quote_version = 2;
    approved_total = record { cents = 500; currency = "BRL" };
    decided_by = none;
    decided_at = none;
    reason = none;
  };
}

abbrev approve : Call
approve = Call.approve ActorType.human (Value.text "usr_1") (Value.datetime (Moment.aware 7))

abbrev decisions : List Call
decisions =
    Call.approve ActorType.agent (Value.text "bot") (Value.datetime (Moment.aware 6))
    ∷ approve
    ∷ approve
    ∷ []

decisions_approve : (runs decisions fresh).state ≡ ApprovalStatus.approved
unfolding run Methods.approve hackathon_open_ai.Domain.Common.Methods.require_state
    hackathon_open_ai.Contracts.contains hackathon_open_ai.Contracts.approval_status_index
    hackathon_open_ai.Domain.Approvals.Facts.validated_human_decision require_non_empty
    hackathon_open_ai.Prelude.is_blank hackathon_open_ai.Domain.Common.require_utc
    hackathon_open_ai.Domain.Common.Methods.transition
decisions_approve = refl

approval_call-IsAtomic_example : IsAtomic approval_lifecycle fresh (run approve fresh)
approval_call-IsAtomic_example = approval_call-IsAtomic approve fresh

approve-passes : (run approve fresh).0 ≡ ok tt
unfolding run Methods.approve hackathon_open_ai.Domain.Common.Methods.require_state
    hackathon_open_ai.Contracts.contains hackathon_open_ai.Contracts.approval_status_index
    hackathon_open_ai.Domain.Approvals.Facts.validated_human_decision require_non_empty
    hackathon_open_ai.Prelude.is_blank hackathon_open_ai.Domain.Common.require_utc
    hackathon_open_ai.Domain.Common.Methods.transition
approve-passes = refl

approval_needs_human_example : actor_of approve ≡ ActorType.human
approval_needs_human_example = approval_needs_human approve fresh approve-passes

approval_keeps_subject_example : SameSubject fresh.facts (runs decisions fresh).facts
approval_keeps_subject_example = approval_keeps_subject decisions fresh

approval_final_states_stay_example :
    runs decisions (record fresh { state = ApprovalStatus.rejected })
    ≡ record fresh { state = ApprovalStatus.rejected }
approval_final_states_stay_example =
    approval_final_states_stay (record fresh { state = ApprovalStatus.rejected }) decisions refl
