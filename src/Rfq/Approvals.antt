-- ===== src/Rfq/Approvals.antt =====
-- modules/rfq/service.py: `request_approval` and `decide_approval`.
use hackathon_open_ai.Prelude.{
  ℕ, ◌+◌, String, Bool, true, false, ◌&&◌, Option, none, some, List, [], ◌∷◌, ltb, ◌==◌,
  if◌then◌else◌, str_eq, str_append, string_eq,
}
use hackathon_open_ai.Value.{Value, Fields}
use hackathon_open_ai.Shared.{ExecutionCode}
use hackathon_open_ai.Scoring.Score.{ScoreResult}
use hackathon_open_ai.Rfq.Contracts.{
  RequestApproval, Approval, ApprovalStatus, approval_text, is_requested, Quote, QuoteRef, is_final,
  Context, ActorType, Comparison,
}
use hackathon_open_ai.Rfq.Attributes.{number}
use hackathon_open_ai.Rfq.Store.{Result, Payload}
use hackathon_open_ai.Rfq.Environment.{Environment}
use hackathon_open_ai.Rfq.Actions.{Action, pure, guard, when, refuse, ◌>>=◌, ◌>>◌}
use hackathon_open_ai.Rfq.Lookups.{
  the_round, the_quote, the_comparison, the_approval, put_approval, put_status, tenant_for_request,
}
use hackathon_open_ai.Rfq.Trail.{now, new_id, audit}
use hackathon_open_ai.Rfq.Replay.{once, operation_of}

-- The candidate that a reference selects.
unfoldable pub candidate_for : QuoteRef → List ScoreResult → Option ScoreResult
candidate_for ref [] = none
candidate_for ref (c ∷ cs) =
    let rest = candidate_for ref cs in
    if str_eq c.quote_id ref.quote_id && c.quote_version == ref.quote_version then some c else rest

unfoldable pub is_eligible_candidate : Option ScoreResult → Bool
is_eligible_candidate none = false
is_eligible_candidate (some c) = c.eligible

unfoldable pub new_approval : RequestApproval → Comparison → String → ℕ → Approval
new_approval command comparison id time = record {
  approval_id = id;
  approval_version = 1;
  status = ApprovalStatus.requested;
  procurement_request_id = command.procurement_request_id;
  comparison_id = comparison.comparison_id;
  comparison_version = comparison.comparison_version;
  selected_quote = command.selected_quote;
  approver_user_id = command.approver_user_id;
  decided_by_user_id = none;
  reason = none;
  requested_at = time;
  decided_at = none;
  idempotent_replay = false;
}

unfoldable pub decided : Approval → String → Bool → Option String → ℕ → Approval
decided a actor approve reason time = record a {
  approval_version = a.approval_version + 1;
  status = if approve then ApprovalStatus.approved else ApprovalStatus.rejected;
  decided_by_user_id = some actor;
  reason = reason;
  decided_at = some time;
}

unfoldable pub ref_fields : QuoteRef → Fields
ref_fields r =
    Fields.field "quote_id" (Value.text r.quote_id)
      (Fields.field "quote_version" (number r.quote_version) Fields.end)

-- The context of what a person did through a link or a form.
unfoldable pub human_context : String → String → String → String → Context
human_context tenant key request actor = record {
  tenant_id = tenant;
  idempotency_key = key;
  correlation_id = str_append "cor:" request;
  causation_id = none;
  actor_type = ActorType.human;
  actor_id = actor;
  agent_run_id = none;
}

module _ {W : Type 0} (env : Environment W) where
  -- The clock is read only for a quote that is eligible and final.
  unfoldable pub still_open : Quote → Bool → Action W (Unit {0})
  unfolding ◌>>=◌ refuse now guard
  still_open q false = refuse ExecutionCode.quote_expired
  still_open q true = do
    time ← now env
    guard (ltb time q.submission.valid_until) ExecutionCode.quote_expired

  -- `quote.eligible and quote.status == FINAL and quote.valid_until > now`
  unfoldable pub require_valid : Quote → Action W (Unit {0})
  unfolding still_open is_final
  require_valid q = still_open q (q.eligible && is_final q.status)

  -- The quote, at the version that was selected.
  unfoldable pub selected_quote : QuoteRef → Action W Quote
  unfolding ◌>>=◌ ◌>>◌ pure the_quote guard require_valid
  selected_quote ref = do
    entry ← the_quote ref.quote_id
    guard (entry.dto.quote_version == ref.quote_version) ExecutionCode.stale_version
    require_valid entry.dto
    pure entry.dto

  -- `request_approval` after the replay.
  unfoldable pub open_approval : RequestApproval → Action W Result
  unfolding ◌>>=◌ ◌>>◌ pure guard the_comparison the_round candidate_for is_eligible_candidate
      selected_quote new_id now new_approval put_approval audit approval_text
  open_approval command = do
    comparison ← the_comparison command.comparison_id
    round ← the_round comparison.rfq_round_id
    guard (str_eq round.tenant_id command.context.tenant_id) ExecutionCode.policy_denied
    guard (str_eq comparison.procurement_request_id command.procurement_request_id)
        ExecutionCode.validation_error
    guard (comparison.comparison_version == command.comparison_version) ExecutionCode.stale_version
    guard (is_eligible_candidate (candidate_for command.selected_quote comparison.candidates))
        ExecutionCode.validation_error
    quote ← selected_quote command.selected_quote
    guard (str_eq command.approver_user_id round.policy.approver_user_id)
        ExecutionCode.policy_denied
    id ← new_id "approval"
    time ← now env
    let dto = new_approval command comparison id time
    put_approval id dto
    audit env
        (record {
          event_type = "APPROVAL_REQUESTED";
          aggregate_type = "approval";
          aggregate_id = id;
          payload = Fields.end;
          previous_state = none;
          new_state = some (approval_text dto.status);
          origin = "execution_command";
        })
        command.context
    pure (Result.approval dto)

  unfoldable pub request_approval : RequestApproval → Action W Result
  unfolding once operation_of open_approval
  request_approval command =
      once env (operation_of command.context.tenant_id "approval.request")
        command.context.idempotency_key (Payload.requesting command) (open_approval command)

  -- `decide_approval` after the replay.
  unfoldable pub decide_open :
      String → Approval → String → String → Bool → String → Option String → Action W Result
  unfolding ◌>>=◌ ◌>>◌ pure guard is_requested selected_quote now decided put_approval
      tenant_for_request human_context audit ref_fields approval_text when put_status
  decide_open id current actor_type actor approve key reason = do
    guard (str_eq actor_type "human") ExecutionCode.policy_denied
    guard (str_eq current.approver_user_id actor) ExecutionCode.policy_denied
    guard (is_requested current.status) ExecutionCode.invalid_state
    quote ← selected_quote current.selected_quote
    time ← now env
    let updated = decided current actor approve reason time
    put_approval id updated
    tenant ← tenant_for_request current.procurement_request_id
    audit env
        (record {
          event_type = if approve then "APPROVAL_GRANTED" else "APPROVAL_REJECTED";
          aggregate_type = "approval";
          aggregate_id = id;
          payload =
              Fields.field "selected_quote" (Value.dict (ref_fields current.selected_quote))
                Fields.end;
          previous_state = some (approval_text current.status);
          new_state = some (approval_text updated.status);
          origin = "approval_decision";
        })
        (human_context tenant key current.procurement_request_id actor)
    when approve (put_status current.procurement_request_id "APPROVED")
    pure (Result.approval updated)

  unfoldable pub decide_approval :
      String → String → String → Bool → String → Option String → Action W Result
  unfolding ◌>>=◌ the_approval tenant_for_request once operation_of decide_open
  decide_approval id actor_type actor approve key reason = do
    current ← the_approval id
    tenant ← tenant_for_request current.procurement_request_id
    once env (operation_of tenant "approval.decide") key
        (Payload.deciding id actor_type actor approve reason)
        (decide_open id current actor_type actor approve key reason)
