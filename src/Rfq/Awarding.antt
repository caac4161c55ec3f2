-- ===== src/Rfq/Awarding.antt =====
-- modules/rfq/service.py: the steps of `send_award` and `get_award_status`.
use hackathon_open_ai.Rfq.Awards.{
  award_record, award_message, terms_of, new_award, award_entry, delivered_award, failed_award,
}
use hackathon_open_ai.Prelude.{
  ℕ, String, Bool, true, false, not, Option, none, some, [], ◌∷◌, ◌==◌, str_eq, string_eq, get,
}
use hackathon_open_ai.Value.{Value, Fields}
use hackathon_open_ai.Shared.{ExecutionCode}
use hackathon_open_ai.Rfq.Contracts.{
  SendAward, Award, AwardStatus, Approval, is_approved, Quote, DeliveryState, is_delivered,
}
use hackathon_open_ai.Rfq.Attributes.{optional}
use hackathon_open_ai.Rfq.Store.{AwardRecord, Result, Payload}
use hackathon_open_ai.Rfq.Environment.{Environment, SendResult, GatewayStatus}
use hackathon_open_ai.Rfq.Actions.{Action, pure, reads, guard, when, or_break, calls, ◌>>=◌, ◌>>◌}
use hackathon_open_ai.Rfq.Lookups.{
  the_round, the_approval, the_award, put_award, bind_award, put_status, tenant_for_request,
}
use hackathon_open_ai.Rfq.Trail.{now, new_id, audit, system_context}
use hackathon_open_ai.Rfq.Replay.{once, operation_of}
use hackathon_open_ai.Rfq.Sending.{send}
use hackathon_open_ai.Rfq.Approvals.{selected_quote}

module _ {W : Type 0} (env : Environment W) where
  -- `clock.now() if condition else None`
  unfoldable pub time_if : Bool → Action W (Option ℕ)
  unfolding ◌>>=◌ pure now
  time_if false = pure none
  time_if true = do time ← now env; pure (some time)

  -- The events of a new award.
  unfoldable pub announce : SendAward → String → Award → Bool → Action W Result
  unfolding ◌>>◌ ◌>>=◌ pure audit award_entry when put_status
  announce command id dto delivered = do
    audit env (award_entry "AWARD_CREATED" id none dto.status Fields.end "execution_command")
        command.context
    when delivered (
        audit env
          (award_entry "AWARD_DELIVERY_CONFIRMED" id (some AwardStatus.sent_to_gateway)
            AwardStatus.delivered Fields.end "delivery_gateway")
          command.context
        >> put_status command.procurement_request_id "AWARD_SENT")
    pure (Result.award dto)

  -- What the gateway accepted is recorded, bound to its approval, and put on the trail.
  unfoldable pub record_award :
      SendAward → Approval → Quote → String → String → SendResult → Action W Result
  unfolding ◌>>=◌ ◌>>◌ the_round terms_of time_if is_delivered now new_award put_award bind_award
      award_record announce
  record_award command approval quote id token result = do
    round ← the_round quote.rfq_round_id
    let terms = terms_of quote round.requirements
    delivered_at ← time_if (is_delivered result.status)
    time ← now env
    let dto = new_award env.hash command approval quote terms result.status id delivered_at time
    put_award id (award_record dto result token terms)
    bind_award approval.approval_id id
    announce command id dto (is_delivered result.status)

  -- The award of an approval is made once; the one that is there is returned.
  unfoldable pub award_once : SendAward → Approval → Quote → Option String → Action W Result
  unfolding ◌>>=◌ ◌>>◌ pure the_award new_id tenant_for_request calls or_break send award_message
      record_award
  award_once command approval quote (some existing) = do
    entry ← the_award existing
    pure (Result.award (record (entry.dto) { idempotent_replay = true }))
  award_once command approval quote none = do
    id ← new_id "award"
    tenant ← tenant_for_request approval.procurement_request_id
    issued ← calls (
        env.issue "award_response" id none
          (("supplier_id", quote.supplier_id) ∷ ("tenant_id", tenant) ∷ []))
    token ← or_break issued
    result ← send env (award_message tenant approval quote id token)
    record_award command approval quote id token result

  -- `send_award` after the replay.
  unfoldable pub award_approved : SendAward → Action W Result
  unfolding ◌>>=◌ ◌>>◌ reads guard get the_approval tenant_for_request is_approved selected_quote
      award_once
  award_approved command = do
    approval ← the_approval command.approval_id
    tenant ← tenant_for_request approval.procurement_request_id
    guard (str_eq tenant command.context.tenant_id) ExecutionCode.policy_denied
    guard (str_eq approval.procurement_request_id command.procurement_request_id)
        ExecutionCode.validation_error
    guard (approval.approval_version == command.expected_approval_version)
        ExecutionCode.stale_version
    guard (is_approved approval.status) ExecutionCode.invalid_state
    quote ← selected_quote env approval.selected_quote
    existing ← reads (λ s. get s.award_by_approval_id approval.approval_id)
    award_once command approval quote existing

  unfoldable pub send_award : SendAward → Action W Result
  unfolding once operation_of award_approved
  send_award command =
      once env (operation_of command.context.tenant_id "award.send") command.context.idempotency_key
        (Payload.awarding command) (award_approved command)

  -- `status.delivered_at or self.clock.now()`
  unfoldable pub time_or_now : Option ℕ → Action W ℕ
  unfolding pure now
  time_or_now (some time) = pure time
  time_or_now none = now env

  unfoldable pub note_delivered : String → AwardRecord → GatewayStatus → Action W Award
  unfolding ◌>>=◌ ◌>>◌ pure time_or_now now delivered_award put_award put_status when system_context
      audit award_entry
  note_delivered id entry status = do
    delivered_at ← time_or_now status.delivered_at
    time ← now env
    let current = delivered_award entry.dto delivered_at time
    put_award id (record entry { dto = current })
    put_status current.procurement_request_id "AWARD_SENT"
    when (not entry.delivery_event_emitted) (
        system_context env current.procurement_request_id >>= λ context.
        audit env
          (award_entry "AWARD_DELIVERY_CONFIRMED" id (some AwardStatus.sent_to_gateway)
            AwardStatus.delivered
            (Fields.field "external_id" (Value.text entry.external_id) Fields.end)
            "delivery_gateway")
          context
        >> put_award id (record entry { dto = current; delivery_event_emitted = true }))
    pure current

  unfoldable pub note_failed : String → AwardRecord → GatewayStatus → Action W Award
  unfolding ◌>>=◌ ◌>>◌ pure now failed_award put_award system_context audit award_entry
  note_failed id entry status = do
    time ← now env
    let current = failed_award entry.dto time
    put_award id (record entry { dto = current })
    context ← system_context env current.procurement_request_id
    audit env
        (award_entry "AWARD_DELIVERY_FAILED" id (some AwardStatus.sent_to_gateway)
          AwardStatus.failed
          (Fields.field "external_id" (Value.text entry.external_id)
            (Fields.field "reason" (optional Value.text status.failure_reason) Fields.end))
          "delivery_gateway")
        context
    pure current

  -- Only an award that is at the gateway moves with what the gateway says.
  unfoldable pub note_award :
      String → AwardRecord → GatewayStatus → AwardStatus → DeliveryState → Action W Award
  unfolding pure note_delivered note_failed
  note_award id entry status AwardStatus.sent_to_gateway DeliveryState.delivered =
      note_delivered id entry status
  note_award id entry status AwardStatus.sent_to_gateway DeliveryState.failed =
      note_failed id entry status
  note_award id entry status _ _ = pure entry.dto

  unfoldable pub get_award_status : String → Action W Award
  unfolding ◌>>=◌ the_award calls or_break note_award
  get_award_status id = do
    entry ← the_award id
    told ← calls (env.get_status entry.external_id)
    status ← or_break told
    note_award id entry status entry.dto.status status.status
