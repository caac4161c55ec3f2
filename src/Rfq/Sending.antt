-- ===== src/Rfq/Sending.antt =====
-- modules/rfq/service.py: the gateway calls of `send_round` and `_refresh_delivery_batch`.
use hackathon_open_ai.Rfq.Actions.{
  each, Action, pure, reads, guard, when, refuse, break, or_break, calls, ◌>>=◌, ◌>>◌,
}
use hackathon_open_ai.Rfq.Store.{Recipient, RoundRecord, Result, Payload}
use hackathon_open_ai.Prelude.{
  String, Bool, true, false, not, ◌&&◌, Option, none, some, [], ◌∷◌, leb, ◌==◌, str_eq, get,
  string_eq,
}
use hackathon_open_ai.Shared.{ExecutionCode}
use hackathon_open_ai.Rfq.Contracts.{
  SendRound, RfqRoundStatus, same_round_status, DeliveryStatus, Context, Delivery, DeliveryBatch,
  channel_text, status_of, is_delivered,
}
use hackathon_open_ai.Rfq.Environment.{
  Environment, OutboundMessage, SendResult, GatewayStatus, Sending,
}
use hackathon_open_ai.Rfq.Lookups.{the_round, the_recipient, put_round, put_recipient, put_status}
use hackathon_open_ai.Rfq.Trail.{now, audit, system_context}
use hackathon_open_ai.Rfq.Replay.{once, operation_of}
use hackathon_open_ai.Rfq.Deliveries.{
  delivery_confirmed, rfq_message, given, delivery_of, count_confirmed, status_after, round_changed,
  moved_round, batch_of, is_over,
}

module _ {W : Type 0} (env : Environment W) where
  -- The response token, issued for the first message to a recipient.
  unfoldable pub token_for : RoundRecord → String → Recipient → Option String → Action W String
  unfolding ◌>>=◌ ◌>>◌ pure calls or_break put_recipient
  token_for round id recipient (some token) = pure token
  token_for round id recipient none = do
    issued ← calls (
        env.issue "rfq_response" id (some round.dto.response_deadline) (
          ("rfq_round_id", round.dto.rfq_round_id)
          ∷ ("supplier_id", recipient.supplier_id)
          ∷ ("tenant_id", round.tenant_id)
          ∷ []))
    token ← or_break issued
    put_recipient id (record recipient { response_token = some token })
    pure token

  -- How `send` ended.
  unfoldable pub sent_result : Sending → Action W SendResult
  unfolding pure refuse break
  sent_result (Sending.sent result) = pure result
  sent_result Sending.conflict = refuse ExecutionCode.idempotency_conflict
  sent_result Sending.error = break

  unfoldable pub send : OutboundMessage → Action W SendResult
  unfolding ◌>>=◌ calls sent_result
  send message = do ended ← calls (env.send message); sent_result ended

  -- A delivery that the gateway confirms, with its event the first time.
  unfoldable pub confirm :
      String → Recipient → String → DeliveryStatus → Context → Action W (Unit {0})
  unfolding ◌>>◌ ◌>>=◌ put_recipient audit delivery_confirmed
  confirm id recipient external_id previous context = do
    audit env (delivery_confirmed id external_id previous) context
    put_recipient id (record recipient { delivery_event_emitted = true })

  -- What a recipient is after its message was accepted.
  unfoldable pub note_sent : String → Recipient → SendResult → SendRound → Action W (Unit {0})
  unfolding ◌>>=◌ ◌>>◌ put_recipient when confirm now status_of is_delivered channel_text
  note_sent id recipient result command =
      let accepted = record recipient {
        external_id = some result.external_id;
        channel = channel_text command.channel;
        status = status_of result.status;
      } in
      put_recipient id accepted
      >> when (is_delivered result.status) (
          now env >>= λ time.
          let delivered = record accepted { delivered_at = some time } in
          put_recipient id delivered
          >> when (not accepted.delivery_event_emitted)
              (confirm id delivered result.external_id recipient.status command.context))

  unfoldable pub send_to : RoundRecord → SendRound → String → Action W (Unit {0})
  unfolding ◌>>=◌ ◌>>◌ reads or_break get token_for send rfq_message note_sent
  send_to round command id = do
    found ← reads (λ s. get s.recipients id)
    recipient ← or_break found
    token ← token_for round id recipient recipient.response_token
    result ← send (rfq_message round command id recipient token)
    note_sent id (record recipient { response_token = some token }) result command

  -- `audit_context or self._system_context(...)`
  unfoldable pub context_or : Option Context → String → Action W Context
  unfolding pure system_context
  context_or (some context) request = pure context
  context_or none request = system_context env request

  unfoldable pub note_status :
      RoundRecord
      → Option Context
      → String
      → Recipient
      → String
      → GatewayStatus
      → Action W Recipient
  unfolding ◌>>=◌ ◌>>◌ pure put_recipient when confirm context_or status_of is_delivered
  note_status round context id recipient external_id provider = do
    let noted = record recipient {
      status = status_of provider.status;
      delivered_at = provider.delivered_at;
      failure_code = provider.failure_reason;
    }
    put_recipient id noted
    when (is_delivered provider.status && not recipient.delivery_event_emitted) (
        context_or context round.dto.procurement_request_id
        >>= confirm id noted external_id recipient.status)
    pure noted

  unfoldable pub refresh_one :
      RoundRecord → Option Context → String → Recipient → Option String → Action W Recipient
  unfolding ◌>>=◌ pure calls or_break note_status
  refresh_one round context id recipient none = pure recipient
  refresh_one round context id recipient (some external_id) = do
    status ← calls (env.get_status external_id)
    provider ← or_break status
    note_status round context id recipient external_id provider

  unfoldable pub refresh_recipient :
      RoundRecord → String → Option Context → String → Action W Delivery
  unfolding ◌>>=◌ pure the_recipient refresh_one given delivery_of
  refresh_recipient round round_id context id = do
    recipient ← the_recipient id
    noted ← refresh_one round context id recipient (given recipient.external_id)
    pure (delivery_of round_id id noted)

  -- A new status counts the version up, and is put on the trail.
  unfoldable pub move_round :
      String → RoundRecord → Option Context → RfqRoundStatus → Bool → Action W RoundRecord
  unfolding ◌>>=◌ ◌>>◌ pure put_round moved_round audit round_changed context_or
  move_round id round context status true = pure round
  move_round id round context status false = do
    put_round id (moved_round round status)
    by ← context_or context round.dto.procurement_request_id
    audit env (round_changed id round status) by
    pure (moved_round round status)

  unfoldable pub refresh_delivery_batch : String → Option Context → Action W DeliveryBatch
  unfolding ◌>>=◌ ◌>>◌ pure the_round each refresh_recipient status_after move_round
      same_round_status when put_status count_confirmed now batch_of
  refresh_delivery_batch id context = do
    round ← the_round id
    deliveries ← each (refresh_recipient round id context) round.recipient_ids
    let status = status_after round deliveries
    moved ← move_round id round context status (same_round_status round.dto.status status)
    when (leb round.policy.minimum_confirmed_deliveries (count_confirmed deliveries))
        (put_status round.dto.procurement_request_id "RFQ_ACTIVE")
    time ← now env
    pure (batch_of id moved deliveries time)

  unfoldable pub get_delivery_status : String → Action W DeliveryBatch
  unfolding refresh_delivery_batch
  get_delivery_status id = refresh_delivery_batch id none

  -- `send_round` after the replay.
  unfoldable pub dispatch_round : SendRound → Action W Result
  unfolding ◌>>=◌ ◌>>◌ pure the_round guard is_over each send_to refresh_delivery_batch
  dispatch_round command = do
    round ← the_round command.rfq_round_id
    guard (str_eq round.tenant_id command.context.tenant_id) ExecutionCode.policy_denied
    guard (round.dto.round_version == command.expected_round_version) ExecutionCode.stale_version
    guard (not (is_over round.dto.status)) ExecutionCode.invalid_state
    each (send_to round command) round.recipient_ids
    batch ← refresh_delivery_batch round.dto.rfq_round_id (some command.context)
    pure (Result.batch batch)

  unfoldable pub send_round : SendRound → Action W Result
  unfolding once operation_of dispatch_round
  send_round command =
      once env (operation_of command.context.tenant_id "rfq.send") command.context.idempotency_key
        (Payload.sending command) (dispatch_round command)
