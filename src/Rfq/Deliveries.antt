-- ===== src/Rfq/Deliveries.antt =====
-- modules/rfq/service.py: what `send_round` and `_refresh_delivery_batch` write.
use hackathon_open_ai.Prelude.{
  ℕ, zero, suc, ◌+◌, String, Bool, true, false, ◌||◌, Option, none, some, List, [], ◌∷◌, leb, ◌==◌,
  if◌then◌else◌, str_eq, str_append, length, string_eq,
}
use hackathon_open_ai.Value.{Value, Fields}
use hackathon_open_ai.Rfq.Contracts.{
  SendRound, RfqRoundStatus, round_text, same_round_status, DeliveryStatus, Delivery, DeliveryBatch,
  channel_text, delivery_text, was_delivered,
}
use hackathon_open_ai.Rfq.Store.{Recipient, RoundRecord}
use hackathon_open_ai.Rfq.Environment.{OutboundMessage}
use hackathon_open_ai.Rfq.Trail.{Entry}

unfoldable pub delivery_confirmed : String → String → DeliveryStatus → Entry
unfolding delivery_text
delivery_confirmed recipient external_id previous = record {
  event_type = "RFQ_DELIVERY_CONFIRMED";
  aggregate_type = "rfq_recipient";
  aggregate_id = recipient;
  payload = Fields.field "external_id" (Value.text external_id) Fields.end;
  previous_state = some (delivery_text previous);
  new_state = some (delivery_text DeliveryStatus.delivered);
  origin = "delivery_gateway";
}

unfoldable pub rfq_message : RoundRecord → SendRound → String → Recipient → String → OutboundMessage
unfolding channel_text
rfq_message round command id recipient token = record {
  idempotency_key =
      str_append round.tenant_id
        (str_append ":rfq:" (str_append round.dto.rfq_round_id (str_append ":recipient:" id)));
  recipient_id = id;
  supplier_id = recipient.supplier_id;
  channel = channel_text command.channel;
  message_type = "rfq";
  body = str_append "RFQ " (str_append round.dto.rfq_round_id " response link");
  response_token = token;
  metadata = ("rfq_round_id", round.dto.rfq_round_id) ∷ ("tenant_id", round.tenant_id) ∷ [];
}

-- `if external_id:`
unfoldable pub given : Option String → Option String
given none = none
given (some id) = if str_eq id "" then none else some id

unfoldable pub delivery_of : String → String → Recipient → Delivery
delivery_of round id recipient = record {
  recipient_id = id;
  rfq_round_id = round;
  supplier_id = recipient.supplier_id;
  channel = recipient.channel;
  status = recipient.status;
  external_id = recipient.external_id;
  delivered_at = recipient.delivered_at;
  failure_code = recipient.failure_code;
}

unfoldable pub count_confirmed : List Delivery → ℕ
unfolding was_delivered
count_confirmed [] = zero
count_confirmed (d ∷ ds) =
    let rest = count_confirmed ds in if was_delivered d.status then suc rest else rest

-- `delivery.external_id is not None`
unfoldable pub is_started : Option String → Bool
is_started none = false
is_started (some id) = true

unfoldable pub any_started : List Delivery → Bool
unfolding is_started
any_started [] = false
any_started (d ∷ ds) = is_started d.external_id || any_started ds

unfoldable pub next_status : Bool → Bool → RfqRoundStatus → RfqRoundStatus
next_status activation started current =
    if activation
    then RfqRoundStatus.active
    else if started
    then RfqRoundStatus.dispatching
    else current

-- The status that the deliveries of a round give it.
unfoldable pub status_after : RoundRecord → List Delivery → RfqRoundStatus
unfolding next_status count_confirmed any_started
status_after round deliveries =
    next_status (leb round.policy.minimum_confirmed_deliveries (count_confirmed deliveries))
      (any_started deliveries) round.dto.status

unfoldable pub round_changed : String → RoundRecord → RfqRoundStatus → Entry
unfolding round_text same_round_status
round_changed id round status = record {
  event_type =
      if same_round_status status RfqRoundStatus.active
      then "RFQ_ROUND_ACTIVATED"
      else "RFQ_DISPATCH_STARTED";
  aggregate_type = "rfq_round";
  aggregate_id = id;
  payload =
      Fields.field "previous_status" (Value.text (round_text round.dto.status))
        (Fields.field "new_status" (Value.text (round_text status)) Fields.end);
  previous_state = some (round_text round.dto.status);
  new_state = some (round_text status);
  origin = "delivery_gateway";
}

unfoldable pub moved_round : RoundRecord → RfqRoundStatus → RoundRecord
moved_round round status = record round {
  dto = record (round.dto) { round_version = round.dto.round_version + 1; status = status };
}

unfoldable pub batch_of : String → RoundRecord → List Delivery → ℕ → DeliveryBatch
unfolding count_confirmed
batch_of id round deliveries time = record {
  rfq_round_id = id;
  round_version = round.dto.round_version;
  deliveries = deliveries;
  confirmed_count = count_confirmed deliveries;
  all_confirmed = count_confirmed deliveries == length deliveries;
  activation_criteria_met =
      leb round.policy.minimum_confirmed_deliveries (count_confirmed deliveries);
  updated_at = time;
  idempotent_replay = false;
}

unfoldable pub is_over : RfqRoundStatus → Bool
is_over RfqRoundStatus.closed = true
is_over RfqRoundStatus.failed = true
is_over _ = false
