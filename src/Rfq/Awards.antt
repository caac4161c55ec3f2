-- ===== src/Rfq/Awards.antt =====
-- modules/rfq/service.py: `send_award` and `get_award_status`.
use hackathon_open_ai.Rfq.Store.{AwardRecord, Terms, Payload}
use hackathon_open_ai.Rfq.Environment.{SendResult, OutboundMessage}
use hackathon_open_ai.Rfq.Contracts.{
  is_delivered, SendAward, Award, AwardStatus, award_text, ReservationStatus, Approval, Quote,
  DeliveryState, Requirements,
}
use hackathon_open_ai.Prelude.{
  ℕ, ◌+◌, String, false, Option, none, some, [], ◌∷◌, str_append, string_eq,
}
use hackathon_open_ai.Value.{Fields}
use hackathon_open_ai.Rfq.Numerals.{numeral}
use hackathon_open_ai.Rfq.Trail.{Entry}

unfoldable pub award_message : String → Approval → Quote → String → String → OutboundMessage
unfolding numeral
award_message tenant approval quote id token = record {
  idempotency_key = str_append tenant (
      str_append ":award:approval:"
        (str_append approval.approval_id (str_append ":v" (numeral approval.approval_version))));
  recipient_id = quote.recipient_id;
  supplier_id = quote.supplier_id;
  channel = "manual_link";
  message_type = "award";
  body = str_append "Award " (str_append id " acceptance link");
  response_token = token;
  metadata = ("approval_id", approval.approval_id) ∷ ("award_id", id) ∷ ("tenant_id", tenant) ∷ [];
}

-- `currency` is always "BRL".
unfoldable pub terms_of : Quote → Requirements → Terms
terms_of quote requirements = record {
  quote_id = quote.quote_id;
  quote_version = quote.quote_version;
  supplier_id = quote.supplier_id;
  total_cents = quote.submission.total_cents;
  included_items = quote.submission.included_items;
  substitutions = quote.submission.substitutions;
  cancellation_terms = quote.submission.cancellation_terms;
  event_date = requirements.event_date;
  delivery_time = requirements.delivery_time;
  people_count = requirements.people_count;
}

unfoldable pub award_status_of : DeliveryState → AwardStatus
award_status_of DeliveryState.delivered = AwardStatus.delivered
award_status_of _ = AwardStatus.sent_to_gateway

unfoldable pub new_award :
    (Payload → String)
    → SendAward
    → Approval
    → Quote
    → Terms
    → DeliveryState
    → String
    → Option ℕ
    → ℕ
    → Award
unfolding award_status_of
new_award hash command approval quote terms state id delivered_at time = record {
  award_id = id;
  award_version = 1;
  procurement_request_id = command.procurement_request_id;
  supplier_id = quote.supplier_id;
  approved_quote = approval.selected_quote;
  approval_id = approval.approval_id;
  approved_total_cents = quote.submission.total_cents;
  terms_snapshot_hash = hash (Payload.terms terms);
  accepted_terms_hash = none;
  status = award_status_of state;
  reservation_status = ReservationStatus.not_created;
  ready_for_contracting = false;
  delivered_at = delivered_at;
  responded_at = none;
  updated_at = time;
  idempotent_replay = false;
}

unfoldable pub award_record : Award → SendResult → String → Terms → AwardRecord
unfolding is_delivered
award_record dto result token terms = record {
  dto = dto;
  external_id = result.external_id;
  response_token = token;
  delivery_event_emitted = is_delivered result.status;
  accepted_by = none;
  terms_snapshot = terms;
  declined_by = none;
  decline_reason = none;
}

unfoldable pub award_entry :
    String → String → Option AwardStatus → AwardStatus → Fields → String → Entry
unfolding award_text
award_entry event id previous status payload origin = record {
  event_type = event;
  aggregate_type = "award";
  aggregate_id = id;
  payload = payload;
  previous_state = elim previous [ none ↦ none | some s ↦ some (award_text s) ];
  new_state = some (award_text status);
  origin = origin;
}

-- The award that the gateway delivered.
unfoldable pub delivered_award : Award → ℕ → ℕ → Award
delivered_award a delivered_at time = record a {
  award_version = a.award_version + 1;
  status = AwardStatus.delivered;
  delivered_at = some delivered_at;
  updated_at = time;
}

-- The award that the gateway could not deliver.
unfoldable pub failed_award : Award → ℕ → Award
failed_award a time = record a {
  award_version = a.award_version + 1;
  status = AwardStatus.failed;
  updated_at = time;
}
