-- ===== src/Rfq/Rounds.antt =====
-- modules/rfq/service.py: `create_round`, `get_round_requirements`, `get_response_context`.
use hackathon_open_ai.Rfq.Actions.{each, Action, pure, guard, refuse, break, asks, ◌>>=◌, ◌>>◌}
use hackathon_open_ai.Prelude.{
  ℕ, String, Bool, false, Option, none, some, List, leb, ltb, str_eq, length, get, string_eq, pos,
}
use hackathon_open_ai.Value.{Value, Fields}
use hackathon_open_ai.Shared.{ExecutionCode}
use hackathon_open_ai.Rfq.Contracts.{
  CreateRound, Round, RfqRoundStatus, round_text, DeliveryStatus, Requirements, ResponseContext,
}
use hackathon_open_ai.Rfq.Store.{Recipient, RoundRecord, Result, Payload}
use hackathon_open_ai.Rfq.Environment.{Environment, Claims, Validation}
use hackathon_open_ai.Rfq.Lookups.{the_round, the_recipient, put_round, put_recipient, put_status}
use hackathon_open_ai.Rfq.Trail.{new_id, now, audit}
use hackathon_open_ai.Rfq.Replay.{once, operation_of}

-- A recipient to which nothing was sent.
unfoldable pub new_recipient : String → String → String → Recipient
new_recipient id round supplier = record {
  recipient_id = id;
  rfq_round_id = round;
  supplier_id = supplier;
  channel = "manual_link";
  status = DeliveryStatus.pending;
  external_id = none;
  delivered_at = none;
  failure_code = none;
  response_token = none;
  quote_id = none;
  delivery_event_emitted = false;
}

module _ {W : Type 0} where
  unfoldable pub add_recipient : String → String → Action W String
  unfolding ◌>>=◌ ◌>>◌ pure new_id put_recipient new_recipient
  add_recipient round supplier = do
    id ← new_id "recipient"
    put_recipient id (new_recipient id round supplier)
    pure id

unfoldable pub new_round : (Payload → String) → CreateRound → String → ℕ → Round
new_round hash command id time = record {
  rfq_round_id = id;
  procurement_request_id = command.procurement_request_id;
  request_version = command.request_version;
  round_version = 1;
  status = RfqRoundStatus.draft;
  recipient_count = length command.recipient_supplier_ids;
  response_deadline = command.response_deadline;
  requirements_snapshot_hash = hash (Payload.requirements command.requirements);
  policy_snapshot_hash = hash (Payload.policy command.execution_policy);
  created_at = time;
  idempotent_replay = false;
}

unfoldable pub round_record : CreateRound → Round → List String → RoundRecord
round_record command dto ids = record {
  dto = dto;
  tenant_id = command.context.tenant_id;
  requirements = command.requirements;
  policy = command.execution_policy;
  recipient_ids = ids;
  collection_version = 0;
}

-- `claims.metadata.get(name)`
unfoldable pub claim : Claims → String → Option String
unfolding get
claim claims name = get claims.metadata name

-- `claims.metadata.get("tenant_id") == tenant`
unfoldable pub names_tenant : Claims → String → Bool
unfolding claim
names_tenant claims tenant = elim (claim claims "tenant_id") [
  | none ↦ false
  | some t ↦ str_eq t tenant
]

module _ {W : Type 0} (env : Environment W) where
  -- `create_round` after the replay.
  unfoldable pub start_round : CreateRound → Action W Result
  unfolding ◌>>=◌ ◌>>◌ pure guard now new_id new_round each add_recipient put_round round_record
      put_status audit round_text
  start_round command = do
    checked_at ← now env
    guard (ltb checked_at command.response_deadline) ExecutionCode.validation_error
    guard
        (leb command.execution_policy.minimum_valid_quotes (length command.recipient_supplier_ids))
        ExecutionCode.validation_error
    id ← new_id "rfq"
    created_at ← now env
    let dto = new_round env.hash command id created_at
    ids ← each (add_recipient id) command.recipient_supplier_ids
    put_round id (round_record command dto ids)
    put_status command.procurement_request_id "RFQ_DRAFT"
    audit env
        (record {
          event_type = "RFQ_ROUND_CREATED";
          aggregate_type = "rfq_round";
          aggregate_id = id;
          payload = Fields.field "recipient_count" (Value.int (pos (length ids))) Fields.end;
          previous_state = none;
          new_state = some (round_text dto.status);
          origin = "execution_command";
        })
        command.context
    pure (Result.round dto)

  unfoldable pub create_round : CreateRound → Action W Result
  unfolding once operation_of start_round
  create_round command =
      once env (operation_of command.context.tenant_id "rfq.create") command.context.idempotency_key
        (Payload.creating command) (start_round command)

  unfoldable pub get_round_requirements : String → Action W Requirements
  unfolding ◌>>=◌ pure the_round
  get_round_requirements id = do round ← the_round id; pure round.requirements

  -- `_validate_token`, of how `validate` ended.
  unfoldable pub validated : Validation → Action W Claims
  unfolding pure refuse break
  validated (Validation.valid claims) = pure claims
  validated Validation.invalid = refuse ExecutionCode.invalid_response_token
  validated Validation.error = break

  unfoldable pub validate_token : String → String → Action W Claims
  unfolding ◌>>=◌ asks validated now
  validate_token token purpose = do
    time ← now env
    validation ← asks (env.validate token purpose time)
    validated validation

  unfoldable pub get_response_context : String → Action W ResponseContext
  unfolding ◌>>=◌ ◌>>◌ pure guard validate_token the_recipient the_round names_tenant
  get_response_context token = do
    claims ← validate_token token "rfq_response"
    recipient ← the_recipient claims.subject
    round ← the_round recipient.rfq_round_id
    guard (names_tenant claims round.tenant_id) ExecutionCode.invalid_response_token
    pure (record {
      rfq_round_id = recipient.rfq_round_id;
      recipient_id = recipient.recipient_id;
      supplier_id = recipient.supplier_id;
      requirements = round.requirements;
      response_deadline = round.dto.response_deadline;
    })
