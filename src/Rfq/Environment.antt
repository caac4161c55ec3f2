-- ===== src/Rfq/Environment.antt =====
-- What service.py is constructed with: the clock, the gateway (modules/messaging/gateway.py) and the
-- tokens, over a world that they change; and the functions it calls that are not its own.
use hackathon_open_ai.Prelude.{ℕ, String, Option, List}
use hackathon_open_ai.Value.{Value}
use hackathon_open_ai.Rfq.Contracts.{DeliveryState}
use hackathon_open_ai.Rfq.Numerals.{Date}
use hackathon_open_ai.Rfq.Store.{Payload}

pub record OutboundMessage : Type 0 where
  pub idempotency_key : String
  pub recipient_id : String
  pub supplier_id : String
  pub channel : String
  pub message_type : String
  pub body : String
  pub response_token : String
  pub metadata : List (String × String)

pub record SendResult : Type 0 where
  pub external_id : String
  pub status : DeliveryState

pub record GatewayStatus : Type 0 where
  pub status : DeliveryState
  pub delivered_at : Option ℕ
  pub failure_reason : Option String

-- How `send` ends: `conflict` is `GatewayIdempotencyConflict`, `error` any other exception.
pub data Sending : Type 0 where
  sent : SendResult → Sending
  conflict : Sending
  error : Sending

-- What a token says of its subject; `metadata` holds texts.
pub record Claims : Type 0 where
  pub subject : String
  pub metadata : List (String × String)

-- How `validate` ends: `invalid` is a `TokenValidationError`, `error` any other exception.
pub data Validation : Type 0 where
  valid : Claims → Validation
  invalid : Validation
  error : Validation

pub record Environment (W : Type 0) : Type 0 where
  pub now : W → ℕ × W
  pub send : OutboundMessage → W → Sending × W
  -- `none` is an exception
  pub get_status : String → W → Option GatewayStatus × W
  -- `issue(purpose, subject, expires_at, metadata)`; `none` is an exception
  pub issue : String → String → Option ℕ → List (String × String) → W → Option String × W
  -- `validate(token, purpose, now)`
  pub validate : String → String → ℕ → W → Validation
  -- `payload_hash`
  pub hash : Payload → String
  -- `date.fromisoformat`
  pub parse_date : String → Option Date
  -- `str` of a value that is not a text
  pub str : Value → String
