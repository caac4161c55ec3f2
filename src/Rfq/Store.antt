-- ===== src/Rfq/Store.antt =====
-- modules/rfq/store.py, with the shapes that service.py gives the records in it.
use hackathon_open_ai.Prelude.{ℕ, String, Bool, Option, List, Dict, true}
use hackathon_open_ai.Rfq.Contracts.{
  Requirements, Policy, Submission, QuoteRef, Round, DeliveryBatch, Quote, Comparison, Approval,
  Award, Reservation, AuditEvent, DeliveryStatus, CreateRound, SendRound, CompareQuotes,
  RequestApproval, SendAward,
}
use hackathon_open_ai.Rfq.Numerals.{Date, Time}

pub record RoundRecord : Type 0 where
  pub dto : Round
  pub tenant_id : String
  pub requirements : Requirements
  pub policy : Policy
  pub recipient_ids : List String
  pub collection_version : ℕ

pub record Recipient : Type 0 where
  pub recipient_id : String
  pub rfq_round_id : String
  pub supplier_id : String
  pub channel : String
  pub status : DeliveryStatus
  pub external_id : Option String
  pub delivered_at : Option ℕ
  pub failure_code : Option String
  pub response_token : Option String
  pub quote_id : Option String
  pub delivery_event_emitted : Bool

pub record QuoteRecord : Type 0 where
  pub dto : Quote
  pub submission_hash : String

pub record Terms : Type 0 where
  pub quote_id : String
  pub quote_version : ℕ
  pub supplier_id : String
  pub total_cents : ℕ
  pub included_items : List String
  pub substitutions : List String
  pub cancellation_terms : String
  pub event_date : Date
  pub delivery_time : Time
  pub people_count : ℕ

pub record AwardRecord : Type 0 where
  pub dto : Award
  pub external_id : String
  pub response_token : String
  pub delivery_event_emitted : Bool
  pub accepted_by : Option String
  pub terms_snapshot : Terms
  pub declined_by : Option String
  pub decline_reason : Option String

-- What an operation returns, and a replay of it returns again.
pub data Result : Type 0 where
  round : Round → Result
  batch : DeliveryBatch → Result
  quote : Quote → Result
  comparison : Comparison → Result
  approval : Approval → Result
  award : Award → Result

-- `result.model_copy(update={"idempotent_replay": True})`, of every kind of result.
unfoldable pub replayed : Result → Result
replayed (Result.round r) = Result.round (record r { idempotent_replay = true })
replayed (Result.batch b) = Result.batch (record b { idempotent_replay = true })
replayed (Result.quote q) = Result.quote (record q { idempotent_replay = true })
replayed (Result.comparison c) = Result.comparison (record c { idempotent_replay = true })
replayed (Result.approval a) = Result.approval (record a { idempotent_replay = true })
replayed (Result.award a) = Result.award (record a { idempotent_replay = true })

pub record Store : Type 0 where
  pub rounds : Dict String RoundRecord
  pub recipients : Dict String Recipient
  pub quotes : Dict String QuoteRecord
  pub quote_versions : Dict (String × ℕ) Quote
  pub comparisons : Dict String Comparison
  pub approvals : Dict String Approval
  pub awards : Dict String AwardRecord
  pub award_by_approval_id : Dict String String
  pub reservations : Dict String Reservation
  pub reservation_by_award_id : Dict String String
  pub procurement_status : Dict String String
  pub idempotency : Dict (String × String) (String × Result)
  pub audit_events : List AuditEvent
  pub id_counters : Dict String ℕ

-- What is hashed: a command, the arguments of a call, a snapshot.
pub data Payload : Type 0 where
  creating : CreateRound → Payload
  sending : SendRound → Payload
  comparing : CompareQuotes → Payload
  requesting : RequestApproval → Payload
  awarding : SendAward → Payload
  submitting : String → Submission → Payload
  deciding : String → String → String → Bool → Option String → Payload
  accepting : String → String → String → Bool → Payload
  declining : String → String → String → Payload
  reserving : String → String → String → ℕ → String → Payload
  requirements : Requirements → Payload
  policy : Policy → Payload
  submission : Submission → Payload
  quotes : List QuoteRef → Payload
  terms : Terms → Payload
