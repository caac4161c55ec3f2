-- ===== src/Rfq/Contracts/Results.antt =====
-- modules/rfq/contracts.py: what the operations return, and the events of the audit trail. A
-- candidate of a comparison is the `ScoreResult` that it is copied from.
use hackathon_open_ai.Prelude.{ℕ, String, Bool, Option, List}
use hackathon_open_ai.Value.{Fields}
use hackathon_open_ai.Scoring.Score.{ScoreResult}
use hackathon_open_ai.Rfq.Numerals.{Date}
use hackathon_open_ai.Rfq.Contracts.Statuses.{
  ActorType, RfqRoundStatus, DeliveryStatus, QuoteStatus, ComparisonStatus, ApprovalStatus,
  AwardStatus, ReservationStatus,
}
use hackathon_open_ai.Rfq.Contracts.Snapshots.{Requirements}
use hackathon_open_ai.Rfq.Contracts.Commands.{Submission, QuoteRef}

pub record Round : Type 0 where
  pub rfq_round_id : String
  pub procurement_request_id : String
  pub request_version : ℕ
  pub round_version : ℕ
  pub status : RfqRoundStatus
  pub recipient_count : ℕ
  pub response_deadline : ℕ
  pub requirements_snapshot_hash : String
  pub policy_snapshot_hash : String
  pub created_at : ℕ
  pub idempotent_replay : Bool

pub record Delivery : Type 0 where
  pub recipient_id : String
  pub rfq_round_id : String
  pub supplier_id : String
  pub channel : String
  pub status : DeliveryStatus
  pub external_id : Option String
  pub delivered_at : Option ℕ
  pub failure_code : Option String

pub record DeliveryBatch : Type 0 where
  pub rfq_round_id : String
  pub round_version : ℕ
  pub deliveries : List Delivery
  pub confirmed_count : ℕ
  pub all_confirmed : Bool
  pub activation_criteria_met : Bool
  pub updated_at : ℕ
  pub idempotent_replay : Bool

pub record ResponseContext : Type 0 where
  pub rfq_round_id : String
  pub recipient_id : String
  pub supplier_id : String
  pub requirements : Requirements
  pub response_deadline : ℕ

-- `QuoteDTO`: the submission, with the total and the redacted contact in it, and the rest. The class
-- declares no `idempotent_replay`: only the copy that a replay makes has it, so it is false before.
pub record Quote : Type 0 where
  pub submission : Submission
  pub quote_id : String
  pub quote_version : ℕ
  pub rfq_round_id : String
  pub recipient_id : String
  pub supplier_id : String
  pub status : QuoteStatus
  pub price_per_person_cents : ℕ
  pub eligible : Bool
  pub validation_errors : List String
  pub validation_warnings : List String
  pub submitted_at : ℕ
  pub idempotent_replay : Bool

pub record QuoteCollection : Type 0 where
  pub rfq_round_id : String
  pub collection_version : ℕ
  pub response_deadline : ℕ
  pub expected_count : ℕ
  pub submitted_count : ℕ
  pub valid_count : ℕ
  pub needs_clarification_count : ℕ
  pub declined_count : ℕ
  pub pending_count : ℕ
  pub ready_for_comparison : Bool
  pub updated_at : ℕ

pub record Comparison : Type 0 where
  pub comparison_id : String
  pub comparison_version : ℕ
  pub procurement_request_id : String
  pub rfq_round_id : String
  pub quote_collection_version : ℕ
  pub status : ComparisonStatus
  pub candidates : List ScoreResult
  pub recommended_quote : Option QuoteRef
  pub input_hash : String
  pub created_at : ℕ
  pub idempotent_replay : Bool

pub record Approval : Type 0 where
  pub approval_id : String
  pub approval_version : ℕ
  pub status : ApprovalStatus
  pub procurement_request_id : String
  pub comparison_id : String
  pub comparison_version : ℕ
  pub selected_quote : QuoteRef
  pub approver_user_id : String
  pub decided_by_user_id : Option String
  pub reason : Option String
  pub requested_at : ℕ
  pub decided_at : Option ℕ
  pub idempotent_replay : Bool

pub record Award : Type 0 where
  pub award_id : String
  pub award_version : ℕ
  pub procurement_request_id : String
  pub supplier_id : String
  pub approved_quote : QuoteRef
  pub approval_id : String
  pub approved_total_cents : ℕ
  pub terms_snapshot_hash : String
  pub accepted_terms_hash : Option String
  pub status : AwardStatus
  pub reservation_status : ReservationStatus
  pub ready_for_contracting : Bool
  pub delivered_at : Option ℕ
  pub responded_at : Option ℕ
  pub updated_at : ℕ
  pub idempotent_replay : Bool

pub record Reservation : Type 0 where
  pub reservation_id : String
  pub award_id : String
  pub supplier_id : String
  pub procurement_request_id : String
  pub event_date : Date
  pub delivery_window : String
  pub people_count : ℕ
  pub status : ReservationStatus
  pub confirmed_by : String
  pub confirmed_at : ℕ

pub record AuditEvent : Type 0 where
  pub event_id : String
  pub tenant_id : String
  pub event_type : String
  pub aggregate_type : String
  pub aggregate_id : String
  pub occurred_at : ℕ
  pub previous_state : Option String
  pub new_state : Option String
  pub correlation_id : String
  pub causation_id : Option String
  pub actor_type : ActorType
  pub actor_id : String
  pub origin : String
  pub agent_run_id : Option String
  pub idempotency_key : String
  pub payload : Fields
