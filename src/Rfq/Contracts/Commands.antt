-- ===== src/Rfq/Contracts/Commands.antt =====
-- modules/rfq/contracts.py: the commands, and what a supplier submits.
use hackathon_open_ai.Prelude.{ℕ, String, Bool, Option, List, length, leb, ◌&&◌}
use hackathon_open_ai.Rfq.Contracts.Statuses.{DeliveryChannel, DietaryStatus}
use hackathon_open_ai.Rfq.Contracts.Snapshots.{
  Context, Requirements, Policy, unique, requirements_valid, policy_valid,
}

-- A datetime of a DTO is an instant: `_timestamps_are_utc` admits no naive one.
pub record CreateRound : Type 0 where
  pub context : Context
  pub procurement_request_id : String
  pub request_version : ℕ
  pub plan_version : ℕ
  pub recipient_supplier_ids : List String
  pub response_deadline : ℕ
  pub requirements : Requirements
  pub execution_policy : Policy

-- The validators of `CreateRFQRoundCommand` and of its snapshots.
unfoldable pub create_valid : CreateRound → Bool
unfolding unique requirements_valid policy_valid
create_valid c =
    leb 1 (length c.recipient_supplier_ids)
    && unique c.recipient_supplier_ids
    && leb c.execution_policy.minimum_confirmed_deliveries (length c.recipient_supplier_ids)
    && requirements_valid c.requirements
    && policy_valid c.execution_policy

pub record SendRound : Type 0 where
  pub context : Context
  pub rfq_round_id : String
  pub expected_round_version : ℕ
  pub channel : DeliveryChannel

pub record Submission : Type 0 where
  pub availability_confirmed : Bool
  pub subtotal_cents : ℕ
  pub delivery_fee_cents : ℕ
  pub other_fee_cents : ℕ
  pub total_cents : ℕ
  pub included_items : List String
  pub substitutions : List String
  pub invoice_available : Option Bool
  pub vegetarian_status : DietaryStatus
  pub vegan_status : DietaryStatus
  pub gluten_free_status : DietaryStatus
  pub cross_contamination_warning : Option String
  pub no_single_use_plastic_confirmed : Option Bool
  pub valid_until : ℕ
  pub cancellation_terms : String
  pub respondent_name : String
  pub respondent_contact : String
  pub supplier_confirmation : Bool
  pub sustainability_score : ℕ
  pub history_score : ℕ
  pub response_time_minutes : ℕ

pub record QuoteRef : Type 0 where
  pub quote_id : String
  pub quote_version : ℕ

pub record CompareQuotes : Type 0 where
  pub context : Context
  pub procurement_request_id : String
  pub rfq_round_id : String
  pub expected_quote_collection_version : ℕ

pub record RequestApproval : Type 0 where
  pub context : Context
  pub procurement_request_id : String
  pub comparison_id : String
  pub comparison_version : ℕ
  pub selected_quote : QuoteRef
  pub approver_user_id : String

pub record SendAward : Type 0 where
  pub context : Context
  pub procurement_request_id : String
  pub approval_id : String
  pub expected_approval_version : ℕ
