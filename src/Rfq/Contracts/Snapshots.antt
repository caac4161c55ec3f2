-- ===== src/Rfq/Contracts/Snapshots.antt =====
-- modules/rfq/contracts.py: the context of a command and the snapshots that a round freezes, with
-- what their validators demand.
use hackathon_open_ai.Prelude.{
  ℕ, zero, ◌+◌, String, Bool, true, Option, some, List, [], ◌∷◌, leb, ◌==◌, not, ◌&&◌, ◌||◌, member,
}
use hackathon_open_ai.Rfq.Numerals.{Date, Time}
use hackathon_open_ai.Rfq.Contracts.Statuses.{ActorType}

pub record Context : Type 0 where
  pub tenant_id : String
  pub idempotency_key : String
  pub correlation_id : String
  pub causation_id : Option String
  pub actor_type : ActorType
  pub actor_id : String
  pub agent_run_id : Option String

-- `currency` is always "BRL".
pub record Requirements : Type 0 where
  pub description : String
  pub category : String
  pub event_date : Date
  pub delivery_time : Time
  pub timezone : String
  pub location_city : String
  pub location_district : Option String
  pub full_address : Option String
  pub people_count : ℕ
  pub maximum_total_cents : Option ℕ
  pub vegetarian_count : ℕ
  pub vegan_count : ℕ
  pub gluten_free_count : ℕ
  pub invoice_required : Option Bool
  pub no_single_use_plastic : Option Bool
  pub mandatory_requirements : List String

-- `len(value) == len(set(value))`
unfoldable pub unique : List String → Bool
unique [] = true
unique (s ∷ ss) = not (member s ss) && unique ss

-- The validators of `RFQRequirementsSnapshotDTO`.
unfoldable pub requirements_valid : Requirements → Bool
unfolding unique
requirements_valid r =
    leb 1 r.people_count
    && unique r.mandatory_requirements
    && leb r.vegetarian_count r.people_count
    && leb r.vegan_count r.people_count
    && leb r.gluten_free_count r.people_count

pub record Policy : Type 0 where
  pub source_policy_version : ℕ
  pub minimum_confirmed_deliveries : ℕ
  pub minimum_valid_quotes : ℕ
  pub maximum_follow_ups : ℕ
  pub maximum_total_cents : Option ℕ
  pub target_total_cents : Option ℕ
  pub ranking_weights : List (String × ℕ)
  pub negotiation_enabled : Bool
  pub maximum_negotiation_rounds : ℕ
  pub allowed_negotiation_topics : List String
  pub approver_user_id : String

unfoldable pub sum_weights : List (String × ℕ) → ℕ
sum_weights [] = zero
sum_weights ((s, n) ∷ ws) = n + sum_weights ws

unfoldable pub target_fits : Option ℕ → Option ℕ → Bool
target_fits (some target) (some maximum) = leb target maximum
target_fits _ _ = true

-- The validators of `ExecutionPolicySnapshotDTO`; a list of no weights sums to 0.
unfoldable pub policy_valid : Policy → Bool
unfolding sum_weights target_fits
policy_valid p =
    leb 1 p.source_policy_version
    && leb 1 p.minimum_confirmed_deliveries
    && leb 1 p.minimum_valid_quotes
    && sum_weights p.ranking_weights == 100
    && target_fits p.target_total_cents p.maximum_total_cents
    && (p.negotiation_enabled || p.maximum_negotiation_rounds == 0)
