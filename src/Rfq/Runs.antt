-- ===== src/Rfq/Runs.antt =====
-- A run of modules/rfq: one supplier's quote, approved, awarded, accepted and reserved.
-- The environment: a clock that counts, a gateway that delivers, tokens that are their subject.
use hackathon_open_ai.Rfq.Reservations.{Booking, EventDate}
use hackathon_open_ai.Prelude.{
  ◌++◌, ℕ, suc, String, true, false, none, some, List, [], ◌∷◌, str_append, string_eq, pair_eq,
}
use hackathon_open_ai.Rfq.Contracts.{
  ComparisonStatus, Comparison, CompareQuotes, Approval, ApprovalStatus, Award, AwardStatus,
  ReservationStatus, Context, ActorType, Requirements, Policy, Submission, DietaryStatus,
  DeliveryState, DeliveryChannel, QuoteRef, CreateRound, SendAward,
}
use hackathon_open_ai.Rfq.Store.{AwardRecord, Payload}
use hackathon_open_ai.Rfq.Actions.{Session}
use hackathon_open_ai.Rfq.Calls.{Call}
use hackathon_open_ai.Rfq.Environment.{Environment, Sending, Validation}

abbrev pub hash : Payload → String
hash (Payload.awarding c) = str_append "award:" c.approval_id
hash (Payload.terms t) = "terms"
hash p = "other"

abbrev pub env : Environment ℕ
env = record {
  now = λ w. (w, suc w);
  send = λ m w. (Sending.sent record { external_id = "x"; status = DeliveryState.delivered }, w);
  get_status = λ id w. (
    some
        (record { status = DeliveryState.delivered; delivered_at = some 1; failure_reason = none }),
    w,
  );
  issue = λ purpose subject expires metadata w. (some subject, w);
  validate = λ token purpose now w.
      Validation.valid (record { subject = token; metadata = ("tenant_id", "t") ∷ [] });
  hash = hash;
  parse_date = λ s. none;
  str = λ v. "";
}

abbrev pub context : String → Context
context key = record {
  tenant_id = "t";
  idempotency_key = key;
  correlation_id = "c";
  causation_id = none;
  actor_type = ActorType.agent;
  actor_id = "agent";
  agent_run_id = none;
}

abbrev pub lunch : Requirements
lunch = record {
  description = "lunch";
  category = "catering";
  event_date = record { year = 2026; month = 12; day = 1 };
  delivery_time = record { hour = 12; minute = 30; second = 0; microsecond = 0 };
  timezone = "UTC";
  location_city = "São Paulo";
  location_district = none;
  full_address = none;
  people_count = 40;
  maximum_total_cents = some 200000;
  vegetarian_count = 0;
  vegan_count = 0;
  gluten_free_count = 0;
  invoice_required = none;
  no_single_use_plastic = none;
  mandatory_requirements = [];
}

abbrev pub policy : Policy
policy = record {
  source_policy_version = 1;
  minimum_confirmed_deliveries = 1;
  minimum_valid_quotes = 1;
  maximum_follow_ups = 0;
  maximum_total_cents = none;
  target_total_cents = none;
  ranking_weights = ("price", 100) ∷ [];
  negotiation_enabled = false;
  maximum_negotiation_rounds = 0;
  allowed_negotiation_topics = [];
  approver_user_id = "boss";
}

abbrev pub submission : Submission
submission = record {
  availability_confirmed = true;
  subtotal_cents = 100000;
  delivery_fee_cents = 5000;
  other_fee_cents = 0;
  total_cents = 105000;
  included_items = "lunch" ∷ [];
  substitutions = [];
  invoice_available = some true;
  vegetarian_status = DietaryStatus.confirmed;
  vegan_status = DietaryStatus.unknown;
  gluten_free_status = DietaryStatus.unknown;
  cross_contamination_warning = none;
  no_single_use_plastic_confirmed = none;
  valid_until = 900;
  cancellation_terms = "none";
  respondent_name = "Ana";
  respondent_contact = "ana@example.com";
  supplier_confirmation = true;
  sustainability_score = 0;
  history_score = 0;
  response_time_minutes = 5;
}

abbrev pub quote_ref : QuoteRef
quote_ref = record { quote_id = "quote_0001"; quote_version = 1 }

abbrev pub create : CreateRound
create = record {
  context = context "create";
  procurement_request_id = "p";
  request_version = 1;
  plan_version = 1;
  recipient_supplier_ids = "s" ∷ [];
  response_deadline = 800;
  requirements = lunch;
  execution_policy = policy;
}

abbrev pub award : SendAward
award = record {
  context = context "award";
  procurement_request_id = "p";
  approval_id = "approval_0001";
  expected_approval_version = 2;
}

-- The calls up to the approval.
abbrev pub quoted : List Call
quoted =
    Call.create create
    ∷ Call.dispatch (record {
      context = context "send";
      rfq_round_id = "rfq_0001";
      expected_round_version = 1;
      channel = DeliveryChannel.email;
    })
    ∷ Call.submit "recipient_0001" submission none
    ∷ []

abbrev pub comparing : CompareQuotes
comparing = record {
  context = context "compare";
  procurement_request_id = "p";
  rfq_round_id = "rfq_0001";
  expected_quote_collection_version = 1;
}

abbrev pub approved : List Call
approved =
    quoted
    ++ Call.compare comparing
      ∷ Call.request (record {
        context = context "request";
        procurement_request_id = "p";
        comparison_id = "comparison_0001";
        comparison_version = 1;
        selected_quote = quote_ref;
        approver_user_id = "boss";
      })
      ∷ Call.settle "approval_0001" "human" "boss" true "decide" none
      ∷ []

abbrev pub empty : Session ℕ
empty = record {
  store = record {
    rounds = [];
    recipients = [];
    quotes = [];
    quote_versions = [];
    comparisons = [];
    approvals = [];
    awards = [];
    award_by_approval_id = [];
    reservations = [];
    reservation_by_award_id = [];
    procurement_status = [];
    idempotency = [];
    audit_events = [];
    id_counters = [];
  };
  world = 100;
}

abbrev pub granted : Approval
granted = record {
  approval_id = "approval_0001";
  approval_version = 2;
  status = ApprovalStatus.approved;
  procurement_request_id = "p";
  comparison_id = "comparison_0001";
  comparison_version = 1;
  selected_quote = quote_ref;
  approver_user_id = "boss";
  decided_by_user_id = some "boss";
  reason = none;
  requested_at = 117;
  decided_at = some 120;
  idempotent_replay = false;
}

-- The award, as it is sent.
abbrev pub sent : Award
sent = record {
  award_id = "award_0001";
  award_version = 1;
  procurement_request_id = "p";
  supplier_id = "s";
  approved_quote = quote_ref;
  approval_id = "approval_0001";
  approved_total_cents = 105000;
  terms_snapshot_hash = "terms";
  accepted_terms_hash = none;
  status = AwardStatus.delivered;
  reservation_status = ReservationStatus.not_created;
  ready_for_contracting = false;
  delivered_at = some 123;
  responded_at = none;
  updated_at = 124;
  idempotent_replay = false;
}

abbrev pub entry : AwardRecord
entry = record {
  dto = sent;
  external_id = "x";
  response_token = "award_0001";
  delivery_event_emitted = true;
  accepted_by = none;
  terms_snapshot = record {
    quote_id = "quote_0001";
    quote_version = 1;
    supplier_id = "s";
    total_cents = 105000;
    included_items = "lunch" ∷ [];
    substitutions = [];
    cancellation_terms = "none";
    event_date = lunch.event_date;
    delivery_time = lunch.delivery_time;
    people_count = 40;
  };
  declined_by = none;
  decline_reason = none;
}

-- The run goes on to the reservation.
abbrev pub accepted : List Call
accepted = approved ++ Call.award award ∷ Call.accept "award_0001" "Ana" "terms" true "accept" ∷ []

abbrev pub booking : Booking
booking = record {
  event_date = EventDate.date lunch.event_date;
  delivery_window = "12:30";
  people_count = 40;
  confirmed_by = "Ana";
}

abbrev pub contracted : List Call
contracted = accepted ++ Call.reserve "award_0001" booking "reserve" ∷ []

abbrev pub reserved : AwardRecord
reserved = record entry {
  dto = record sent {
    award_version = 3;
    accepted_terms_hash = some "terms";
    status = AwardStatus.accepted;
    reservation_status = ReservationStatus.confirmed;
    ready_for_contracting = true;
    responded_at = some 128;
    updated_at = 132;
  };
  accepted_by = some "Ana";
}

abbrev pub answered : AwardRecord
answered = record entry {
  dto = record sent {
    award_version = 2;
    accepted_terms_hash = some "terms";
    status = AwardStatus.accepted;
    responded_at = some 128;
    updated_at = 129;
  };
  accepted_by = some "Ana";
}

-- The command, for another approval.
abbrev pub other : SendAward
other = record award { approval_id = "approval_0002" }

abbrev pub answer : List Call
answer = Call.accept "award_0001" "Ana" "terms" true "answer" ∷ []

abbrev pub compared : Comparison
compared = record {
  comparison_id = "comparison_0001";
  comparison_version = 1;
  procurement_request_id = "p";
  rfq_round_id = "rfq_0001";
  quote_collection_version = 1;
  status = ComparisonStatus.ready;
  candidates =
      record {
        quote_id = "quote_0001";
        quote_version = 1;
        supplier_id = "s";
        eligible = true;
        total_cents = 105000;
        price_per_person_cents = 2625;
        score_basis_points = 10000;
        components =
            record {
              criterion = "price";
              weight = 100;
              normalized_score_basis_points = 10000;
              points_basis_points = 10000;
              evidence_refs = [];
            }
            ∷ [];
        disqualification_reasons = [];
        risks = [];
      }
      ∷ [];
  recommended_quote = some quote_ref;
  input_hash = "other";
  created_at = 114;
  idempotent_replay = false;
}
