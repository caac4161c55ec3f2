-- ===== src/Domain/Quotes/Facts.antt =====
-- domain/quotes/aggregate.py: the attributes of `QuoteAggregate`, its constructor and the validation
-- of a quote's facts.
use hackathon_open_ai.Prelude.{
  ℕ, String, Bool, Option, none, some, List, [], ◌∷◌, str_eq, if◌then◌else◌, leb,
}
use hackathon_open_ai.Value.{Value}
use hackathon_open_ai.Contracts.{ErrorCode, QuoteState, quote_state_enum}
use hackathon_open_ai.Domain.Common.{
  Aggregate, AggregateClass, new_aggregate, with_facts, Money, money, Result, ok, err, domain_error,
  ◌>>=◌, ◌>>◌, require_prefixed_id, require_non_empty, require_utc, require_each,
}

-- `QuoteValidationFacts`
pub record QuoteValidationFacts : Type 0 where
  pub total : Money
  pub availability : Bool
  pub items : List String
  pub valid_until : ℕ
  pub requirements : List (String × String)
  pub respondent_id : String
  pub validated_at : ℕ

pub record QuoteFacts : Type 0 where
  pub procurement_request_id : String
  pub supplier_id : String
  pub rfq_round_id : String
  pub open_event_id : Option String
  pub submission_id : Option String
  pub respondent_id : Option String
  pub validation_facts : Option QuoteValidationFacts

abbrev pub Quote : Type 0
Quote = Aggregate QuoteState QuoteFacts

instance abbrev pub quote_class : AggregateClass QuoteState
quote_class = record { aggregate_type = "quote"; enum = quote_state_enum }

-- `__init__`: the base class is initialised before the other arguments are checked.
unfoldable pub create : Value → Value → Value → Value → Value → Result Quote
create quote_id tenant_id procurement_request_id supplier_id rfq_round_id = do
  id ← require_prefixed_id quote_id "quote_id" "quo_"
  root ← new_aggregate id tenant_id QuoteState.requested "QUOTE_REQUESTED" (tt {0})
  request ← require_prefixed_id procurement_request_id "procurement_request_id" "pr_"
  supplier ← require_prefixed_id supplier_id "supplier_id" "sup_"
  round ← require_prefixed_id rfq_round_id "rfq_round_id" "rfq_"
  ok (
      with_facts root (record {
        procurement_request_id = request;
        supplier_id = supplier;
        rfq_round_id = round;
        open_event_id = none;
        submission_id = none;
        respondent_id = none;
        validation_facts = none;
      }))

-- The arguments of `mark_valid`. The items and the outcomes are collections of any values.
pub record ValidationInput : Type 0 where
  pub total_cents : Value
  pub availability : Value
  pub items : List Value
  pub valid_until : Value
  pub requirements : List (Value × Value)
  pub respondent_id : Value
  pub validated_at : Value

unfoldable pub require_bool : Value → Result Bool
require_bool (Value.bool b) = ok b
require_bool _ =
    err (domain_error ErrorCode.validation_error "Quote availability must be explicitly provided")

-- `if not collection: raise`
unfoldable pub require_some {ℓ} : {A : Type ℓ} → List A → String → Result (Unit {0})
require_some [] message = err (domain_error ErrorCode.validation_error message)
require_some (x ∷ xs) message = ok tt

-- The comprehension over `requirements.items()`.
unfoldable pub require_pairs : List (Value × Value) → Result (List (String × String))
require_pairs [] = ok []
require_pairs ((key, value) ∷ rest) = do
  let others = require_pairs rest
  k ← require_non_empty key "requirements"
  v ← require_non_empty value "requirements"
  pairs ← others
  ok ((k, v) ∷ pairs)

-- The respondent of the submission, once there is one, is the one who validates.
unfoldable pub require_same_respondent : Option String → String → Result (Unit {0})
require_same_respondent none respondent = ok tt
require_same_respondent (some submitted) respondent =
    if str_eq respondent submitted
    then ok tt
    else err (
        domain_error ErrorCode.conflict
          "Validated quote respondent differs from the real submission")

unfoldable pub require_later : ℕ → ℕ → Result (Unit {0})
require_later valid_until validated_at =
    if leb valid_until validated_at
    then err (domain_error ErrorCode.validation_error "Quote validity must be in the future")
    else ok tt

-- `_validated_facts`
unfoldable pub validated_facts : QuoteFacts → ValidationInput → Result QuoteValidationFacts
validated_facts self input = do
  total ← money input.total_cents "BRL"
  availability ← require_bool input.availability
  items ← require_each input.items "items"
  require_some items "Quote must include at least one item"
  require_some input.requirements "Quote requirement outcomes are required"
  requirements ← require_pairs input.requirements
  respondent ← require_non_empty input.respondent_id "respondent_id"
  require_same_respondent self.respondent_id respondent
  validated_at ← require_utc input.validated_at "validated_at"
  valid_until ← require_utc input.valid_until "valid_until"
  require_later valid_until validated_at
  ok (record {
    total = total;
    availability = availability;
    items = items;
    valid_until = valid_until;
    requirements = requirements;
    respondent_id = respondent;
    validated_at = validated_at;
  })
