-- ===== src/Domain/Awards/Facts.antt =====
-- domain/awards/aggregate.py: the attributes of `AwardAggregate`, its constructor and its checks.
use hackathon_open_ai.Prelude.{
  ℕ, String, Bool, true, false, not, Option, none, some, ◌||◌, str_eq, if◌then◌else◌, is_blank,
}
use hackathon_open_ai.Value.{Value, Fields}
use hackathon_open_ai.Contracts.{ErrorCode, AwardStatus, award_status_enum}
use hackathon_open_ai.Domain.Common.{
  Aggregate, AggregateClass, new_aggregate, with_facts, Result, ok, err, domain_error, ◌>>=◌, ◌>>◌,
  require_prefixed_id, require_non_empty, require_utc, compare_digest,
}
use hackathon_open_ai.Domain.Approvals.{Approval, assert_valid_for}

pub record AwardFacts : Type 0 where
  pub procurement_request_id : String
  pub supplier_id : String
  pub approval_id : String
  pub approved_quote_id : String
  pub approved_quote_version : ℕ
  pub approved_total_cents : ℕ
  pub terms_snapshot : Fields
  pub terms_hash : String
  pub delivery_ack_id : Option String
  pub sent_at : Option ℕ
  pub response_submission_id : Option String
  pub respondent_id : Option String
  pub responded_at : Option ℕ

abbrev pub Award : Type 0
Award = Aggregate AwardStatus AwardFacts

instance abbrev pub award_class : AggregateClass AwardStatus
award_class = record { aggregate_type = "award"; enum = award_status_enum }

-- `json.dumps` with sorted keys, `json.loads` and `hashlib.sha256` on a mapping: the snapshot that
-- is read back and the digest of its text, or nothing where `dumps` raises.
abbrev pub Canonical : Type 0
Canonical = Fields → Option (Fields × String)

-- `_canonical_snapshot`
unfoldable pub canonical_snapshot : Canonical → Fields → Result (Fields × String)
canonical_snapshot canonical Fields.end =
    err (domain_error ErrorCode.validation_error "Award terms snapshot is required")
canonical_snapshot canonical (Fields.field key value rest) =
    elim (canonical (Fields.field key value rest)) [
      | none ↦
          err (
            domain_error ErrorCode.validation_error
              "Award terms snapshot must be JSON serializable")
      | some snapshot ↦ ok snapshot
    ]

-- `approval.tenant_id != tenant_id`, negated: the other side is any value.
unfoldable pub is_value : Value → String → Bool
is_value (Value.text t) s = str_eq t s
is_value _ s = false

-- `_validate_approval_scope`
unfoldable pub validate_approval_scope : Approval → Value → String → Result (Unit {0})
unfolding is_value
validate_approval_scope approval tenant_id procurement_request_id =
    if not (is_value tenant_id approval.tenant_id)
      || not (str_eq approval.facts.procurement_request_id procurement_request_id)
    then err (
        domain_error ErrorCode.policy_denied
          "Approval and award must share tenant and procurement request")
    else ok tt

-- `__init__`
unfoldable pub create : Canonical → Value → Value → Value → Value → Approval → Fields → Result Award
create canonical award_id tenant_id procurement_request_id supplier_id approval terms_snapshot = do
  request ← require_prefixed_id procurement_request_id "procurement_request_id" "pr_"
  validate_approval_scope approval tenant_id request
  assert_valid_for approval approval.facts.quote_id approval.facts.quote_version
  snapshot ← canonical_snapshot canonical terms_snapshot
  id ← require_prefixed_id award_id "award_id" "awd_"
  root ← new_aggregate id tenant_id AwardStatus.created "AWARD_CREATED" (tt {0})
  supplier ← require_prefixed_id supplier_id "supplier_id" "sup_"
  ok (
      with_facts root (record {
        procurement_request_id = request;
        supplier_id = supplier;
        approval_id = approval.id;
        approved_quote_id = approval.facts.quote_id;
        approved_quote_version = approval.facts.quote_version;
        approved_total_cents = approval.facts.approved_total.cents;
        terms_snapshot = snapshot.0;
        terms_hash = snapshot.1;
        delivery_ack_id = none;
        sent_at = none;
        response_submission_id = none;
        respondent_id = none;
        responded_at = none;
      }))

-- The acknowledgement that `confirm_delivery` demands.
unfoldable pub require_ack : Value → Result String
require_ack (Value.text delivery_ack_id) =
    if is_blank delivery_ack_id
    then err (
        domain_error ErrorCode.external_delivery_not_confirmed
          "Award cannot be sent without a delivery acknowledgement")
    else ok delivery_ack_id
require_ack _ = err (
    domain_error ErrorCode.external_delivery_not_confirmed
      "Award cannot be sent without a delivery acknowledgement")

-- `_validated_response`
unfoldable pub validated_response : Value → Value → Value → Result (String × String × ℕ)
validated_response submission_id respondent_id submitted_at = do
  submission ← require_non_empty submission_id "submission_id"
  respondent ← require_non_empty respondent_id "respondent_id"
  instant ← require_utc submitted_at "submitted_at"
  ok (submission, respondent, instant)

-- `explicit_confirmation is not True`
abbrev pub is_not_true : Value → Bool
is_not_true (Value.bool true) = false
is_not_true _ = true

-- The hash test of `accept`.
unfoldable pub require_terms : Value → String → Result (Unit {0})
require_terms (Value.text displayed) terms_hash = do
  same ← compare_digest displayed terms_hash
  if same
      then ok tt
      else err
          (domain_error ErrorCode.link_invalid "Accepted terms do not match the awarded snapshot")
require_terms _ terms_hash =
    err (domain_error ErrorCode.link_invalid "Accepted terms do not match the awarded snapshot")
