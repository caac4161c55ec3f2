-- ===== src/Domain/Approvals/Facts.antt =====
-- domain/approvals/aggregate.py: the attributes of `ApprovalAggregate`, its constructor and its checks.
use hackathon_open_ai.Prelude.{
  ℕ, String, Bool, true, false, not, Option, none, ◌||◌, ◌==◌, str_eq, if◌then◌else◌,
}
use hackathon_open_ai.Value.{Value}
use hackathon_open_ai.Contracts.{ErrorCode, ActorType, ApprovalStatus, approval_status_enum}
use hackathon_open_ai.Domain.Common.{
  Aggregate, AggregateClass, new_aggregate, with_facts, Money, money, Result, ok, err, domain_error,
  ◌>>=◌, require_prefixed_id, require_non_empty, require_positive_int, require_utc,
}

pub record ApprovalFacts : Type 0 where
  pub procurement_request_id : String
  pub quote_id : String
  pub quote_version : ℕ
  pub approved_total : Money
  pub decided_by : Option String
  pub decided_at : Option ℕ
  pub reason : Option String

abbrev pub Approval : Type 0
Approval = Aggregate ApprovalStatus ApprovalFacts

instance abbrev pub approval_class : AggregateClass ApprovalStatus
approval_class = record { aggregate_type = "approval"; enum = approval_status_enum }

-- `__init__`: the base class is initialised before the other arguments are checked.
unfoldable pub create : Value → Value → Value → Value → Value → Value → Result Approval
create approval_id tenant_id procurement_request_id quote_id quote_version approved_total_cents = do
  id ← require_prefixed_id approval_id "approval_id" "apr_"
  root ← new_aggregate id tenant_id ApprovalStatus.requested "APPROVAL_REQUESTED" (tt {0})
  request ← require_prefixed_id procurement_request_id "procurement_request_id" "pr_"
  quote ← require_prefixed_id quote_id "quote_id" "quo_"
  version ← require_positive_int quote_version "quote_version"
  total ← money approved_total_cents "BRL"
  ok (
      with_facts root (record {
        procurement_request_id = request;
        quote_id = quote;
        quote_version = version;
        approved_total = total;
        decided_by = none;
        decided_at = none;
        reason = none;
      }))

-- `actor_type is not ActorType.HUMAN`
abbrev pub is_not_human : ActorType → Bool
is_not_human ActorType.human = false
is_not_human _ = true

-- `_validated_human_decision`
unfoldable pub validated_human_decision : ActorType → Value → Value → Result (String × ℕ)
validated_human_decision actor_type actor_id decided_at =
    if is_not_human actor_type
    then err (domain_error ErrorCode.policy_denied "Only a human actor may decide an approval")
    else (do
      actor ← require_non_empty actor_id "actor_id"
      instant ← require_utc decided_at "decided_at"
      ok (actor, instant))

abbrev pub is_approved : ApprovalStatus → Bool
is_approved ApprovalStatus.approved = true
is_approved _ = false

-- `assert_valid_for`, which changes nothing.
unfoldable pub assert_valid_for : Approval → String → ℕ → Result (Unit {0})
assert_valid_for self quote_id quote_version =
    if not (is_approved self.state)
    then err (domain_error ErrorCode.policy_denied "Award requires an approved human decision")
    else if not (str_eq quote_id self.facts.quote_id)
        || not (quote_version == self.facts.quote_version)
    then err (domain_error ErrorCode.conflict "Approval is bound to a different quote version")
    else ok tt
