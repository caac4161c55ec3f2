-- ===== src/Rfq/Answers.antt =====
-- modules/rfq/service.py: `accept_award` and `decline_award`.
use hackathon_open_ai.Prelude.{
  ℕ, ◌+◌, String, Bool, not, none, some, str_eq, is_blank, string_eq, get,
}
use hackathon_open_ai.Value.{Value, Fields}
use hackathon_open_ai.Shared.{ExecutionCode, strip}
use hackathon_open_ai.Rfq.Contracts.{Award, AwardStatus, award_delivered}
use hackathon_open_ai.Rfq.Store.{AwardRecord, Result, Payload}
use hackathon_open_ai.Rfq.Environment.{Environment, Claims}
use hackathon_open_ai.Rfq.Actions.{Action, pure, reads, guard, or_break, ◌>>=◌, ◌>>◌}
use hackathon_open_ai.Rfq.Lookups.{put_award, put_status, tenant_for_request}
use hackathon_open_ai.Rfq.Trail.{now, audit}
use hackathon_open_ai.Rfq.Replay.{once, operation_of}
use hackathon_open_ai.Rfq.Rounds.{claim, names_tenant, validate_token}
use hackathon_open_ai.Rfq.Approvals.{human_context}
use hackathon_open_ai.Rfq.Awards.{award_entry}
use hackathon_open_ai.Rfq.Awarding.{get_award_status}

-- `f"{claims.metadata.get('tenant_id')}"`
unfoldable pub claimed_tenant : Claims → String
unfolding claim
claimed_tenant claims = elim (claim claims "tenant_id") [ none ↦ "None" | some t ↦ t ]

unfoldable pub accepted_award : Award → ℕ → ℕ → Award
accepted_award a responded_at time = record a {
  award_version = a.award_version + 1;
  status = AwardStatus.accepted;
  accepted_terms_hash = some a.terms_snapshot_hash;
  responded_at = some responded_at;
  updated_at = time;
}

unfoldable pub declined_award : Award → ℕ → ℕ → Award
declined_award a responded_at time = record a {
  award_version = a.award_version + 1;
  status = AwardStatus.declined;
  responded_at = some responded_at;
  updated_at = time;
}

module _ {W : Type 0} (env : Environment W) where
  -- The award that a token names, asked for anew, which its tenant answers while it is delivered.
  unfoldable pub answerable : Claims → Action W Award
  unfolding ◌>>=◌ ◌>>◌ pure get_award_status tenant_for_request guard names_tenant award_delivered
  answerable claims = do
    current ← get_award_status env claims.subject
    tenant ← tenant_for_request current.procurement_request_id
    guard (names_tenant claims tenant) ExecutionCode.invalid_response_token
    guard (award_delivered current.status) ExecutionCode.invalid_state
    pure current

  -- `self.store.awards[award_id]`
  unfoldable pub stored_award : String → Action W AwardRecord
  unfolding ◌>>=◌ reads or_break get
  stored_award id = do found ← reads (λ s. get s.awards id); or_break found

  -- An answer of the supplier: the award, the status of the request, and the event.
  unfoldable pub record_answer :
      String
      → AwardRecord
      → Award
      → Award
      → String
      → String
      → Fields
      → String
      → String
      → Action W (Unit {0})
  unfolding ◌>>=◌ ◌>>◌ put_award put_status tenant_for_request human_context audit award_entry
  record_answer id entry current updated status event payload key respondent = do
    put_award id (record entry { dto = updated })
    put_status updated.procurement_request_id status
    tenant ← tenant_for_request updated.procurement_request_id
    audit env
        (award_entry event id (some current.status) updated.status payload "supplier_response")
        (human_context tenant key updated.procurement_request_id respondent)

  -- `accept_award` after the replay.
  unfoldable pub accept_delivered : Claims → String → String → Bool → String → Action W Result
  unfolding ◌>>=◌ ◌>>◌ pure guard answerable now accepted_award stored_award record_answer
  accept_delivered claims respondent terms_hash terms_accepted key = do
    current ← answerable claims
    guard terms_accepted ExecutionCode.validation_error
    guard (str_eq terms_hash current.terms_snapshot_hash) ExecutionCode.stale_version
    responded_at ← now env
    time ← now env
    let updated = accepted_award current responded_at time
    entry ← stored_award claims.subject
    record_answer claims.subject (record entry { accepted_by = some respondent }) current updated
        "SUPPLIER_ACCEPTED" "SUPPLIER_ACCEPTED_AWARD" Fields.end key respondent
    pure (Result.award updated)

  unfoldable pub accept_award : String → String → String → Bool → String → Action W Result
  unfolding ◌>>=◌ validate_token once operation_of claimed_tenant accept_delivered
  accept_award token respondent terms_hash terms_accepted key = do
    claims ← validate_token env token "award_response"
    once env (operation_of (claimed_tenant claims) "award.accept") key
        (Payload.accepting claims.subject respondent terms_hash terms_accepted)
        (accept_delivered claims respondent terms_hash terms_accepted key)

  -- `decline_award` after the replay.
  unfoldable pub decline_delivered : Claims → String → String → String → Action W Result
  unfolding ◌>>=◌ ◌>>◌ pure guard is_blank answerable now declined_award stored_award record_answer
      strip
  decline_delivered claims respondent reason key = do
    guard (not (is_blank respondent)) ExecutionCode.validation_error
    guard (not (is_blank reason)) ExecutionCode.validation_error
    current ← answerable claims
    responded_at ← now env
    time ← now env
    let updated = declined_award current responded_at time
    entry ← stored_award claims.subject
    record_answer claims.subject
        (record entry {
          declined_by = some (strip respondent);
          decline_reason = some (strip reason);
        })
        current updated "AWARD_DECLINED" "SUPPLIER_DECLINED_AWARD"
        (Fields.field "reason" (Value.text (strip reason)) Fields.end) key respondent
    pure (Result.award updated)

  unfoldable pub decline_award : String → String → String → String → Action W Result
  unfolding ◌>>=◌ validate_token once operation_of claimed_tenant decline_delivered
  decline_award token respondent reason key = do
    claims ← validate_token env token "award_response"
    once env (operation_of (claimed_tenant claims) "award.decline") key
        (Payload.declining claims.subject respondent reason)
        (decline_delivered claims respondent reason key)
