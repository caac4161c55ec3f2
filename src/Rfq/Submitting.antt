-- ===== src/Rfq/Submitting.antt =====
-- modules/rfq/service.py: the steps of `submit_quote`.
use hackathon_open_ai.Rfq.Submissions.{
  any, effective_requirements, award_exists, new_quote, quote_context, quote_entry, was_unclear,
  is_outdated, invalidated, approval_invalidated,
}
use hackathon_open_ai.Rfq.Actions.{
  each, Action, pure, reads, guard, when, or_break, or_refuse, calls, checked, ◌>>=◌, ◌>>◌,
}
use hackathon_open_ai.Prelude.{
  ℕ, ◌+◌, String, Bool, true, false, not, Option, none, some, ltb, if◌then◌else◌, str_eq, string_eq,
  nat_eq, pair_eq, get,
}
use hackathon_open_ai.Value.{Value, Fields, Moment}
use hackathon_open_ai.Shared.{ExecutionCode}
use hackathon_open_ai.QuoteRules.Submission.{QuoteValidationResult, validate_quote_submission}
use hackathon_open_ai.Rfq.Contracts.{
  Quote, is_final, Approval, Submission, Context, ResponseContext, is_delivered,
}
use hackathon_open_ai.Rfq.Attributes.{number, texts, submission_fields, requirements_fields}
use hackathon_open_ai.Rfq.Store.{Recipient, QuoteRecord, Result, Payload}
use hackathon_open_ai.Rfq.Environment.{Environment}
use hackathon_open_ai.Rfq.Lookups.{
  the_round, the_recipient, put_round, put_recipient, put_quote, put_quote_version, put_approval,
  put_status,
}
use hackathon_open_ai.Rfq.Trail.{now, new_id, audit}
use hackathon_open_ai.Rfq.Replay.{once_if, operation_of}
use hackathon_open_ai.Rfq.Rounds.{get_response_context}
use hackathon_open_ai.Rfq.Deliveries.{given}

module _ {W : Type 0} (env : Environment W) where
  unfoldable pub invalidate_if : Quote → Context → String → Approval → Bool → Action W Bool
  unfolding ◌>>◌ pure put_approval invalidated audit approval_invalidated
  invalidate_if q context id a false = pure false
  invalidate_if q context id a true = do
    put_approval id (invalidated a)
    audit env (approval_invalidated q a) context
    pure true

  -- `_invalidate_approvals_for_quote`
  unfoldable pub invalidate_approvals : Quote → Context → Action W (Unit {0})
  unfolding ◌>>=◌ ◌>>◌ reads when each invalidate_if is_outdated any the_round put_status
  invalidate_approvals q context = do
    approvals ← reads (λ s. s.approvals)
    changes ← each (λ (id, a). invalidate_if q context id a (is_outdated q a)) approvals
    when (any changes) (
        the_round q.rfq_round_id >>= λ round.
        put_status round.dto.procurement_request_id "AWAITING_COMPARISON")

  -- The events of a submission.
  unfoldable pub audit_quote : Option Quote → Quote → Context → Action W (Unit {0})
  unfolding ◌>>◌ audit quote_entry when texts was_unclear is_final
  audit_quote previous q context = do
    audit env
        (quote_entry previous q "QUOTE_SUBMITTED"
          (Fields.field "version" (number q.quote_version) Fields.end) "supplier_response")
        context
    audit env
        (quote_entry previous q
          (if q.eligible then "QUOTE_VALIDATED" else "QUOTE_NEEDS_CLARIFICATION")
          (Fields.field "errors" (Value.list (texts q.validation_errors)) Fields.end)
          "quote_validation")
        context
    when (was_unclear previous) (
        audit env
          (quote_entry previous q "CLARIFICATION_ANSWERED"
            (Fields.field "quote_version" (number q.quote_version)
              (Fields.field "resolved" (Value.bool (is_final q.status)) Fields.end))
            "supplier_response")
          context)

  -- The quote that was there before, if any, is superseded.
  unfoldable pub supersede : Option Quote → Quote → Context → Action W (Unit {0})
  unfolding pure invalidate_approvals
  supersede none q context = pure tt
  supersede (some previous) q context = invalidate_approvals q context

  unfoldable pub store_quote :
      ResponseContext
      → Submission
      → Recipient
      → QuoteValidationResult
      → Option Quote
      → String
      → ℕ
      → Action W Result
  unfolding ◌>>=◌ ◌>>◌ pure new_quote now put_quote put_quote_version put_recipient the_round
      put_round quote_context audit_quote supersede
  store_quote context submission recipient validation previous id version = do
    time ← now env
    let q = new_quote context submission validation id version time
    put_quote id (record { dto = q; submission_hash = env.hash (Payload.submission submission) })
    put_quote_version id version q
    put_recipient context.recipient_id (record recipient { quote_id = some id })
    round ← the_round context.rfq_round_id
    put_round context.rfq_round_id
        (record round { collection_version = round.collection_version + 1 })
    audit_quote previous q (quote_context round q)
    supersede previous q (quote_context round q)
    pure (Result.quote q)

  -- What happens to a quote that is there already.
  unfoldable pub change_quote :
      ResponseContext
      → Submission
      → Recipient
      → QuoteValidationResult
      → QuoteRecord
      → Bool
      → Action W Result
  unfolding ◌>>=◌ ◌>>◌ pure guard reads award_exists store_quote
  change_quote context submission recipient validation existing true =
      pure (Result.quote existing.dto)
  change_quote context submission recipient validation existing false = do
    awarded ← reads (λ s. award_exists existing.dto.quote_id s.award_by_approval_id s.approvals)
    guard (not awarded) ExecutionCode.invalid_state
    store_quote context submission recipient validation (some existing.dto) existing.dto.quote_id
        (existing.dto.quote_version + 1)

  unfoldable pub add_quote :
      ResponseContext
      → Submission
      → Recipient
      → QuoteValidationResult
      → Option QuoteRecord
      → Action W Result
  unfolding ◌>>=◌ new_id store_quote change_quote
  add_quote context submission recipient validation none = do
    id ← new_id "quote"
    store_quote context submission recipient validation none id 1
  add_quote context submission recipient validation (some existing) =
      change_quote context submission recipient validation existing
        (str_eq existing.submission_hash (env.hash (Payload.submission submission)))

  -- `quotes.get(recipient["quote_id"]) if recipient["quote_id"] else None`
  unfoldable pub existing_quote : Option String → Action W (Option QuoteRecord)
  unfolding pure reads get
  existing_quote none = pure none
  existing_quote (some id) = reads λ s. get s.quotes id

  -- `submit_quote` after the replay.
  unfoldable pub take_quote : ResponseContext → Submission → Action W Result
  unfolding ◌>>=◌ ◌>>◌ guard the_recipient or_refuse calls or_break is_delivered now the_round
      checked validate_quote_submission submission_fields requirements_fields effective_requirements
      existing_quote given add_quote
  take_quote context submission = do
    recipient ← the_recipient context.recipient_id
    external_id ← or_refuse ExecutionCode.invalid_state recipient.external_id
    status ← calls (env.get_status external_id)
    delivery ← or_break status
    guard (is_delivered delivery.status) ExecutionCode.invalid_state
    responded_at ← now env
    guard (ltb responded_at context.response_deadline) ExecutionCode.quote_expired
    round ← the_round context.rfq_round_id
    time ← now env
    validation ← checked (
        validate_quote_submission (submission_fields submission)
          (requirements_fields (effective_requirements round)) (Value.datetime (Moment.aware time)))
    existing ← existing_quote (given recipient.quote_id)
    add_quote context submission recipient validation existing

  unfoldable pub submit_quote : String → Submission → Option String → Action W Result
  unfolding ◌>>=◌ get_response_context the_round once_if operation_of take_quote
  submit_quote token submission key = do
    context ← get_response_context env token
    round ← the_round context.rfq_round_id
    once_if env (operation_of round.tenant_id "quote.submit") key
        (Payload.submitting context.recipient_id submission) (take_quote context submission)
