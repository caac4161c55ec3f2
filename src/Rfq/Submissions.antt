-- ===== src/Rfq/Submissions.antt =====
-- modules/rfq/service.py: `submit_quote` and `_invalidate_approvals_for_quote`.
use hackathon_open_ai.Prelude.{
  ℕ, ◌+◌, String, Bool, true, false, not, ◌&&◌, ◌||◌, Option, none, some, List, [], ◌∷◌, ◌==◌,
  if◌then◌else◌, str_eq, str_append, member, string_eq, nat_eq, pair_eq, Dict, get,
}
use hackathon_open_ai.Value.{Fields}
use hackathon_open_ai.QuoteRules.Submission.{QuoteValidationResult}
use hackathon_open_ai.Rfq.Contracts.{
  Quote, QuoteStatus, quote_text, is_unclear, Approval, ApprovalStatus, approval_text, is_requested,
  is_approved, Submission, Requirements, Context, ActorType, ResponseContext,
}
use hackathon_open_ai.Rfq.Numerals.{numeral}
use hackathon_open_ai.Rfq.Attributes.{number}
use hackathon_open_ai.Rfq.Store.{RoundRecord}
use hackathon_open_ai.Rfq.Trail.{Entry}

abbrev pub or_else {ℓ} : {A : Type ℓ} → Option A → Option A → Option A
or_else none b = b
or_else (some a) b = some a

-- The requirements with the maximum of the policy, if it has one.
unfoldable pub effective_requirements : RoundRecord → Requirements
effective_requirements round = record (round.requirements) {
  maximum_total_cents =
      or_else round.policy.maximum_total_cents round.requirements.maximum_total_cents;
}

abbrev pub disqualifying_codes : List String
disqualifying_codes =
    "AVAILABILITY_NOT_CONFIRMED" ∷ "BUDGET_LIMIT_EXCEEDED" ∷ "INVOICE_REQUIREMENT_NOT_MET"
    ∷ "VEGETARIAN_REQUIREMENT_NOT_CONFIRMED" ∷ "VEGAN_REQUIREMENT_NOT_CONFIRMED"
    ∷ "GLUTEN_FREE_REQUIREMENT_NOT_CONFIRMED" ∷ "NO_SINGLE_USE_PLASTIC_REQUIREMENT_NOT_MET" ∷ []

-- The risks that are, or are not, among the disqualifying codes.
unfoldable pub risks_that : Bool → List String → List String
unfolding member
risks_that disqualify [] = []
risks_that disqualify (r ∷ rs) =
    let rest = risks_that disqualify rs in
    if member r disqualifying_codes
    then (if disqualify then r ∷ rest else rest)
    else if disqualify
    then rest
    else r ∷ rest

-- Some approval of the quote has an award.
unfoldable pub award_exists : String → Dict String String → Dict String Approval → Bool
unfolding get
award_exists quote awards [] = false
award_exists quote awards ((id, a) ∷ more) =
    (str_eq a.selected_quote.quote_id quote
      && elim (get awards a.approval_id) [ none ↦ false | some award ↦ true ])
    || award_exists quote awards more

unfoldable pub new_quote :
    ResponseContext → Submission → QuoteValidationResult → String → ℕ → ℕ → Quote
unfolding risks_that
new_quote context submission validation id version time = record {
  submission = record submission {
    total_cents = validation.total_cents;
    respondent_contact = "[redacted-after-validation]";
  };
  quote_id = id;
  quote_version = version;
  rfq_round_id = context.rfq_round_id;
  recipient_id = context.recipient_id;
  supplier_id = context.supplier_id;
  status = if validation.eligible then QuoteStatus.final else QuoteStatus.needs_clarification;
  price_per_person_cents = validation.price_per_person_cents;
  eligible = validation.eligible;
  validation_errors = risks_that true validation.risks;
  validation_warnings = risks_that false validation.risks;
  submitted_at = time;
  idempotent_replay = false;
}

unfoldable pub quote_context : RoundRecord → Quote → Context
unfolding numeral
quote_context round q = record {
  tenant_id = round.tenant_id;
  idempotency_key =
      str_append "quote:" (str_append q.quote_id (str_append ":v" (numeral q.quote_version)));
  correlation_id = str_append "cor:" q.rfq_round_id;
  causation_id = none;
  actor_type = ActorType.human;
  actor_id = q.supplier_id;
  agent_run_id = none;
}

abbrev pub status_text : Option Quote → Option String
unfolding quote_text
status_text none = none
status_text (some q) = some (quote_text q.status)

unfoldable pub quote_entry : Option Quote → Quote → String → Fields → String → Entry
unfolding quote_text
quote_entry previous q event payload origin = record {
  event_type = event;
  aggregate_type = "quote";
  aggregate_id = q.quote_id;
  payload = payload;
  previous_state = status_text previous;
  new_state = some (quote_text q.status);
  origin = origin;
}

unfoldable pub was_unclear : Option Quote → Bool
unfolding is_unclear
was_unclear none = false
was_unclear (some q) = is_unclear q.status

-- An open approval of another version of the quote.
unfoldable pub is_outdated : Quote → Approval → Bool
unfolding is_requested is_approved
is_outdated q a =
    str_eq a.selected_quote.quote_id q.quote_id
    && not (a.selected_quote.quote_version == q.quote_version)
    && (is_requested a.status || is_approved a.status)

unfoldable pub invalidated : Approval → Approval
invalidated a = record a {
  approval_version = a.approval_version + 1;
  status = ApprovalStatus.invalidated;
  reason = some "Quote changed after approval was requested";
}

unfoldable pub approval_invalidated : Quote → Approval → Entry
unfolding approval_text
approval_invalidated q a = record {
  event_type = "APPROVAL_INVALIDATED";
  aggregate_type = "approval";
  aggregate_id = a.approval_id;
  payload =
      Fields.field "previous_quote_version" (number a.selected_quote.quote_version)
        (Fields.field "current_quote_version" (number q.quote_version) Fields.end);
  previous_state = some (approval_text a.status);
  new_state = some (approval_text ApprovalStatus.invalidated);
  origin = "quote_resubmission";
}

unfoldable pub any : List Bool → Bool
any [] = false
any (b ∷ bs) = b || any bs
