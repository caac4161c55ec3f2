-- ===== src/Domain/Quotes/Route.antt =====
-- The lifecycle of a quote, stated by where each state leads and by what the fields must hold in it,
-- and that each transition of domain/quotes/aggregate.py is a step of it.
use hackathon_open_ai.Prelude.{
  ◌<◌, String, Option, none, some, true, List, [], ◌∷◌, ◌≡◌, ◌≢◌, ◌⊎◌, arith, IsPresent,
}
use hackathon_open_ai.Contracts.{contains, QuoteState, quote_state_enum, quote_state_index}
use hackathon_open_ai.Domain.Common.Lifecycle.{StepOf}
use hackathon_open_ai.Domain.Quotes.Facts.{QuoteFacts, QuoteValidationFacts}

abbrev pub successors : QuoteState → List QuoteState
successors QuoteState.requested = QuoteState.opened ∷ []
successors QuoteState.opened = QuoteState.draft_response ∷ []
successors QuoteState.draft_response = QuoteState.submitted ∷ []
successors QuoteState.submitted = QuoteState.validating ∷ []
successors QuoteState.validating = QuoteState.needs_clarification ∷ QuoteState.valid ∷ []
successors QuoteState.needs_clarification = QuoteState.validating ∷ []
successors QuoteState.valid = QuoteState.negotiating ∷ QuoteState.final ∷ []
successors QuoteState.negotiating = QuoteState.final ∷ []
successors QuoteState.final = QuoteState.selected ∷ QuoteState.rejected ∷ QuoteState.expired ∷ []
successors _ = []

abbrev pub HasOpening : QuoteFacts → Type 0
HasOpening f = IsPresent f.open_event_id

abbrev pub HasSubmission : QuoteFacts → Type 0
HasSubmission f = HasOpening f × IsPresent f.submission_id × IsPresent f.respondent_id

-- The facts behind a valid quote: items, outcomes, a validity that lies ahead, and the respondent of
-- the submission.
abbrev pub IsValidated : QuoteFacts → Option QuoteValidationFacts → Type 0
IsValidated f none = ⊥
IsValidated f (some v) =
    (v.items ≢ [])
    × (v.requirements ≢ [])
    × (v.validated_at < v.valid_until)
    × (f.respondent_id ≡ some v.respondent_id)

abbrev pub HasValidation : QuoteFacts → Type 0
HasValidation f = HasSubmission f × IsValidated f f.validation_facts

-- What `_validated_facts` checks of what it returns.
pub record IsChecked (f : QuoteFacts) (v : QuoteValidationFacts) : Type 0 where
  pub items : v.items ≢ []
  pub requirements : v.requirements ≢ []
  pub later : v.validated_at < v.valid_until
  pub respondent : (f.respondent_id ≡ none) ⊎ (f.respondent_id ≡ some v.respondent_id)

-- What the fields hold in each state.
abbrev pub Backing : QuoteState → QuoteFacts → Type 0
Backing QuoteState.requested f = Unit
Backing QuoteState.opened f = HasOpening f
Backing QuoteState.draft_response f = HasOpening f
Backing QuoteState.submitted f = HasSubmission f
Backing QuoteState.validating f = HasSubmission f
Backing QuoteState.needs_clarification f = HasSubmission f
Backing QuoteState.valid f = HasValidation f
Backing QuoteState.negotiating f = HasValidation f
Backing QuoteState.final f = HasValidation f
Backing QuoteState.selected f = HasValidation f
Backing QuoteState.rejected f = HasValidation f
Backing QuoteState.expired f = HasValidation f

abbrev pub Step : QuoteState → QuoteFacts → QuoteState → QuoteFacts → Type 0
Step = StepOf quote_state_enum successors Backing

-- The test of `_require_state` passed.
abbrev Allowed : List QuoteState → QuoteState → Type 0
Allowed allowed s = contains ⦃e = quote_state_enum⦄ allowed s ≡ true

module _ (s : QuoteState) (f : QuoteFacts) where
  pub Step-to_opened :
      (id : String)
      → Allowed (QuoteState.requested ∷ []) s
      → Step s f QuoteState.opened (record f { open_event_id = some id })
  unfolding contains quote_state_index
  Step-to_opened id h = ground arith

  pub Step-to_draft_response :
      Allowed (QuoteState.opened ∷ []) s → Step s f QuoteState.draft_response f
  unfolding contains quote_state_index
  Step-to_draft_response h = ground arith

  pub Step-to_submitted :
      (id who : String)
      → Allowed (QuoteState.draft_response ∷ []) s
      → Step s f QuoteState.submitted
          (record f { submission_id = some id; respondent_id = some who })
  unfolding contains quote_state_index
  Step-to_submitted id who h = ground arith

  pub Step-to_validating : Allowed (QuoteState.submitted ∷ []) s → Step s f QuoteState.validating f
  unfolding contains quote_state_index
  Step-to_validating h = ground arith

  pub Step-to_needs_clarification :
      Allowed (QuoteState.validating ∷ []) s → Step s f QuoteState.needs_clarification f
  unfolding contains quote_state_index
  Step-to_needs_clarification h = ground arith

  pub Step-to_validating_again :
      (id : String)
      → Allowed (QuoteState.needs_clarification ∷ []) s
      → Step s f QuoteState.validating (record f { submission_id = some id })
  unfolding contains quote_state_index
  Step-to_validating_again id h = ground arith

  pub Step-to_valid :
      (v : QuoteValidationFacts)
      → IsChecked f v
      → Allowed (QuoteState.validating ∷ []) s
      → Step s f QuoteState.valid (record f { validation_facts = some v })
  unfolding contains quote_state_index
  Step-to_valid v c h = ground arith

  pub Step-to_negotiating : Allowed (QuoteState.valid ∷ []) s → Step s f QuoteState.negotiating f
  unfolding contains quote_state_index
  Step-to_negotiating h = ground arith

  pub Step-to_final :
      Allowed (QuoteState.valid ∷ QuoteState.negotiating ∷ []) s → Step s f QuoteState.final f
  unfolding contains quote_state_index
  Step-to_final h = ground arith

  pub Step-to_selected : Allowed (QuoteState.final ∷ []) s → Step s f QuoteState.selected f
  unfolding contains quote_state_index
  Step-to_selected h = ground arith

  pub Step-to_rejected : Allowed (QuoteState.final ∷ []) s → Step s f QuoteState.rejected f
  unfolding contains quote_state_index
  Step-to_rejected h = ground arith

  pub Step-to_expired : Allowed (QuoteState.final ∷ []) s → Step s f QuoteState.expired f
  unfolding contains quote_state_index
  Step-to_expired h = ground arith

pub ruleset step_rules = (
  Step-to_opened, Step-to_draft_response, Step-to_submitted, Step-to_validating,
  Step-to_needs_clarification, Step-to_validating_again, Step-to_valid, Step-to_negotiating,
  Step-to_final, Step-to_selected, Step-to_rejected, Step-to_expired,
)
