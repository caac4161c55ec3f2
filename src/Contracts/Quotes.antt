-- ===== src/Contracts/Quotes.antt =====
-- contracts/common.py: `QuoteState`, with the numbering of the members and its inverse.
use hackathon_open_ai.Prelude.{ℕ, zero, suc, String, Option, none, some, ◌≡◌, refl}
use hackathon_open_ai.Contracts.Enums.{StrEnum, injective_of_inverse}

pub data QuoteState : Type 0 where
  requested opened draft_response submitted : QuoteState
  validating needs_clarification valid negotiating : QuoteState
  final selected rejected expired : QuoteState

unfoldable pub quote_state_value : QuoteState → String
quote_state_value QuoteState.requested = "REQUESTED"
quote_state_value QuoteState.opened = "OPENED"
quote_state_value QuoteState.draft_response = "DRAFT_RESPONSE"
quote_state_value QuoteState.submitted = "SUBMITTED"
quote_state_value QuoteState.validating = "VALIDATING"
quote_state_value QuoteState.needs_clarification = "NEEDS_CLARIFICATION"
quote_state_value QuoteState.valid = "VALID"
quote_state_value QuoteState.negotiating = "NEGOTIATING"
quote_state_value QuoteState.final = "FINAL"
quote_state_value QuoteState.selected = "SELECTED"
quote_state_value QuoteState.rejected = "REJECTED"
quote_state_value QuoteState.expired = "EXPIRED"

unfoldable pub quote_state_index : QuoteState → ℕ
quote_state_index QuoteState.requested = 0
quote_state_index QuoteState.opened = 1
quote_state_index QuoteState.draft_response = 2
quote_state_index QuoteState.submitted = 3
quote_state_index QuoteState.validating = 4
quote_state_index QuoteState.needs_clarification = 5
quote_state_index QuoteState.valid = 6
quote_state_index QuoteState.negotiating = 7
quote_state_index QuoteState.final = 8
quote_state_index QuoteState.selected = 9
quote_state_index QuoteState.rejected = 10
quote_state_index QuoteState.expired = 11

quote_state_of : ℕ → Option QuoteState
quote_state_of zero = some QuoteState.requested
quote_state_of (suc zero) = some QuoteState.opened
quote_state_of (suc (suc zero)) = some QuoteState.draft_response
quote_state_of (suc (suc (suc zero))) = some QuoteState.submitted
quote_state_of (suc (suc (suc (suc zero)))) = some QuoteState.validating
quote_state_of (suc (suc (suc (suc (suc zero))))) = some QuoteState.needs_clarification
quote_state_of (suc (suc (suc (suc (suc (suc zero)))))) = some QuoteState.valid
quote_state_of (suc (suc (suc (suc (suc (suc (suc zero))))))) = some QuoteState.negotiating
quote_state_of (suc (suc (suc (suc (suc (suc (suc (suc zero)))))))) = some QuoteState.final
quote_state_of (suc (suc (suc (suc (suc (suc (suc (suc (suc zero))))))))) = some QuoteState.selected
quote_state_of (suc (suc (suc (suc (suc (suc (suc (suc (suc (suc zero)))))))))) =
    some QuoteState.rejected
quote_state_of (suc (suc (suc (suc (suc (suc (suc (suc (suc (suc (suc zero))))))))))) =
    some QuoteState.expired
quote_state_of _ = none

quote_state_of-index : (s : QuoteState) → quote_state_of (quote_state_index s) ≡ some s
unfolding quote_state_of quote_state_index
quote_state_of-index QuoteState.requested = refl
quote_state_of-index QuoteState.opened = refl
quote_state_of-index QuoteState.draft_response = refl
quote_state_of-index QuoteState.submitted = refl
quote_state_of-index QuoteState.validating = refl
quote_state_of-index QuoteState.needs_clarification = refl
quote_state_of-index QuoteState.valid = refl
quote_state_of-index QuoteState.negotiating = refl
quote_state_of-index QuoteState.final = refl
quote_state_of-index QuoteState.selected = refl
quote_state_of-index QuoteState.rejected = refl
quote_state_of-index QuoteState.expired = refl

pub quote_state_index_injective :
    (s t : QuoteState) → quote_state_index s ≡ quote_state_index t → s ≡ t
quote_state_index_injective =
    injective_of_inverse quote_state_index quote_state_of quote_state_of-index

instance abbrev pub quote_state_enum : StrEnum QuoteState
quote_state_enum = record {
  value = quote_state_value;
  index = quote_state_index;
  index_injective = quote_state_index_injective;
}
