-- ===== src/Domain/Quotes/Tests.antt =====
-- Runs of a quote on concrete inputs.
use hackathon_open_ai.Domain.Quotes.Facts.{Quote, ValidationInput}
use hackathon_open_ai.Domain.Quotes.Calls.{Call, run}
use hackathon_open_ai.Domain.Quotes.Histories.{quote_lifecycle, runs, quote_call-IsAtomic}
use hackathon_open_ai.Domain.Quotes.Methods
use hackathon_open_ai.Domain.Common.Lifecycle.{IsAtomic}
use hackathon_open_ai.Contracts.{QuoteState}
use hackathon_open_ai.Domain.Common.{require_non_empty, money}
use hackathon_open_ai.Value.{Value, Moment}
use hackathon_open_ai.Prelude.{[], ◌∷◌, List, some, none, pos, true, ◌≡◌, refl}

abbrev fresh : Quote
fresh = record {
  id = "quo_1";
  tenant_id = "ten_1";
  state = QuoteState.requested;
  version = 1;
  pending_events =
      record {
        event_type = "QUOTE_REQUESTED";
        aggregate_type = "quote";
        aggregate_id = "quo_1";
        previous_state = none;
        new_state = some "REQUESTED";
        aggregate_version = 1;
        payload = [];
      }
      ∷ [];
  facts = record {
    procurement_request_id = "pr_1";
    supplier_id = "sup_1";
    rfq_round_id = "rfq_1";
    open_event_id = none;
    submission_id = none;
    respondent_id = none;
    validation_facts = none;
  };
}

abbrev facts : ValidationInput
facts = record {
  total_cents = Value.int (pos 500);
  availability = Value.bool true;
  items = Value.text "bread" ∷ [];
  valid_until = Value.datetime (Moment.aware 20);
  requirements = (Value.text "vegan", Value.text "confirmed") ∷ [];
  respondent_id = Value.text "ana";
  validated_at = Value.datetime (Moment.aware 10);
}

abbrev to_selected : List Call
to_selected =
    Call.record_opened (Value.text "evt_1")
    ∷ Call.save_draft
    ∷ Call.submit (Value.text "sub_1") (Value.text "ana")
    ∷ Call.start_validation
    ∷ Call.mark_valid facts
    ∷ Call.finalize
    ∷ Call.select
    ∷ []

to_selected_selects : (runs to_selected fresh).state ≡ QuoteState.selected
unfolding run Methods.record_opened Methods.save_draft Methods.submit Methods.start_validation
    Methods.mark_valid Methods.finalize Methods.select
    hackathon_open_ai.Domain.Common.Methods.transition hackathon_open_ai.Contracts.contains
    hackathon_open_ai.Contracts.quote_state_index require_non_empty
    hackathon_open_ai.Prelude.is_blank hackathon_open_ai.Domain.Quotes.Facts.validated_facts money
    hackathon_open_ai.Domain.Quotes.Facts.require_bool hackathon_open_ai.Domain.Common.require_each
    hackathon_open_ai.Domain.Quotes.Facts.require_some
    hackathon_open_ai.Domain.Quotes.Facts.require_pairs
    hackathon_open_ai.Domain.Quotes.Facts.require_same_respondent
    hackathon_open_ai.Domain.Common.require_utc hackathon_open_ai.Domain.Quotes.Facts.require_later
to_selected_selects = refl

quote_call-IsAtomic_example : IsAtomic quote_lifecycle fresh (run (Call.mark_valid facts) fresh)
quote_call-IsAtomic_example = quote_call-IsAtomic (Call.mark_valid facts) fresh
