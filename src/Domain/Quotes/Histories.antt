-- ===== src/Domain/Quotes/Histories.antt =====
-- What every history of a quote keeps.
use hackathon_open_ai.Value.{Value}
use hackathon_open_ai.Domain.Quotes.Facts.{QuoteFacts, Quote, quote_class}
use hackathon_open_ai.Prelude.{List, [], ◌≡◌}
use hackathon_open_ai.Contracts.{QuoteState, quote_state_enum}
use hackathon_open_ai.Domain.Common.Outcomes.{Moves, moves_rules}
use hackathon_open_ai.Domain.Common.Lifecycle
use hackathon_open_ai.Domain.Common.Lifecycle.{Lifecycle, IsAtomic}
use hackathon_open_ai.Domain.Quotes.Methods.{
  record_opened, save_draft, submit, start_validation, request_clarification, record_clarification,
  mark_valid, start_negotiation, finalize, select, reject, expire,
}
use hackathon_open_ai.Domain.Quotes.Calls.{Call, run}
use hackathon_open_ai.Domain.Quotes.Route.{successors, Backing, Step, step_rules}
use hackathon_open_ai.Domain.Quotes.Validation.{validated_facts-IsChecked}

pub run-Moves : (call : Call) (self : Quote) → Moves Step self (run call self)
unfolding run record_opened save_draft submit start_validation request_clarification
    record_clarification mark_valid start_negotiation finalize select reject expire
run-Moves (Call.record_opened event) self =
    search (moves_rules, step_rules, validated_facts-IsChecked) depth 10
run-Moves _ self = search (moves_rules, step_rules, validated_facts-IsChecked) depth 10

abbrev pub quote_lifecycle : Lifecycle QuoteState QuoteFacts
quote_lifecycle = record {
  class = quote_class;
  Call = Call;
  run = run;
  successors = successors;
  Backing = Backing;
  run-Moves = run-Moves;
}

abbrev pub runs : List Call → Quote → Quote
runs = Lifecycle.runs quote_lifecycle

-- A call that raises leaves the quote exactly as it was, whichever check failed; one that returns
-- moves to a successor of the state, counts the version up by one, and keeps the id and the tenant.
pub quote_call-IsAtomic :
    (call : Call) (self : Quote) → IsAtomic quote_lifecycle self (run call self)
quote_call-IsAtomic = Lifecycle.run-IsAtomic quote_lifecycle

-- In a state that leads nowhere the quote is never changed again, whatever is called.
pub quote_final_states_stay :
    (self : Quote) (calls : List Call) → successors self.state ≡ [] → runs calls self ≡ self
quote_final_states_stay = Lifecycle.final_states_stay quote_lifecycle
