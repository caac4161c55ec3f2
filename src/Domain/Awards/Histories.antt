-- ===== src/Domain/Awards/Histories.antt =====
-- What every history of an award keeps.
use hackathon_open_ai.Prelude.{List, [], ◌≡◌}
use hackathon_open_ai.Value.{Value}
use hackathon_open_ai.Domain.Awards.Facts.{AwardFacts, Award, award_class}
use hackathon_open_ai.Contracts.{AwardStatus, award_status_enum}
use hackathon_open_ai.Domain.Common.Outcomes.{Moves, moves_rules}
use hackathon_open_ai.Domain.Common.Lifecycle
use hackathon_open_ai.Domain.Common.Lifecycle.{Lifecycle, IsAtomic}
use hackathon_open_ai.Domain.Awards.Methods.{confirm_delivery, accept, decline}
use hackathon_open_ai.Domain.Awards.Calls.{Call, run}
use hackathon_open_ai.Domain.Awards.Route.{successors, Backing, Step, step_rules}

pub run-Moves : (call : Call) (self : Award) → Moves Step self (run call self)
unfolding run confirm_delivery accept decline
run-Moves (Call.confirm_delivery ack at) self = search (moves_rules, step_rules) depth 10
run-Moves _ self = search (moves_rules, step_rules) depth 10

abbrev pub award_lifecycle : Lifecycle AwardStatus AwardFacts
award_lifecycle = record {
  class = award_class;
  Call = Call;
  run = run;
  successors = successors;
  Backing = Backing;
  run-Moves = run-Moves;
}

abbrev pub runs : List Call → Award → Award
runs = Lifecycle.runs award_lifecycle

-- A call that raises leaves the award exactly as it was, whichever check failed; one that returns
-- moves to a successor of the state, counts the version up by one, and keeps the id and the tenant.
pub award_call-IsAtomic :
    (call : Call) (self : Award) → IsAtomic award_lifecycle self (run call self)
award_call-IsAtomic = Lifecycle.run-IsAtomic award_lifecycle

-- In a state that leads nowhere the award is never changed again, whatever is called.
pub award_final_states_stay :
    (self : Award) (calls : List Call) → successors self.state ≡ [] → runs calls self ≡ self
award_final_states_stay = Lifecycle.final_states_stay award_lifecycle
