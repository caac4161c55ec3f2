-- ===== src/Domain/Approvals/Histories.antt =====
-- What every history of an approval keeps.
use hackathon_open_ai.Prelude.{List, [], ◌≡◌}
use hackathon_open_ai.Value.{Value}
use hackathon_open_ai.Domain.Approvals.Facts.{ApprovalFacts, Approval, approval_class}
use hackathon_open_ai.Contracts.{ApprovalStatus, approval_status_enum}
use hackathon_open_ai.Domain.Common.Outcomes.{Moves, moves_rules}
use hackathon_open_ai.Domain.Common.Lifecycle
use hackathon_open_ai.Domain.Common.Lifecycle.{Lifecycle, IsAtomic}
use hackathon_open_ai.Domain.Approvals.Methods.{approve, reject, request_changes}
use hackathon_open_ai.Domain.Approvals.Calls.{Call, run}
use hackathon_open_ai.Domain.Approvals.Route.{successors, Backing, Step, step_rules}

pub run-Moves : (call : Call) (self : Approval) → Moves Step self (run call self)
unfolding run approve reject request_changes
run-Moves (Call.approve kind actor at) self = search (moves_rules, step_rules) depth 10
run-Moves _ self = search (moves_rules, step_rules) depth 10

abbrev pub approval_lifecycle : Lifecycle ApprovalStatus ApprovalFacts
approval_lifecycle = record {
  class = approval_class;
  Call = Call;
  run = run;
  successors = successors;
  Backing = Backing;
  run-Moves = run-Moves;
}

abbrev pub runs : List Call → Approval → Approval
runs = Lifecycle.runs approval_lifecycle

-- A call that raises leaves the approval exactly as it was, whichever check failed; one that returns
-- moves to a successor of the state, counts the version up by one, and keeps the id and the tenant.
pub approval_call-IsAtomic :
    (call : Call) (self : Approval) → IsAtomic approval_lifecycle self (run call self)
approval_call-IsAtomic = Lifecycle.run-IsAtomic approval_lifecycle

-- In a state that leads nowhere the approval is never changed again, whatever is called.
pub approval_final_states_stay :
    (self : Approval) (calls : List Call) → successors self.state ≡ [] → runs calls self ≡ self
approval_final_states_stay = Lifecycle.final_states_stay approval_lifecycle
