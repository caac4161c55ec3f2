-- ===== src/Domain/Suppliers/Histories.antt =====
-- What every history of a supplier keeps.
use hackathon_open_ai.Prelude.{List, [], ◌≡◌, All-present}
use hackathon_open_ai.Value.{Value}
use hackathon_open_ai.Domain.Suppliers.Facts.{SupplierFacts, Supplier, supplier_class}
use hackathon_open_ai.Contracts.{SupplierState, supplier_state_enum}
use hackathon_open_ai.Domain.Common.Outcomes.{Moves, moves_rules}
use hackathon_open_ai.Domain.Common.Lifecycle
use hackathon_open_ai.Domain.Common.Lifecycle.{Lifecycle, IsAtomic}
use hackathon_open_ai.Domain.Suppliers.Methods.{
  record_materials_uploaded, record_extraction, request_review, confirm_review, activate, suspend,
  expire,
}
use hackathon_open_ai.Domain.Suppliers.Calls.{Call, run}
use hackathon_open_ai.Domain.Suppliers.Route.{successors, Backing, Step, step_rules}

pub run-Moves : (call : Call) (self : Supplier) → Moves Step self (run call self)
unfolding run record_materials_uploaded record_extraction request_review confirm_review activate
    suspend expire
run-Moves (Call.record_materials_uploaded document) self =
    search (moves_rules, step_rules, All-present) depth 10
run-Moves _ self = search (moves_rules, step_rules, All-present) depth 10

abbrev pub supplier_lifecycle : Lifecycle SupplierState SupplierFacts
supplier_lifecycle = record {
  class = supplier_class;
  Call = Call;
  run = run;
  successors = successors;
  Backing = Backing;
  run-Moves = run-Moves;
}

abbrev pub runs : List Call → Supplier → Supplier
runs = Lifecycle.runs supplier_lifecycle

-- A call that raises leaves the supplier exactly as it was, whichever check failed; one that returns
-- moves to a successor of the state, counts the version up by one, and keeps the id and the tenant.
pub supplier_call-IsAtomic :
    (call : Call) (self : Supplier) → IsAtomic supplier_lifecycle self (run call self)
supplier_call-IsAtomic = Lifecycle.run-IsAtomic supplier_lifecycle

-- In a state that leads nowhere the supplier is never changed again, whatever is called.
pub supplier_final_states_stay :
    (self : Supplier) (calls : List Call) → successors self.state ≡ [] → runs calls self ≡ self
supplier_final_states_stay = Lifecycle.final_states_stay supplier_lifecycle
