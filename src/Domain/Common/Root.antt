-- ===== src/Domain/Common/Root.antt =====
-- domain/common/aggregate.py: `AggregateRoot`. A subclass gives the type `S` of its states and the
-- record `F` of its own fields. A method takes the object and returns it beside its result; what
-- was assigned before a raise stays assigned.
use hackathon_open_ai.Prelude.{ℕ, String, none, some, List, [], ◌∷◌}
use hackathon_open_ai.Contracts.{StrEnum}
use hackathon_open_ai.Value.{Value}
use hackathon_open_ai.Domain.Common.Errors.{DomainEvent, Result, ◌>>=◌, ok}
use hackathon_open_ai.Domain.Common.Values.{require_non_empty}

pub record Aggregate (S F : Type 0) : Type 0 where
  pub id : String
  pub tenant_id : String
  pub state : S
  pub version : ℕ
  pub pending_events : List DomainEvent
  pub facts : F

-- The attributes that the subclass assigns after `super().__init__`.
abbrev pub with_facts : {S F G : Type 0} → Aggregate S F → G → Aggregate S G
with_facts root facts = record {
  id = root.id;
  tenant_id = root.tenant_id;
  state = root.state;
  version = root.version;
  pending_events = root.pending_events;
  facts = facts;
}

-- The class variable of a subclass, and its enumeration of states.
pub record AggregateClass (S : Type 0) : Type 0 where
  pub aggregate_type : String
  pub enum : StrEnum S

module _ {S : Type 0} ⦃class : AggregateClass S⦄ where
  open class use {aggregate_type, enum}

  -- `AggregateRoot.__init__`
  unfoldable pub new_aggregate :
      {F : Type 0} → String → Value → S → String → F → Result (Aggregate S F)
  new_aggregate aggregate_id tenant_id state created_event_type facts = do
    tenant ← require_non_empty tenant_id "tenant_id"
    ok (record {
      id = aggregate_id;
      tenant_id = tenant;
      state = state;
      version = 1;
      pending_events =
          record {
            event_type = created_event_type;
            aggregate_type = aggregate_type;
            aggregate_id = aggregate_id;
            previous_state = none;
            new_state = some (enum.value state);
            aggregate_version = 1;
            payload = [];
          }
          ∷ [];
      facts = facts;
    })
