-- ===== src/Domain/Common/Methods.antt =====
-- domain/common/aggregate.py: the methods of `AggregateRoot`, as actions on the object.
use hackathon_open_ai.Prelude.{◌+◌, String, Bool, some, List, [], ◌∷◌, ◌++◌, if◌then◌else◌}
use hackathon_open_ai.Contracts.{contains}
use hackathon_open_ai.Domain.Common.Errors.{
  Exception, DomainEvent, Payload, Result, ok, err, invalid_transition,
}
use hackathon_open_ai.Domain.Common.Root.{Aggregate, AggregateClass}

abbrev pub Method : Type 0 → Type 0 → Type 0 → Type 0
Method S F A = Aggregate S F → Result A × Aggregate S F

module _ {S F A : Type 0} where
  abbrev pub pure : A → Method S F A
  pure a self = (ok a, self)

  abbrev pub lift : Result A → Method S F A
  lift r self = (r, self)

  abbrev pub raise : Exception → Method S F A
  raise e self = (err e, self)

  abbrev pub gets : (Aggregate S F → A) → Method S F A
  gets f self = (ok (f self), self)

module _ {S F : Type 0} where
  abbrev pub raise_if : Bool → Exception → Method S F (Unit {0})
  raise_if test e self = (if test then err e else ok tt, self)

  -- Assignments to the fields of the subclass.
  abbrev pub assign : (F → F) → Method S F (Unit {0})
  assign f self = (ok tt, record self { facts = f self.facts })

  -- `pending_events` and `pull_events`
  unfoldable pub pull_events : Method S F (List DomainEvent)
  pull_events self = (ok self.pending_events, record self { pending_events = [] })

module _ {S F A B : Type 0} where
  abbrev pub continue : Result A → (A → Method S F B) → Method S F B
  continue (ok a) f self = f a self
  continue (err e) f self = (err e, self)

  infixl 5 ◌>>=◌ ◌>>◌
  abbrev pub ◌>>=◌ : Method S F A → (A → Method S F B) → Method S F B
  ◌>>=◌ m f self = let (r, after) = m self in continue r f after

  abbrev pub ◌>>◌ : Method S F A → Method S F B → Method S F B
  m >> k = m >>= λ _. k

module _ {S F : Type 0} ⦃class : AggregateClass S⦄ where
  open class use {aggregate_type, enum}

  -- `_require_state`
  unfoldable pub require_state : List S → S → Method S F (Unit {0})
  require_state allowed requested_state self =
      if contains ⦃e = enum⦄ allowed self.state then (ok tt, self) else (
        err (
            invalid_transition aggregate_type (enum.value self.state) (enum.value requested_state)),
        self,
      )

  -- The event that a transition appends.
  unfoldable pub transition_event : Aggregate S F → S → String → Payload → DomainEvent
  transition_event self new_state event_type payload = record {
    event_type = event_type;
    aggregate_type = aggregate_type;
    aggregate_id = self.id;
    previous_state = some (enum.value self.state);
    new_state = some (enum.value new_state);
    aggregate_version = self.version + 1;
    payload = payload;
  }

  -- The assignments of `_transition`.
  unfoldable pub advance : S → String → Payload → Method S F (Unit {0})
  advance new_state event_type payload self = (
    ok tt,
    record self {
      state = new_state;
      version = self.version + 1;
      pending_events =
          self.pending_events ++ transition_event self new_state event_type payload ∷ [];
    },
  )

  -- `_transition`
  unfoldable pub transition : List S → S → String → Payload → Method S F (Unit {0})
  unfolding require_state advance
  transition allowed_from new_state event_type payload = do
    require_state allowed_from new_state
    advance new_state event_type payload
