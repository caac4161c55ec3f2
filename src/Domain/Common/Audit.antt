-- ===== src/Domain/Common/Audit.antt =====
-- domain/common: the staged events of an aggregate tell how its state came about.
use hackathon_open_ai.Domain.Common.Errors.{OnOk-eq, ok, OnOk-bind, DomainEvent, Result}
use hackathon_open_ai.Domain.Common.Root.{with_facts, Aggregate, AggregateClass, new_aggregate}
use hackathon_open_ai.Prelude.{
  ℕ, ◌+◌, String, Option, none, some, List, [], ◌∷◌, ◌++◌, ◌≡◌, refl, arith,
}
use hackathon_open_ai.Value.{Value}
use hackathon_open_ai.Domain.Common.Values.{require_non_empty}
use hackathon_open_ai.Domain.Common.Methods.{transition_event, advance}
use hackathon_open_ai.Domain.Common.Outcomes.{Moves, moved, refused}

module _ (kind id : String) where
  -- Every event belongs to the aggregate, starts where the one before ended, and counts the version
  -- up by one; together they lead from `from` at version `v` to `to` at version `w`.
  abbrev pub Trail : Option String → ℕ → List DomainEvent → Option String → ℕ → Type 0
  Trail from v [] to w = (from ≡ to) × (v ≡ w)
  Trail from v (e ∷ es) to w =
      (e.aggregate_type ≡ kind)
      × (e.aggregate_id ≡ id)
      × (e.previous_state ≡ from)
      × (e.aggregate_version ≡ v + 1)
      × Trail e.new_state (v + 1) es to w

  pub Trail-append :
      (from : Option String) (v : ℕ) (es : List DomainEvent) (to : Option String) (w : ℕ)
      (e : DomainEvent)
      → Trail from v es to w
      → e.aggregate_type ≡ kind
      → e.aggregate_id ≡ id
      → e.previous_state ≡ to
      → e.aggregate_version ≡ w + 1
      → Trail from v (es ++ e ∷ []) e.new_state (w + 1)
  Trail-append from v [] to w e t a b c d = ground arith
  Trail-append from v (x ∷ xs) to w e t a b c d =
      (t.0, t.1, t.2, t.3, Trail-append x.new_state (v + 1) xs to w e t.4 a b c d)

module _ {S F : Type 0} ⦃class : AggregateClass S⦄ where
  open class use {aggregate_type, enum}

  -- The staged events lead from a state and a version to the present ones.
  pub record IsAudited (from : Option String) (start : ℕ) (self : Aggregate S F) : Type 0 where
    pub trail :
        Trail aggregate_type self.id from start self.pending_events
          (some (enum.value self.state))
          self.version

  pub Moves-IsAudited :
      {R : S → F → S → F → Type 0} (from : Option String) (start : ℕ) (self : Aggregate S F)
      (o : Result (Unit {0}) × Aggregate S F)
      → Moves R self o
      → IsAudited from start self
      → IsAudited from start o.1
  unfolding advance transition_event
  Moves-IsAudited from start self o (moved state facts event_type payload step e) h = rw e (record {
    trail =
        Trail-append aggregate_type self.id from start self.pending_events _ self.version _ h.trail
          refl refl refl refl;
  })
  Moves-IsAudited from start self o (refused error e) h = rw e h

  -- The events lead from before the creation, where there is no state and the version is 0.
  abbrev pub IsTraced : Aggregate S F → Type 0
  IsTraced self = IsAudited none 0 self

  -- A new aggregate keeps its one event and its state through the assignments of the subclass.
  pub record IsNew (state : S) (self : Aggregate S F) : Type 0 where
    pub audited : IsTraced self
    pub at : self.state ≡ state

  pub new_aggregate-IsNew :
      (aggregate_id : String) (tenant_id : Value) (state : S) (created : String) (facts : F)
      (self : Aggregate S F)
      → new_aggregate aggregate_id tenant_id state created facts ≡ ok self
      → IsNew state self
  unfolding new_aggregate
  new_aggregate-IsNew aggregate_id tenant_id state created facts self e =
      OnOk-eq (IsNew state) _ self e (
        OnOk-bind (IsNew state) (require_non_empty tenant_id "tenant_id") _ λ tenant _. record {
          audited = record { trail = (refl, refl, refl, refl, (refl, refl)) };
          at = refl;
        })

module _ {S F G : Type 0} ⦃class : AggregateClass S⦄ where
  pub with_facts-IsAudited :
      (root : Aggregate S F) (facts : G) → IsTraced root → IsTraced (with_facts root facts)
  with_facts-IsAudited root facts h = record { trail = h.trail }
