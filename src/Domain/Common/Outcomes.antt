-- ===== src/Domain/Common/Outcomes.antt =====
-- domain/common/aggregate.py: how a method of a subclass can end, and the rules that find out by
-- walking along its statements. `R` relates the state and fields before to those after.
use hackathon_open_ai.Prelude.{String, Bool, true, false, List, ◌≡◌, refl, Bool-cases, inl, inr}
use hackathon_open_ai.Contracts.{contains}
use hackathon_open_ai.Domain.Common.Errors.{Exception, Payload, Result, ok, err}
use hackathon_open_ai.Domain.Common.Root.{Aggregate, AggregateClass}
use hackathon_open_ai.Domain.Common.Methods.{
  Method, lift, gets, raise_if, assign, ◌>>=◌, ◌>>◌, require_state, advance, transition,
}

module _ {S F : Type 0} ⦃class : AggregateClass S⦄ (R : S → F → S → F → Type 0) where
  -- The method moved along `R` and recorded that as one event, or raised and changed nothing.
  pub data Moves (self : Aggregate S F) (o : Result (Unit {0}) × Aggregate S F) : Type 0 where
    moved :
        (state : S) (facts : F) (event_type : String) (payload : Payload)
        → R self.state self.facts state facts
        → o ≡ advance state event_type payload (record self { facts = facts })
        → Moves self o
    refused : (e : Exception) → o ≡ (err e, self) → Moves self o

module _ {S F : Type 0} ⦃class : AggregateClass S⦄ {R : S → F → S → F → Type 0} where
  open class use {enum}

  pub Moves-err : (e : Exception) (self : Aggregate S F) → Moves R self (err e, self)
  Moves-err e self = refused e refl

  pub Moves-lift :
      {A : Type 0} (r : Result A) (k : A → Method S F (Unit {0})) (self : Aggregate S F)
      → ((x : A) → r ≡ ok x → Moves R self (k x self))
      → Moves R self ((lift r >>= k) self)
  Moves-lift (ok x) k self h = h x refl
  Moves-lift (err e) k self h = refused e refl

  pub Moves-gets :
      {A : Type 0} (f : Aggregate S F → A) (k : A → Method S F (Unit {0})) (self : Aggregate S F)
      → Moves R self (k (f self) self)
      → Moves R self ((gets f >>= k) self)
  Moves-gets f k self h = h

  pub Moves-require_state :
      (allowed : List S) (requested : S) (k : Unit {0} → Method S F (Unit {0}))
      (self : Aggregate S F)
      → (contains ⦃e = enum⦄ allowed self.state ≡ true → Moves R self (k tt self))
      → Moves R self ((require_state allowed requested >>= k) self)
  unfolding require_state
  Moves-require_state allowed requested k self h =
      elim (Bool-cases (contains ⦃e = enum⦄ allowed self.state)) [
        | inl legal ↦ rw legal (h legal)
        | inr illegal ↦ rw illegal (refused _ refl)
      ]

  pub Moves-raise_if :
      (test : Bool) (e : Exception) (k : Unit {0} → Method S F (Unit {0})) (self : Aggregate S F)
      → (test ≡ false → Moves R self (k tt self))
      → Moves R self ((raise_if test e >>= k) self)
  Moves-raise_if true e k self h = refused e refl
  Moves-raise_if false e k self h = h refl

  pub Moves-transition :
      (allowed : List S) (state : S) (event_type : String) (payload : Payload)
      (self : Aggregate S F)
      → (contains ⦃e = enum⦄ allowed self.state ≡ true → R self.state self.facts state self.facts)
      → Moves R self (transition allowed state event_type payload self)
  unfolding transition
  Moves-transition allowed state event_type payload self h =
      Moves-require_state allowed state _ self
        (λ legal. moved state self.facts event_type payload (h legal) refl)

  -- The state was tested before the assignments, so the transition does not raise after them.
  pub Moves-assign-transition :
      (allowed : List S) (state : S) (event_type : String) (payload : Payload) (f : F → F)
      (self : Aggregate S F)
      → contains ⦃e = enum⦄ allowed self.state ≡ true
      → R self.state self.facts state (f self.facts)
      → Moves R self ((assign f >> transition allowed state event_type payload) self)
  unfolding transition require_state
  Moves-assign-transition allowed state event_type payload f self legal step =
      rw legal (moved state (f self.facts) event_type payload step refl)

module _ {S F : Type 0} ⦃class : AggregateClass S⦄ {R : S → F → S → F → Type 0} where
  -- What a call that returned has done.
  pub returned :
      (self : Aggregate S F) (o : Result (Unit {0}) × Aggregate S F)
      → Moves R self o
      → o.0 ≡ ok tt
      → R self.state self.facts o.1.state o.1.facts
  unfolding advance
  returned self o (moved state facts event_type payload step e) h = rw e step
  returned self o (refused error e) h = cc

  -- What holds of the fields after any call, if a step has it and so has no step.
  pub kept :
      (P : F → F → Type 0) (self : Aggregate S F) (o : Result (Unit {0}) × Aggregate S F)
      → ((s s' : S) (f f' : F) → R s f s' f' → P f f')
      → P self.facts self.facts
      → Moves R self o
      → P self.facts o.1.facts
  unfolding advance
  kept P self o step same (moved state facts event_type payload r e) = rw e (step _ _ _ _ r)
  kept P self o step same (refused error e) = rw e same

pub ruleset moves_rules = (
  Moves-err, Moves-lift, Moves-gets, Moves-require_state, Moves-raise_if, Moves-transition,
  Moves-assign-transition,
)
