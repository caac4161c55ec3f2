-- ===== src/Domain/Common/Lifecycle.antt =====
-- What an aggregate must show of its methods, and what then holds of every history of it: a client
-- makes any calls in any order, and goes on after an exception with the object as the call left it.
use hackathon_open_ai.Prelude.{none, ◌+◌, true, List, [], ◌∷◌, ◌≡◌, refl, ◌⊎◌, inl, inr}
use hackathon_open_ai.Contracts.{StrEnum, contains}
use hackathon_open_ai.Domain.Common.Errors.{Exception, Result, ok, err}
use hackathon_open_ai.Domain.Common.Root.{Aggregate, AggregateClass}
use hackathon_open_ai.Domain.Common.Methods.{Method, advance}
use hackathon_open_ai.Domain.Common.Outcomes.{Moves, moved, refused}
use hackathon_open_ai.Domain.Common.Audit.{IsTraced, Moves-IsAudited}

-- One step: to a successor state, keeping what the states demand of the fields.
abbrev pub StepOf :
    {S F : Type 0} → StrEnum S → (S → List S) → (S → F → Type 0) → S → F → S → F → Type 0
StepOf enum successors Backing s f s' f' =
    (contains ⦃e = enum⦄ (successors s) s' ≡ true) × (Backing s f → Backing s' f')

-- `Call` stands for a call of a public method, and `run` makes it.
pub record Lifecycle (S F : Type 0) : Type 1 where
  pub class : AggregateClass S
  pub Call : Type 0
  pub run : Call → Method S F (Unit {0})
  pub successors : S → List S
  pub Backing : S → F → Type 0
  pub run-Moves :
      (call : Call) (self : Aggregate S F)
      → Moves ⦃class = class⦄ (StepOf class.enum successors Backing) self (run call self)

module _ {S F : Type 0} (L : Lifecycle S F) where
  open L use {class, Call, run, successors, Backing, run-Moves}

  abbrev pub runs : List Call → Aggregate S F → Aggregate S F
  runs [] self = self
  runs (call ∷ calls) self = runs calls (run call self).1

  -- The call raised and changed nothing, or it returned after one step that counts the version up.
  abbrev pub IsAtomic : Aggregate S F → Result (Unit {0}) × Aggregate S F → Type 0
  IsAtomic self o =
      ((e : Exception) × (o ≡ (err e, self)))
      ⊎ ((o.0 ≡ ok tt)
          × (contains ⦃e = class.enum⦄ (successors self.state) o.1.state ≡ true)
          × (o.1.version ≡ self.version + 1)
          × (o.1.id ≡ self.id)
          × (o.1.tenant_id ≡ self.tenant_id))

  Moves-IsAtomic :
      (self : Aggregate S F) (o : Result (Unit {0}) × Aggregate S F)
      → Moves ⦃class = class⦄ (StepOf class.enum successors Backing) self o
      → IsAtomic self o
  unfolding advance
  Moves-IsAtomic self o (refused e h) = inl (e, h)
  Moves-IsAtomic self o (moved state facts event_type payload step h) =
      inr (rw h refl, rw h step.0, rw h refl, rw h refl, rw h refl)

  pub run-IsAtomic : (call : Call) (self : Aggregate S F) → IsAtomic self (run call self)
  run-IsAtomic call self = Moves-IsAtomic self _ (run-Moves call self)

  pub runs-IsTraced :
      (calls : List Call) (self : Aggregate S F)
      → IsTraced ⦃class = class⦄ self
      → IsTraced ⦃class = class⦄ (runs calls self)
  runs-IsTraced [] self h = h
  runs-IsTraced (call ∷ calls) self h =
      runs-IsTraced calls (run call self).1
        (Moves-IsAudited ⦃class = class⦄ none 0 self _ (run-Moves call self) h)

  -- The fields hold what the state demands.
  pub record IsBacked (self : Aggregate S F) : Type 0 where
    pub backing : Backing self.state self.facts

  Moves-IsBacked :
      (self : Aggregate S F) (o : Result (Unit {0}) × Aggregate S F)
      → Moves ⦃class = class⦄ (StepOf class.enum successors Backing) self o
      → IsBacked self
      → IsBacked o.1
  unfolding advance
  Moves-IsBacked self o (moved state facts event_type payload step e) h =
      rw e (record { backing = step.1 h.backing })
  Moves-IsBacked self o (refused error e) h = rw e h

  pub runs-IsBacked :
      (calls : List Call) (self : Aggregate S F) → IsBacked self → IsBacked (runs calls self)
  runs-IsBacked [] self h = h
  runs-IsBacked (call ∷ calls) self h =
      runs-IsBacked calls (run call self).1 (Moves-IsBacked self _ (run-Moves call self) h)

  no_way_on :
      (s s' : S) → successors s ≡ [] → contains ⦃e = class.enum⦄ (successors s) s' ≡ true → ⊥
  unfolding contains
  no_way_on s s' e h = cc (rw e at h)

  -- An aggregate in a state that leads nowhere is never changed again.
  pub final_states_stay :
      (self : Aggregate S F) (calls : List Call)
      → successors self.state ≡ []
      → runs calls self ≡ self
  final_states_stay self [] h = refl
  final_states_stay self (call ∷ calls) h = elim (run-IsAtomic call self) [
    | inl (error, e) ↦ rw e (final_states_stay self calls h)
    | inr (done, way, version, id, tenant) ↦ absurd (no_way_on self.state _ h way)
  ]

  -- The staged events lead from before the creation to the present state and version, and the fields
  -- hold what that state demands.
  pub record IsSound (self : Aggregate S F) : Type 0 where
    pub audited : IsTraced ⦃class = class⦄ self
    pub backed : IsBacked self

  pub runs-IsSound :
      (calls : List Call) (self : Aggregate S F) → IsSound self → IsSound (runs calls self)
  runs-IsSound calls self h = record {
    audited = runs-IsTraced calls self h.audited;
    backed = runs-IsBacked calls self h.backed;
  }
