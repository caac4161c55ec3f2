-- ===== src/Domain/Approvals/Route.antt =====
-- The lifecycle of an approval, stated by where each state leads and by what the fields must hold in it,
-- and that each transition of domain/approvals/aggregate.py is a step of it.
use hackathon_open_ai.Prelude.{ℕ, String, none, some, true, List, [], ◌∷◌, ◌≡◌, arith, IsPresent}
use hackathon_open_ai.Contracts.{
  contains, ApprovalStatus, approval_status_enum, approval_status_index,
}
use hackathon_open_ai.Domain.Common.Lifecycle.{StepOf}
use hackathon_open_ai.Domain.Approvals.Facts.{ApprovalFacts}

abbrev pub successors : ApprovalStatus → List ApprovalStatus
successors ApprovalStatus.requested =
    ApprovalStatus.approved ∷ ApprovalStatus.rejected ∷ ApprovalStatus.changes_requested ∷ []
successors _ = []

-- A decision was recorded.
abbrev pub HasDecision : ApprovalFacts → Type 0
HasDecision f = IsPresent f.decided_by × IsPresent f.decided_at

-- What the fields hold in each state.
abbrev pub Backing : ApprovalStatus → ApprovalFacts → Type 0
Backing ApprovalStatus.requested f =
    (f.decided_by ≡ none) × (f.decided_at ≡ none) × (f.reason ≡ none)
Backing ApprovalStatus.approved f = HasDecision f × (f.reason ≡ none)
Backing ApprovalStatus.rejected f = HasDecision f × IsPresent f.reason
Backing ApprovalStatus.changes_requested f = HasDecision f × IsPresent f.reason

abbrev pub Step : ApprovalStatus → ApprovalFacts → ApprovalStatus → ApprovalFacts → Type 0
Step = StepOf approval_status_enum successors Backing

-- The test of `_require_state` passed.
abbrev Allowed : List ApprovalStatus → ApprovalStatus → Type 0
Allowed allowed s = contains ⦃e = approval_status_enum⦄ allowed s ≡ true

module _ (s : ApprovalStatus) (f : ApprovalFacts) where
  pub Step-to_approved :
      (who : String) (at : ℕ)
      → Allowed (ApprovalStatus.requested ∷ []) s
      → Step s f ApprovalStatus.approved (record f { decided_by = some who; decided_at = some at })
  unfolding contains approval_status_index
  Step-to_approved who at h = ground arith

  pub Step-to_rejected :
      (who : String) (at : ℕ) (why : String)
      → Allowed (ApprovalStatus.requested ∷ []) s
      → Step s f ApprovalStatus.rejected
          (record f { decided_by = some who; decided_at = some at; reason = some why })
  unfolding contains approval_status_index
  Step-to_rejected who at why h = ground arith

  pub Step-to_changes_requested :
      (who : String) (at : ℕ) (why : String)
      → Allowed (ApprovalStatus.requested ∷ []) s
      → Step s f ApprovalStatus.changes_requested
          (record f { decided_by = some who; decided_at = some at; reason = some why })
  unfolding contains approval_status_index
  Step-to_changes_requested who at why h = ground arith

pub ruleset step_rules = (Step-to_approved, Step-to_rejected, Step-to_changes_requested)
