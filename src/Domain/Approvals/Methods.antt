-- ===== src/Domain/Approvals/Methods.antt =====
-- domain/approvals/aggregate.py: the methods of `ApprovalAggregate` that change it.
use hackathon_open_ai.Prelude.{pos, some, [], ◌∷◌}
use hackathon_open_ai.Value.{Value}
use hackathon_open_ai.Contracts.{ActorType, ApprovalStatus as State}
use hackathon_open_ai.Domain.Common.{require_non_empty}
use hackathon_open_ai.Domain.Common.Methods.{
  Method, lift, gets, assign, ◌>>=◌, ◌>>◌, require_state, transition,
}
use hackathon_open_ai.Domain.Approvals.Facts.{
  ApprovalFacts, approval_class, validated_human_decision,
}

abbrev pub ApprovalMethod : Type 0
ApprovalMethod = Method State ApprovalFacts (Unit {0})

unfoldable pub approve : ActorType → Value → Value → ApprovalMethod
approve actor_type actor_id decided_at = do
  require_state (State.requested ∷ []) State.approved
  decision ← lift (validated_human_decision actor_type actor_id decided_at)
  self ← gets (λ self. self.facts)
  assign (λ self. record self { decided_by = some decision.0; decided_at = some decision.1 })
  transition (State.requested ∷ []) State.approved "APPROVAL_GRANTED" (
      ("actor_id", Value.text decision.0)
      ∷ ("quote_id", Value.text self.quote_id)
      ∷ ("quote_version", Value.int (pos self.quote_version))
      ∷ ("decided_at", Value.iso decision.1)
      ∷ [])

unfoldable pub reject : ActorType → Value → Value → Value → ApprovalMethod
reject actor_type actor_id decided_at reason = do
  require_state (State.requested ∷ []) State.rejected
  decision ← lift (validated_human_decision actor_type actor_id decided_at)
  why ← lift (require_non_empty reason "reason")
  assign (λ self. record self {
    decided_by = some decision.0;
    decided_at = some decision.1;
    reason = some why;
  })
  transition (State.requested ∷ []) State.rejected "APPROVAL_REJECTED" (
      ("actor_id", Value.text decision.0)
      ∷ ("reason", Value.text why)
      ∷ ("decided_at", Value.iso decision.1)
      ∷ [])

unfoldable pub request_changes : ActorType → Value → Value → Value → ApprovalMethod
request_changes actor_type actor_id decided_at reason = do
  require_state (State.requested ∷ []) State.changes_requested
  decision ← lift (validated_human_decision actor_type actor_id decided_at)
  why ← lift (require_non_empty reason "reason")
  assign (λ self. record self {
    decided_by = some decision.0;
    decided_at = some decision.1;
    reason = some why;
  })
  transition (State.requested ∷ []) State.changes_requested "APPROVAL_CHANGES_REQUESTED" (
      ("actor_id", Value.text decision.0)
      ∷ ("reason", Value.text why)
      ∷ ("decided_at", Value.iso decision.1)
      ∷ [])
