-- ===== src/Domain/Approvals/Bindings.antt =====
-- domain/approvals/aggregate.py: an approval stays bound to one quote version, and only a human
-- decides it.
use hackathon_open_ai.Domain.Common.Outcomes
use hackathon_open_ai.Domain.Common.Outcomes.{returned, Moves, moved, refused, moves_rules}
use hackathon_open_ai.Prelude.{refl, ◌∙◌, ℕ, String, [], ◌∷◌, List, ◌≡◌, arith}
use hackathon_open_ai.Value.{Value}
use hackathon_open_ai.Contracts.{ActorType, ApprovalStatus}
use hackathon_open_ai.Domain.Common.{ok}
use hackathon_open_ai.Domain.Approvals.Facts.{
  Approval, ApprovalFacts, approval_class, validated_human_decision,
}
use hackathon_open_ai.Domain.Approvals.Methods.{approve, reject, request_changes}
use hackathon_open_ai.Domain.Approvals.Calls.{Call, run}
use hackathon_open_ai.Domain.Approvals.Histories.{runs}

-- What the decision is about.
abbrev pub SameSubject : ApprovalFacts → ApprovalFacts → Type 0
SameSubject f g =
    (g.procurement_request_id ≡ f.procurement_request_id)
    × (g.quote_id ≡ f.quote_id)
    × (g.quote_version ≡ f.quote_version)
    × (g.approved_total ≡ f.approved_total)

SameSubject-trans : (f g h : ApprovalFacts) → SameSubject f g → SameSubject g h → SameSubject f h
SameSubject-trans f g h a b = (b.0 ∙ a.0, b.1 ∙ a.1, b.2 ∙ a.2, b.3 ∙ a.3)

abbrev pub actor_of : Call → ActorType
actor_of (Call.approve kind actor at) = kind
actor_of (Call.reject kind actor at why) = kind
actor_of (Call.request_changes kind actor at why) = kind

abbrev Decides :
    ActorType → ApprovalStatus → ApprovalFacts → ApprovalStatus → ApprovalFacts → Type 0
Decides kind s f s' f' = (kind ≡ ActorType.human) × SameSubject f f'

decision_is_human :
    (kind : ActorType) (actor at : Value) (d : String × ℕ)
    → validated_human_decision kind actor at ≡ ok d
    → kind ≡ ActorType.human
unfolding validated_human_decision
decision_is_human kind actor at d h = ground arith

run-Decides : (call : Call) (self : Approval) → Moves (Decides (actor_of call)) self (run call self)
unfolding run approve reject request_changes
run-Decides (Call.approve kind actor at) self = search (moves_rules, decision_is_human) depth 12
run-Decides _ self = search (moves_rules, decision_is_human) depth 12

-- Every call on an approval that goes through was made on behalf of a human.
pub approval_needs_human :
    (call : Call) (self : Approval) → (run call self).0 ≡ ok tt → actor_of call ≡ ActorType.human
approval_needs_human call self h =
    (returned {R = Decides (actor_of call)} self _ (run-Decides call self) h).0

-- Whatever is called, an approval stays bound to its request, its quote at its version, and its
-- total.
pub approval_keeps_subject :
    (calls : List Call) (self : Approval) → SameSubject self.facts (runs calls self).facts
approval_keeps_subject [] self = (refl, refl, refl, refl)
approval_keeps_subject (call ∷ calls) self =
    SameSubject-trans self.facts (run call self).1.facts (runs calls (run call self).1).facts
      (Outcomes.kept SameSubject self _ (λ s s' f f' r. r.1) (refl, refl, refl, refl)
        (run-Decides call self))
      (approval_keeps_subject calls (run call self).1)
