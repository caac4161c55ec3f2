-- ===== src/Domain/Procurement/Grants.antt =====
-- No spend is committed without a human grant: what the approval of a request goes back to.
use hackathon_open_ai.Prelude.{
  true, false, none, List, [], ◌∷◌, ◌≡◌, refl, ◌∙◌, ap, arith, Bool-cases, inl, inr,
}
use hackathon_open_ai.Value.{Value}
use hackathon_open_ai.Contracts.{
  ActorType, contains, ProcurementRequestState, procurement_request_state_enum,
  procurement_request_state_index,
}
use hackathon_open_ai.Domain.Common.{Result, ok, OnOk-eq}
use hackathon_open_ai.Domain.Common.Methods.{advance}
use hackathon_open_ai.Domain.Common.Outcomes.{Moves, moved, refused, moves_rules}
use hackathon_open_ai.Domain.Procurement.Facts.{
  ProcurementFacts, ProcurementRequest, procurement_request_class, create,
}
use hackathon_open_ai.Domain.Procurement.Sourcing.{
  request_clarification, mark_ready, start_sourcing, mark_no_eligible_suppliers, mark_rfq_active,
  begin_quote_review, mark_no_valid_quotes, start_negotiation, cancel, expire,
}
use hackathon_open_ai.Domain.Procurement.Commitment.{
  request_approval, record_human_approval, record_approval_rejected, record_award_sent,
  record_supplier_acceptance, record_supplier_decline, mark_ready_for_contracting, close,
}
use hackathon_open_ai.Domain.Procurement.Calls.{Call, run, is_human_grant, has_human_grant}
use hackathon_open_ai.Domain.Procurement.Route.{Backing}
use hackathon_open_ai.Domain.Procurement.Histories.{
  IsFresh, create-IsFresh, request_history-IsSound, runs,
}

abbrev Keeps :
    ProcurementRequestState → ProcurementFacts → ProcurementRequestState → ProcurementFacts → Type 0
Keeps s f s' f' = f'.approval_id ≡ f.approval_id

ruleset keeps_rules = (moves_rules, refl)

run-Keeps :
    (call : Call) (self : ProcurementRequest)
    → is_human_grant call ≡ false
    → Moves Keeps self (run call self)
unfolding run request_clarification mark_ready start_sourcing mark_no_eligible_suppliers
    mark_rfq_active begin_quote_review mark_no_valid_quotes start_negotiation cancel expire
    request_approval record_human_approval record_approval_rejected record_award_sent
    record_supplier_acceptance record_supplier_decline mark_ready_for_contracting close
run-Keeps Call.close self h = search keeps_rules depth 9
run-Keeps (Call.record_human_approval apr ActorType.human actor quote version) self h = cc
run-Keeps _ self h = search keeps_rules depth 9

run-keeps_approval :
    (call : Call) (self : ProcurementRequest)
    → is_human_grant call ≡ false
    → (run call self).1.facts.approval_id ≡ self.facts.approval_id
unfolding advance
run-keeps_approval call self h = kept (run-Keeps call self h)
  where
    kept :
        {o : Result (Unit {0}) × ProcurementRequest}
        → Moves Keeps self o
        → o.1.facts.approval_id ≡ self.facts.approval_id
    kept (refused e h) = rw h refl
    kept (moved state facts event_type payload step h) = rw h step

runs-keep_approval :
    (calls : List Call) (self : ProcurementRequest)
    → has_human_grant calls ≡ false
    → (runs calls self).facts.approval_id ≡ self.facts.approval_id
runs-keep_approval [] self h = refl
runs-keep_approval (call ∷ calls) self h = elim (Bool-cases (is_human_grant call)) [
  | inl grant ↦ ground arith
  | inr other ↦
      runs-keep_approval calls (run call self).1 (ground arith) ∙ run-keeps_approval call self other
]

-- The states from the approval on, in which spend is committed or about to be.
abbrev pub committed_states : List ProcurementRequestState
committed_states =
    ProcurementRequestState.approved ∷ ProcurementRequestState.award_sent
    ∷ ProcurementRequestState.supplier_accepted ∷ ProcurementRequestState.supplier_declined_award
    ∷ ProcurementRequestState.ready_for_contracting ∷ ProcurementRequestState.closed ∷ []

committed_has_approval :
    (s : ProcurementRequestState) (f : ProcurementFacts)
    → contains ⦃e = procurement_request_state_enum⦄ committed_states s ≡ true
    → Backing s f
    → f.approval_id ≡ none
    → ⊥
unfolding contains procurement_request_state_index
committed_has_approval s f c b n = ground arith

-- After any calls on a created request, if it stands in a committed state then one of the calls was
-- `record_human_approval` on behalf of a human.
pub committed_needs_human :
    (request_id tenant_id : Value) (self : ProcurementRequest) (calls : List Call)
    → create request_id tenant_id ≡ ok self
    → contains ⦃e = procurement_request_state_enum⦄ committed_states (runs calls self).state ≡ true
    → has_human_grant calls ≡ true
committed_needs_human request_id tenant_id self calls e committed =
    elim (Bool-cases (has_human_grant calls)) [
      | inl granted ↦ granted
      | inr never ↦
          let fresh =
            OnOk-eq IsFresh (create request_id tenant_id) self e
              (create-IsFresh request_id tenant_id) in
          let sound = request_history-IsSound request_id tenant_id self calls e in
          absurd (
            committed_has_approval _ _ committed sound.backed.backing (
              runs-keep_approval calls self never
              ∙ ap (λ (f : ProcurementFacts). f.approval_id) fresh.bare))
    ]
