-- ===== src/Domain/Awards/Bindings.antt =====
-- domain/awards/aggregate.py: an award follows an approved decision, and its acceptance is bound to
-- the terms that were awarded.
use hackathon_open_ai.Domain.Common.Outcomes.{returned, Moves, moves_rules}
use hackathon_open_ai.Prelude.{ℕ, String, true, false, ◌≡◌, refl, arith, str_eq_iff}
use hackathon_open_ai.Value.{Value, Fields}
use hackathon_open_ai.Contracts.{AwardStatus, ApprovalStatus}
use hackathon_open_ai.Domain.Common.{
  ok, OnOk, OnOk-bind, OnOk-eq, require_prefixed_id, new_aggregate,
}
use hackathon_open_ai.Domain.Common.Checks.{compare_digest-eq, require_prefixed_id-ok}
use hackathon_open_ai.Domain.Approvals.{Approval, assert_valid_for}
use hackathon_open_ai.Domain.Awards.Facts.{
  Award, AwardFacts, award_class, Canonical, create, validate_approval_scope, canonical_snapshot,
  require_terms, is_not_true,
}
use hackathon_open_ai.Domain.Awards.Methods.{accept}

-- What a created award takes over from the approval that it rests on.
pub record Follows (approval : Approval) (tenant_id request_id : Value) (award : Award)
    : Type 0 where
  pub approved : approval.state ≡ ApprovalStatus.approved
  pub same_tenant : tenant_id ≡ Value.text approval.tenant_id
  pub same_request : request_id ≡ Value.text approval.facts.procurement_request_id
  pub approval_id : award.facts.approval_id ≡ approval.id
  pub quote : award.facts.approved_quote_id ≡ approval.facts.quote_id
  pub version : award.facts.approved_quote_version ≡ approval.facts.quote_version
  pub total : award.facts.approved_total_cents ≡ approval.facts.approved_total.cents

scope-ok :
    (approval : Approval) (tenant_id : Value) (request : String)
    → validate_approval_scope approval tenant_id request ≡ ok tt
    → (tenant_id ≡ Value.text approval.tenant_id)
      × (approval.facts.procurement_request_id ≡ request)
unfolding validate_approval_scope
scope-ok approval (Value.text t) request h = ground (
  arith,
  str_eq_iff t approval.tenant_id,
  str_eq_iff approval.facts.procurement_request_id request,
)
scope-ok approval _ request h = cc

valid-approved :
    (approval : Approval) (quote : String) (version : ℕ)
    → assert_valid_for approval quote version ≡ ok tt
    → approval.state ≡ ApprovalStatus.approved
unfolding assert_valid_for
valid-approved approval quote version h = ground arith

create-Follows :
    (canonical : Canonical) (award_id tenant_id request_id supplier_id : Value)
    (approval : Approval) (terms : Fields)
    → OnOk
        (Follows approval tenant_id request_id)
        (create canonical award_id tenant_id request_id supplier_id approval terms)
unfolding create
create-Follows canonical award_id tenant_id request_id supplier_id approval terms =
    OnOk-bind _ (require_prefixed_id request_id "procurement_request_id" "pr_") _ λ request given.
      OnOk-bind _ (validate_approval_scope approval tenant_id request) _ λ _ scope.
        OnOk-bind _ (assert_valid_for approval approval.facts.quote_id approval.facts.quote_version)
          _
          λ _ valid. OnOk-bind _ (canonical_snapshot canonical terms) _ λ snapshot _.
            OnOk-bind _ (require_prefixed_id award_id "award_id" "awd_") _ λ id _.
              OnOk-bind _ (new_aggregate id tenant_id AwardStatus.created "AWARD_CREATED" tt) _
                λ root fresh.
                  OnOk-bind _ (require_prefixed_id supplier_id "supplier_id" "sup_") _ λ supplier _.
                    record {
                      approved = valid-approved approval _ _ valid;
                      same_tenant = (scope-ok approval tenant_id request scope).0;
                      same_request =
                          rw (scope-ok approval tenant_id request scope).1
                            (require_prefixed_id-ok request_id _ _ request given);
                      approval_id = refl;
                      quote = refl;
                      version = refl;
                      total = refl;
                    }

-- An award is created only on an approved decision for the same tenant and request, and takes over
-- its quote, its version and its total.
pub award-Follows_approval :
    (canonical : Canonical) (award_id tenant_id request_id supplier_id : Value)
    (approval : Approval) (terms : Fields) (award : Award)
    → create canonical award_id tenant_id request_id supplier_id approval terms ≡ ok award
    → Follows approval tenant_id request_id award
award-Follows_approval canonical award_id tenant_id request_id supplier_id approval terms award e =
    OnOk-eq (Follows approval tenant_id request_id) _ award e
      (create-Follows canonical award_id tenant_id request_id supplier_id approval terms)

terms-ok :
    (displayed : Value) (hash : String) (u : Unit {0})
    → require_terms displayed hash ≡ ok u
    → displayed ≡ Value.text hash
unfolding require_terms
terms-ok (Value.text displayed) hash u h = ground (arith, compare_digest-eq displayed hash)
terms-ok _ hash u h = cc

confirmed : (v : Value) → is_not_true v ≡ false → v ≡ Value.bool true
confirmed v h = ground arith

abbrev Consents : Value → Value → AwardStatus → AwardFacts → AwardStatus → AwardFacts → Type 0
Consents displayed confirmation s f s' f' =
    (displayed ≡ Value.text f.terms_hash)
    × (confirmation ≡ Value.bool true)
    × (f'.terms_hash ≡ f.terms_hash)

-- An acceptance that goes through was confirmed by `True` itself, and the supplier was shown the hash of
-- the awarded terms, which stays as it was.
pub accept_binds_terms :
    (self : Award) (submission respondent at displayed confirmation : Value)
    → (accept submission respondent at displayed confirmation self).0 ≡ ok tt
    → (displayed ≡ Value.text self.facts.terms_hash)
      × (confirmation ≡ Value.bool true)
      × ((accept submission respondent at displayed confirmation self).1.facts.terms_hash
          ≡ self.facts.terms_hash)
unfolding accept
accept_binds_terms self submission respondent at displayed confirmation h =
    returned {R = Consents displayed confirmation} self _ walk h
  where
    walk :
        Moves
          (Consents displayed confirmation)
          self
          (accept submission respondent at displayed confirmation self)
    walk = search (moves_rules, terms-ok, confirmed) depth 12
