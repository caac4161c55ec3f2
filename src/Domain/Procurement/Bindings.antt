-- ===== src/Domain/Procurement/Bindings.antt =====
-- What the decisive calls of a procurement request bind themselves to.
use hackathon_open_ai.Domain.Common.Outcomes.{returned, Moves, moves_rules}
use hackathon_open_ai.Domain.Common.Checks.{
  require_prefixed_id-ok, require_non_empty-ok, require_positive_int-ok, is_text-eq, is_number-eq,
  compare_digest-eq,
}
use hackathon_open_ai.Prelude.{
  refl, false, inl, inr, not, Bool, Option-cases, if◌then◌else◌, pos, ◌||◌, ℕ, String, true, some,
  ◌≡◌, arith,
}
use hackathon_open_ai.Domain.Procurement.Facts.{
  ProcurementRequest, procurement_request_class, matches_award, ProcurementFacts,
  require_selected_quote, require_matching_award,
}
use hackathon_open_ai.Domain.Common.{
  err, OnOk, OnOk-bind, OnOk-eq, domain_error, require_positive_int, ok, require_prefixed_id,
  require_non_empty, is_text, is_number,
}
use hackathon_open_ai.Contracts.{
  ActorType, ProcurementRequestState, procurement_request_state_enum, ErrorCode,
}
use hackathon_open_ai.Domain.Procurement.Commitment.{
  record_human_approval, record_supplier_acceptance, is_not_human,
}
use hackathon_open_ai.Value.{Value}

-- The action names the selected quote at its selected version.
pub record NamesQuote (f : ProcurementFacts) (quote_id quote_version : Value) : Type 0 where
  pub id : String
  pub version : ℕ
  pub id_given : quote_id ≡ Value.text id
  pub version_given : quote_version ≡ Value.int (pos version)
  pub id_selected : f.selected_quote_id ≡ some id
  pub version_selected : f.selected_quote_version ≡ some version

-- The response names the delivered award and the hash of its terms.
pub record NamesAward (f : ProcurementFacts) (award_id terms_hash : Value) : Type 0 where
  pub id : String
  pub hash : String
  pub id_given : award_id ≡ Value.text id
  pub hash_given : terms_hash ≡ Value.text hash
  pub id_delivered : f.award_id ≡ some id
  pub hash_delivered : f.award_terms_hash ≡ some hash

module _ (f : ProcurementFacts) where
  selected_lem :
      (quote_id quote_version : Value)
      → OnOk
          (λ _. NamesQuote f quote_id quote_version)
          (require_selected_quote f quote_id quote_version)
  unfolding require_selected_quote
  selected_lem quote_id quote_version =
      OnOk-bind _ (require_prefixed_id quote_id "quote_id" "quo_") _ λ id given.
        OnOk-bind _ (require_positive_int quote_version "quote_version") _ λ n numbered.
          checked id n given numbered (is_text f.selected_quote_id id)
            (is_number f.selected_quote_version n) refl refl
    where
      checked :
          (id : String) (n : ℕ)
          → require_prefixed_id quote_id "quote_id" "quo_" ≡ ok id
          → require_positive_int quote_version "quote_version" ≡ ok n
          → (same newest : Bool) → is_text f.selected_quote_id id ≡ same
          → is_number f.selected_quote_version n ≡ newest
          → OnOk {A = String × ℕ}
              (λ _. NamesQuote f quote_id quote_version)
              (if not same || not newest
                then err (
                    domain_error ErrorCode.conflict
                      "Action does not reference the selected quote version")
                else ok (id, n))
      checked id n given numbered true true s v = record {
        id = id;
        version = n;
        id_given = require_prefixed_id-ok quote_id _ _ id given;
        version_given = require_positive_int-ok quote_version _ n numbered;
        id_selected = is_text-eq _ id s;
        version_selected = is_number-eq _ n v;
      }
      checked id n given numbered true false s v = tt
      checked id n given numbered false newest s v = tt

  matches_award-ok :
      (id hash : String)
      → matches_award f id hash ≡ ok true
      → (f.award_id ≡ some id) × (f.award_terms_hash ≡ some hash)
  unfolding matches_award
  matches_award-ok id hash h = elim (Option-cases f.award_terms_hash) [
    | inl none_yet ↦ ground (arith)
    | inr (expected, e) ↦ ground (arith, is_text-eq f.award_id id, compare_digest-eq hash expected)
  ]

  award_lem :
      (award_id terms_hash : Value)
      → OnOk (λ _. NamesAward f award_id terms_hash) (require_matching_award f award_id terms_hash)
  unfolding require_matching_award
  award_lem award_id terms_hash =
      OnOk-bind _ (require_prefixed_id award_id "award_id" "awd_") _ λ id given.
        OnOk-bind _ (require_non_empty terms_hash "terms_hash") _ λ hash hashed.
          OnOk-bind _ (matches_award f id hash) _
            λ same matched. checked id hash given hashed same matched
    where
      checked :
          (id hash : String)
          → require_prefixed_id award_id "award_id" "awd_" ≡ ok id
          → require_non_empty terms_hash "terms_hash" ≡ ok hash
          → (same : Bool) → matches_award f id hash ≡ ok same
          → OnOk {A = String × String}
              (λ _. NamesAward f award_id terms_hash)
              (if same
                then ok (id, hash)
                else err (
                    domain_error ErrorCode.conflict
                      "Supplier acceptance does not match the delivered award"))
      checked id hash given hashed true m = record {
        id = id;
        hash = hash;
        id_given = require_prefixed_id-ok award_id _ _ id given;
        hash_given = require_non_empty-ok terms_hash _ hash hashed;
        id_delivered = (matches_award-ok id hash m).0;
        hash_delivered = (matches_award-ok id hash m).1;
      }
      checked id hash given hashed false m = tt

selected-NamesQuote :
    (f : ProcurementFacts) (quote_id quote_version : Value) (x : String × ℕ)
    → require_selected_quote f quote_id quote_version ≡ ok x
    → NamesQuote f quote_id quote_version
selected-NamesQuote f quote_id quote_version x e =
    OnOk-eq (λ _. NamesQuote f quote_id quote_version) _ x e (selected_lem f quote_id quote_version)

matched-NamesAward :
    (f : ProcurementFacts) (award_id terms_hash : Value) (x : String × String)
    → require_matching_award f award_id terms_hash ≡ ok x
    → NamesAward f award_id terms_hash
matched-NamesAward f award_id terms_hash x e =
    OnOk-eq (λ _. NamesAward f award_id terms_hash) _ x e (award_lem f award_id terms_hash)

human_of : (kind : ActorType) → is_not_human kind ≡ false → kind ≡ ActorType.human
human_of kind h = ground arith

abbrev Grant :
    ActorType
    → Value
    → Value
    → ProcurementRequestState
    → ProcurementFacts
    → ProcurementRequestState
    → ProcurementFacts
    → Type 0
Grant kind quote_id quote_version s f s' f' =
    (kind ≡ ActorType.human) × NamesQuote f quote_id quote_version

abbrev Acceptance :
    Value
    → Value
    → ProcurementRequestState
    → ProcurementFacts
    → ProcurementRequestState
    → ProcurementFacts
    → Type 0
Acceptance award_id terms_hash s f s' f' = NamesAward f award_id terms_hash

-- A granted approval is a human's, and names the quote that was selected for approval at the
-- selected version.
pub record_human_approval_binds :
    (self : ProcurementRequest) (approval_id : Value) (actor_type : ActorType)
    (actor_id quote_id quote_version : Value)
    → (record_human_approval approval_id actor_type actor_id quote_id quote_version self).0 ≡ ok tt
    → (actor_type ≡ ActorType.human) × NamesQuote self.facts quote_id quote_version
unfolding record_human_approval
record_human_approval_binds self approval_id actor_type actor_id quote_id quote_version h =
    returned {R = Grant actor_type quote_id quote_version} self _ walk h
  where
    walk :
        Moves
          (Grant actor_type quote_id quote_version)
          self
          (record_human_approval approval_id actor_type actor_id quote_id quote_version self)
    walk = search (moves_rules, selected-NamesQuote, human_of) depth 10

-- A supplier's acceptance names the award that was delivered and the hash of its terms.
pub record_supplier_acceptance_binds :
    (self : ProcurementRequest) (award_id submission_id terms_hash : Value)
    → (record_supplier_acceptance award_id submission_id terms_hash self).0 ≡ ok tt
    → NamesAward self.facts award_id terms_hash
unfolding record_supplier_acceptance
record_supplier_acceptance_binds self award_id submission_id terms_hash h =
    returned {R = Acceptance award_id terms_hash} self _ walk h
  where
    walk :
        Moves
          (Acceptance award_id terms_hash)
          self
          (record_supplier_acceptance award_id submission_id terms_hash self)
    walk = search (moves_rules, matched-NamesAward) depth 10
