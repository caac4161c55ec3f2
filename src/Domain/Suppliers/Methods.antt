-- ===== src/Domain/Suppliers/Methods.antt =====
-- domain/suppliers/aggregate.py: the methods of `SupplierAggregate` that change it.
use hackathon_open_ai.Prelude.{String, not, some, List, [], ◌∷◌, sorted_set, difference, is_empty}
use hackathon_open_ai.Value.{Value}
use hackathon_open_ai.Contracts.{ErrorCode, SupplierState as State}
use hackathon_open_ai.Domain.Common.{domain_error, require_non_empty, require_utc, texts}
use hackathon_open_ai.Domain.Common.Methods.{
  Method, lift, gets, raise_if, assign, ◌>>=◌, ◌>>◌, require_state, transition,
}
use hackathon_open_ai.Domain.Suppliers.Facts.{
  SupplierFacts, supplier_class, required_supplier_fields,
}

abbrev pub SupplierMethod : Type 0
SupplierMethod = Method State SupplierFacts (Unit {0})

unfoldable pub record_materials_uploaded : Value → SupplierMethod
record_materials_uploaded document_id = do
  require_state (State.draft ∷ []) State.materials_uploaded
  id ← lift (require_non_empty document_id "document_id")
  assign (λ self. record self { document_id = some id })
  transition (State.draft ∷ []) State.materials_uploaded "SOURCE_DOCUMENT_STORED"
      (("document_id", Value.text id) ∷ [])

unfoldable pub record_extraction : Value → SupplierMethod
record_extraction extraction_id = do
  require_state (State.materials_uploaded ∷ []) State.extracted
  id ← lift (require_non_empty extraction_id "extraction_id")
  assign (λ self. record self { extraction_id = some id })
  transition (State.materials_uploaded ∷ []) State.extracted "SUPPLIER_EXTRACTION_COMPLETED"
      (("extraction_id", Value.text id) ∷ [])

unfoldable pub request_review : Value → SupplierMethod
request_review review_id = do
  require_state (State.extracted ∷ []) State.awaiting_supplier_review
  id ← lift (require_non_empty review_id "review_id")
  assign (λ self. record self { review_id = some id })
  transition (State.extracted ∷ []) State.awaiting_supplier_review "SUPPLIER_REVIEW_LINK_CREATED"
      (("review_id", Value.text id) ∷ [])

unfoldable pub confirm_review : Value → List String → SupplierMethod
confirm_review submission_id confirmed_fields = do
  require_state (State.awaiting_supplier_review ∷ []) State.confirmed
  submission ← lift (require_non_empty submission_id "submission_id")
  assign (λ self. record self {
    review_submission_id = some submission;
    confirmed_fields = sorted_set confirmed_fields;
  })
  transition (State.awaiting_supplier_review ∷ []) State.confirmed "SUPPLIER_REVIEW_SUBMITTED" (
      ("submission_id", Value.text submission)
      ∷ ("confirmed_fields", Value.list (texts (sorted_set confirmed_fields)))
      ∷ [])

unfoldable pub activate : SupplierMethod
activate = do
  require_state (State.confirmed ∷ []) State.active
  self ← gets (λ self. self.facts)
  raise_if (not (is_empty (difference required_supplier_fields self.confirmed_fields))) (
      domain_error ErrorCode.validation_error
        "Supplier required fields must be confirmed before activation")
  transition (State.confirmed ∷ []) State.active "SUPPLIER_ACTIVATED" []

unfoldable pub suspend : Value → SupplierMethod
suspend reason = do
  require_state (State.active ∷ []) State.suspended
  why ← lift (require_non_empty reason "reason")
  transition (State.active ∷ []) State.suspended "SUPPLIER_SUSPENDED"
      (("reason", Value.text why) ∷ [])

unfoldable pub expire : Value → SupplierMethod
expire expired_at = do
  require_state (State.active ∷ []) State.expired
  instant ← lift (require_utc expired_at "expired_at")
  transition (State.active ∷ []) State.expired "SUPPLIER_PROFILE_EXPIRED"
      (("expired_at", Value.iso instant) ∷ [])
