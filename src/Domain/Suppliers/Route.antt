-- ===== src/Domain/Suppliers/Route.antt =====
-- The lifecycle of a supplier, stated by where each state leads and by what the fields must hold in it,
-- and that each transition of domain/suppliers/aggregate.py is a step of it.
use hackathon_open_ai.Prelude.{
  String, some, true, List, [], ◌∷◌, ◌≡◌, All, member, arith, IsPresent,
}
use hackathon_open_ai.Contracts.{contains, SupplierState, supplier_state_enum, supplier_state_index}
use hackathon_open_ai.Domain.Common.Lifecycle.{StepOf}
use hackathon_open_ai.Domain.Suppliers.Facts.{SupplierFacts, required_supplier_fields}

abbrev pub successors : SupplierState → List SupplierState
successors SupplierState.draft = SupplierState.materials_uploaded ∷ []
successors SupplierState.materials_uploaded = SupplierState.extracted ∷ []
successors SupplierState.extracted = SupplierState.awaiting_supplier_review ∷ []
successors SupplierState.awaiting_supplier_review = SupplierState.confirmed ∷ []
successors SupplierState.confirmed = SupplierState.active ∷ []
successors SupplierState.active = SupplierState.suspended ∷ SupplierState.expired ∷ []
successors _ = []

abbrev pub HasMaterials : SupplierFacts → Type 0
HasMaterials f = IsPresent f.document_id

abbrev pub HasExtraction : SupplierFacts → Type 0
HasExtraction f = HasMaterials f × IsPresent f.extraction_id

abbrev pub HasReview : SupplierFacts → Type 0
HasReview f = HasExtraction f × IsPresent f.review_id

abbrev pub HasSubmission : SupplierFacts → Type 0
HasSubmission f = HasReview f × IsPresent f.review_submission_id

-- Every required field was confirmed by the supplier.
abbrev pub HasFields : SupplierFacts → Type 0
HasFields f =
    HasSubmission f × All (λ s. member s f.confirmed_fields ≡ true) required_supplier_fields

-- What the fields hold in each state.
abbrev pub Backing : SupplierState → SupplierFacts → Type 0
Backing SupplierState.draft f = Unit
Backing SupplierState.materials_uploaded f = HasMaterials f
Backing SupplierState.extracted f = HasExtraction f
Backing SupplierState.awaiting_supplier_review f = HasReview f
Backing SupplierState.confirmed f = HasSubmission f
Backing SupplierState.active f = HasFields f
Backing SupplierState.suspended f = HasFields f
Backing SupplierState.expired f = HasFields f

abbrev pub Step : SupplierState → SupplierFacts → SupplierState → SupplierFacts → Type 0
Step = StepOf supplier_state_enum successors Backing

-- The test of `_require_state` passed.
abbrev Allowed : List SupplierState → SupplierState → Type 0
Allowed allowed s = contains ⦃e = supplier_state_enum⦄ allowed s ≡ true

module _ (s : SupplierState) (f : SupplierFacts) where
  pub Step-to_materials_uploaded :
      (id : String)
      → Allowed (SupplierState.draft ∷ []) s
      → Step s f SupplierState.materials_uploaded (record f { document_id = some id })
  unfolding contains supplier_state_index
  Step-to_materials_uploaded id h = ground arith

  pub Step-to_extracted :
      (id : String)
      → Allowed (SupplierState.materials_uploaded ∷ []) s
      → Step s f SupplierState.extracted (record f { extraction_id = some id })
  unfolding contains supplier_state_index
  Step-to_extracted id h = ground arith

  pub Step-to_awaiting_supplier_review :
      (id : String)
      → Allowed (SupplierState.extracted ∷ []) s
      → Step s f SupplierState.awaiting_supplier_review (record f { review_id = some id })
  unfolding contains supplier_state_index
  Step-to_awaiting_supplier_review id h = ground arith

  pub Step-to_confirmed :
      (id : String) (fields : List String)
      → Allowed (SupplierState.awaiting_supplier_review ∷ []) s
      → Step s f SupplierState.confirmed
          (record f { review_submission_id = some id; confirmed_fields = fields })
  unfolding contains supplier_state_index
  Step-to_confirmed id fields h = ground arith

  pub Step-to_active :
      All (λ s. member s f.confirmed_fields ≡ true) required_supplier_fields
      → Allowed (SupplierState.confirmed ∷ []) s
      → Step s f SupplierState.active f
  unfolding contains supplier_state_index
  Step-to_active all h = ground arith

  pub Step-to_suspended : Allowed (SupplierState.active ∷ []) s → Step s f SupplierState.suspended f
  unfolding contains supplier_state_index
  Step-to_suspended h = ground arith

  pub Step-to_expired : Allowed (SupplierState.active ∷ []) s → Step s f SupplierState.expired f
  unfolding contains supplier_state_index
  Step-to_expired h = ground arith

pub ruleset step_rules = (
  Step-to_materials_uploaded, Step-to_extracted, Step-to_awaiting_supplier_review,
  Step-to_confirmed, Step-to_active, Step-to_suspended, Step-to_expired,
)
