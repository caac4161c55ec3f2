-- ===== src/Domain/Suppliers/Facts.antt =====
-- domain/suppliers/aggregate.py: the attributes of `SupplierAggregate` and its constructor.
use hackathon_open_ai.Prelude.{String, Option, none, List, [], ◌∷◌}
use hackathon_open_ai.Value.{Value}
use hackathon_open_ai.Contracts.{SupplierState, supplier_state_enum}
use hackathon_open_ai.Domain.Common.{
  Aggregate, AggregateClass, new_aggregate, Result, ◌>>=◌, require_prefixed_id,
}

pub record SupplierFacts : Type 0 where
  pub document_id : Option String
  pub extraction_id : Option String
  pub review_id : Option String
  pub review_submission_id : Option String
  -- a frozenset
  pub confirmed_fields : List String

abbrev pub Supplier : Type 0
Supplier = Aggregate SupplierState SupplierFacts

instance abbrev pub supplier_class : AggregateClass SupplierState
supplier_class = record { aggregate_type = "supplier"; enum = supplier_state_enum }

abbrev pub no_facts : SupplierFacts
no_facts = record {
  document_id = none;
  extraction_id = none;
  review_id = none;
  review_submission_id = none;
  confirmed_fields = [];
}

-- `SupplierAggregate.create`
unfoldable pub create : Value → Value → Result Supplier
create supplier_id tenant_id = do
  id ← require_prefixed_id supplier_id "supplier_id" "sup_"
  new_aggregate id tenant_id SupplierState.draft "SUPPLIER_CREATED" no_facts

-- `REQUIRED_SUPPLIER_FIELDS`, sorted.
abbrev pub required_supplier_fields : List String
required_supplier_fields =
    "approximate_capacity" ∷ "category" ∷ "commercial_identity" ∷ "contact" ∷ "invoice_issuance"
    ∷ "minimum_lead_time" ∷ "minimum_quantity" ∷ "pricing_method" ∷ "service_region"
    ∷ "supported_restrictions" ∷ "updated_at" ∷ []
