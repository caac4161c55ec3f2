-- ===== src/Domain/Suppliers/Tests.antt =====
-- Runs of a supplier on concrete inputs.
use hackathon_open_ai.Domain.Suppliers.Facts.{no_facts, Supplier, required_supplier_fields}
use hackathon_open_ai.Domain.Suppliers.Calls.{Call, run}
use hackathon_open_ai.Domain.Suppliers.Histories.{supplier_lifecycle, runs, supplier_call-IsAtomic}
use hackathon_open_ai.Domain.Suppliers.Methods
use hackathon_open_ai.Domain.Common.Lifecycle.{IsAtomic}
use hackathon_open_ai.Contracts.{SupplierState}
use hackathon_open_ai.Domain.Common.{require_non_empty}
use hackathon_open_ai.Value.{Value}
use hackathon_open_ai.Prelude.{[], ◌∷◌, List, some, none, ◌≡◌, refl}

abbrev fresh : Supplier
fresh = record {
  id = "sup_1";
  tenant_id = "ten_1";
  state = SupplierState.draft;
  version = 1;
  pending_events =
      record {
        event_type = "SUPPLIER_CREATED";
        aggregate_type = "supplier";
        aggregate_id = "sup_1";
        previous_state = none;
        new_state = some "DRAFT";
        aggregate_version = 1;
        payload = [];
      }
      ∷ [];
  facts = no_facts;
}

abbrev to_active : List Call
to_active =
    Call.record_materials_uploaded (Value.text "doc_1")
    ∷ Call.record_extraction (Value.text "ext_1")
    ∷ Call.suspend (Value.text "too early")
    ∷ Call.request_review (Value.text "rev_1")
    ∷ Call.confirm_review (Value.text "sub_1") required_supplier_fields
    ∷ Call.activate
    ∷ []

to_active_activates : (runs to_active fresh).state ≡ SupplierState.active
unfolding run Methods.record_materials_uploaded Methods.record_extraction Methods.suspend
    Methods.request_review Methods.confirm_review Methods.activate
    hackathon_open_ai.Domain.Common.Methods.require_state hackathon_open_ai.Contracts.contains
    hackathon_open_ai.Contracts.supplier_state_index require_non_empty
    hackathon_open_ai.Prelude.is_blank hackathon_open_ai.Domain.Common.Methods.transition
    hackathon_open_ai.Prelude.difference hackathon_open_ai.Prelude.sorted_set
to_active_activates = refl

supplier_call-IsAtomic_example : IsAtomic supplier_lifecycle fresh (run Call.activate fresh)
supplier_call-IsAtomic_example = supplier_call-IsAtomic Call.activate fresh
