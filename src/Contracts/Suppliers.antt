-- ===== src/Contracts/Suppliers.antt =====
-- contracts/common.py: `SupplierState`, with the numbering of the members and its inverse.
use hackathon_open_ai.Prelude.{ℕ, zero, suc, String, Option, none, some, ◌≡◌, refl}
use hackathon_open_ai.Contracts.Enums.{StrEnum, injective_of_inverse}

pub data SupplierState : Type 0 where
  draft materials_uploaded extracted awaiting_supplier_review : SupplierState
  confirmed active suspended expired : SupplierState

unfoldable pub supplier_state_value : SupplierState → String
supplier_state_value SupplierState.draft = "DRAFT"
supplier_state_value SupplierState.materials_uploaded = "MATERIALS_UPLOADED"
supplier_state_value SupplierState.extracted = "EXTRACTED"
supplier_state_value SupplierState.awaiting_supplier_review = "AWAITING_SUPPLIER_REVIEW"
supplier_state_value SupplierState.confirmed = "CONFIRMED"
supplier_state_value SupplierState.active = "ACTIVE"
supplier_state_value SupplierState.suspended = "SUSPENDED"
supplier_state_value SupplierState.expired = "EXPIRED"

unfoldable pub supplier_state_index : SupplierState → ℕ
supplier_state_index SupplierState.draft = 0
supplier_state_index SupplierState.materials_uploaded = 1
supplier_state_index SupplierState.extracted = 2
supplier_state_index SupplierState.awaiting_supplier_review = 3
supplier_state_index SupplierState.confirmed = 4
supplier_state_index SupplierState.active = 5
supplier_state_index SupplierState.suspended = 6
supplier_state_index SupplierState.expired = 7

supplier_state_of : ℕ → Option SupplierState
supplier_state_of zero = some SupplierState.draft
supplier_state_of (suc zero) = some SupplierState.materials_uploaded
supplier_state_of (suc (suc zero)) = some SupplierState.extracted
supplier_state_of (suc (suc (suc zero))) = some SupplierState.awaiting_supplier_review
supplier_state_of (suc (suc (suc (suc zero)))) = some SupplierState.confirmed
supplier_state_of (suc (suc (suc (suc (suc zero))))) = some SupplierState.active
supplier_state_of (suc (suc (suc (suc (suc (suc zero)))))) = some SupplierState.suspended
supplier_state_of (suc (suc (suc (suc (suc (suc (suc zero))))))) = some SupplierState.expired
supplier_state_of _ = none

supplier_state_of-index : (s : SupplierState) → supplier_state_of (supplier_state_index s) ≡ some s
unfolding supplier_state_of supplier_state_index
supplier_state_of-index SupplierState.draft = refl
supplier_state_of-index SupplierState.materials_uploaded = refl
supplier_state_of-index SupplierState.extracted = refl
supplier_state_of-index SupplierState.awaiting_supplier_review = refl
supplier_state_of-index SupplierState.confirmed = refl
supplier_state_of-index SupplierState.active = refl
supplier_state_of-index SupplierState.suspended = refl
supplier_state_of-index SupplierState.expired = refl

pub supplier_state_index_injective :
    (s t : SupplierState) → supplier_state_index s ≡ supplier_state_index t → s ≡ t
supplier_state_index_injective =
    injective_of_inverse supplier_state_index supplier_state_of supplier_state_of-index

instance abbrev pub supplier_state_enum : StrEnum SupplierState
supplier_state_enum = record {
  value = supplier_state_value;
  index = supplier_state_index;
  index_injective = supplier_state_index_injective;
}
