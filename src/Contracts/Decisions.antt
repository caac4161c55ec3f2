-- ===== src/Contracts/Decisions.antt =====
-- contracts/common.py: `ApprovalStatus`, `AwardStatus`, with the numbering of the members and its inverse.
use hackathon_open_ai.Prelude.{ℕ, zero, suc, String, Option, none, some, ◌≡◌, refl}
use hackathon_open_ai.Contracts.Enums.{StrEnum, injective_of_inverse}

pub data ApprovalStatus : Type 0 where
  requested approved rejected changes_requested : ApprovalStatus

unfoldable pub approval_status_value : ApprovalStatus → String
approval_status_value ApprovalStatus.requested = "REQUESTED"
approval_status_value ApprovalStatus.approved = "APPROVED"
approval_status_value ApprovalStatus.rejected = "REJECTED"
approval_status_value ApprovalStatus.changes_requested = "CHANGES_REQUESTED"

unfoldable pub approval_status_index : ApprovalStatus → ℕ
approval_status_index ApprovalStatus.requested = 0
approval_status_index ApprovalStatus.approved = 1
approval_status_index ApprovalStatus.rejected = 2
approval_status_index ApprovalStatus.changes_requested = 3

approval_status_of : ℕ → Option ApprovalStatus
approval_status_of zero = some ApprovalStatus.requested
approval_status_of (suc zero) = some ApprovalStatus.approved
approval_status_of (suc (suc zero)) = some ApprovalStatus.rejected
approval_status_of (suc (suc (suc zero))) = some ApprovalStatus.changes_requested
approval_status_of _ = none

approval_status_of-index :
    (s : ApprovalStatus) → approval_status_of (approval_status_index s) ≡ some s
unfolding approval_status_of approval_status_index
approval_status_of-index ApprovalStatus.requested = refl
approval_status_of-index ApprovalStatus.approved = refl
approval_status_of-index ApprovalStatus.rejected = refl
approval_status_of-index ApprovalStatus.changes_requested = refl

pub approval_status_index_injective :
    (s t : ApprovalStatus) → approval_status_index s ≡ approval_status_index t → s ≡ t
approval_status_index_injective =
    injective_of_inverse approval_status_index approval_status_of approval_status_of-index

instance abbrev pub approval_status_enum : StrEnum ApprovalStatus
approval_status_enum = record {
  value = approval_status_value;
  index = approval_status_index;
  index_injective = approval_status_index_injective;
}

pub data AwardStatus : Type 0 where
  created sent accepted declined : AwardStatus

unfoldable pub award_status_value : AwardStatus → String
award_status_value AwardStatus.created = "CREATED"
award_status_value AwardStatus.sent = "SENT"
award_status_value AwardStatus.accepted = "ACCEPTED"
award_status_value AwardStatus.declined = "DECLINED"

unfoldable pub award_status_index : AwardStatus → ℕ
award_status_index AwardStatus.created = 0
award_status_index AwardStatus.sent = 1
award_status_index AwardStatus.accepted = 2
award_status_index AwardStatus.declined = 3

award_status_of : ℕ → Option AwardStatus
award_status_of zero = some AwardStatus.created
award_status_of (suc zero) = some AwardStatus.sent
award_status_of (suc (suc zero)) = some AwardStatus.accepted
award_status_of (suc (suc (suc zero))) = some AwardStatus.declined
award_status_of _ = none

award_status_of-index : (s : AwardStatus) → award_status_of (award_status_index s) ≡ some s
unfolding award_status_of award_status_index
award_status_of-index AwardStatus.created = refl
award_status_of-index AwardStatus.sent = refl
award_status_of-index AwardStatus.accepted = refl
award_status_of-index AwardStatus.declined = refl

pub award_status_index_injective :
    (s t : AwardStatus) → award_status_index s ≡ award_status_index t → s ≡ t
award_status_index_injective =
    injective_of_inverse award_status_index award_status_of award_status_of-index

instance abbrev pub award_status_enum : StrEnum AwardStatus
award_status_enum = record {
  value = award_status_value;
  index = award_status_index;
  index_injective = award_status_index_injective;
}
