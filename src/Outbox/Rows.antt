-- ===== src/Outbox/Rows.antt =====
-- infrastructure/outbox/repository.py and OutboxItemModel of infrastructure/db/models.py: the table
-- of outbox items. An instant is a number of microseconds in UTC.
use hackathon_open_ai.Prelude.{
  ℕ, String, Option, none, some, List, [], ◌∷◌, ◌&&◌, if◌then◌else◌, str_eq,
}
use hackathon_open_ai.Value.{Fields}

pub data OutboxStatus : Type 0 where
  pending processing delivered failed : OutboxStatus

-- A row, and the record that `_to_record` makes of it, which leaves out the fingerprint.
pub record OutboxItem : Type 0 where
  pub id : String
  pub tenant_id : String
  pub kind : String
  pub aggregate_type : Option String
  pub aggregate_id : String
  pub payload : Fields
  pub payload_fingerprint : String
  pub idempotency_key : String
  pub status : OutboxStatus
  pub attempt_count : ℕ
  pub next_attempt_at : Option ℕ
  pub last_error : Option String
  pub external_delivery_id : Option String
  pub locked_by : Option String
  pub locked_until : Option ℕ
  pub delivered_at : Option ℕ
  pub created_at : ℕ
  pub updated_at : ℕ

abbrev pub Table : Type 0
Table = List OutboxItem

pub data OutboxError : Type 0 where
  value_error type_error tenant_scope_violation record_not_found : OutboxError
  idempotency_conflict integrity_error : OutboxError
  different_ack stale_or_foreign_lease : OutboxError

pub data Outcome (A : Type 0) : Type 0 where
  done : A → Outcome A
  raised : OutboxError → Outcome A

-- The item of the tenant, by its id.
unfoldable pub find_item : String → String → Table → Option OutboxItem
find_item tenant id [] = none
find_item tenant id (r ∷ rs) =
    let rest = find_item tenant id rs in
    if str_eq r.id id && str_eq r.tenant_id tenant then some r else rest

-- What a flush writes back in the place of the item that was found.
unfoldable pub set_item : String → String → OutboxItem → Table → Table
set_item tenant id new [] = []
set_item tenant id new (r ∷ rs) =
    let rest = set_item tenant id new rs in
    if str_eq r.id id && str_eq r.tenant_id tenant then new ∷ rs else r ∷ rest

-- `_required_by_key`
unfoldable pub find_key : String → String → Table → Option OutboxItem
find_key tenant key [] = none
find_key tenant key (r ∷ rs) =
    let rest = find_key tenant key rs in
    if str_eq r.tenant_id tenant && str_eq r.idempotency_key key then some r else rest

-- The row with a primary key.
unfoldable pub row_of : String → Table → Option OutboxItem
row_of id [] = none
row_of id (r ∷ rs) = let rest = row_of id rs in if str_eq r.id id then some r else rest
