-- ===== src/Outbox/Enqueue.antt =====
-- infrastructure/outbox/repository.py: `enqueue`. The normal form of a JSON object and the SHA-256
-- digest of one are parameters.
use hackathon_open_ai.Prelude.{
  zero, suc, String, Bool, true, false, Option, none, some, [], ◌∷◌, ◌++◌, not, if◌then◌else◌,
  str_eq,
}
use hackathon_open_ai.Value.{Value, Fields}
use hackathon_open_ai.Outbox.Rows.{
  OutboxStatus, OutboxItem, Table, OutboxError, Outcome, done, raised, find_key, row_of,
}

pub record Json : Type 0 where
  -- `canonical_json_object`: nothing for what is no JSON
  pub canonical : Fields → Option Fields
  -- `fingerprint_payload`
  pub fingerprint : Fields → String

unfoldable pub is_new : OutboxItem → Bool
is_new item = elim item.status [
  | OutboxStatus.pending ↦ elim item.attempt_count [ zero ↦ true | suc n ↦ false ]
  | _ ↦ false
]

abbrev pub optional : Option String → Value
optional none = Value.null
optional (some s) = Value.text s

unfoldable pub fingerprint_of : Json → OutboxItem → Fields → String
fingerprint_of json item payload = json.fingerprint (
    Fields.field "aggregate_id" (Value.text item.aggregate_id) (
      Fields.field "aggregate_type" (optional item.aggregate_type) (
        Fields.field "kind" (Value.text item.kind)
          (Fields.field "payload" (Value.dict payload) Fields.end))))

-- The row that the statement inserts.
unfoldable pub new_row : OutboxItem → Fields → String → OutboxItem
new_row item payload fingerprint = record item {
  payload = payload;
  payload_fingerprint = fingerprint;
  last_error = none;
  external_delivery_id = none;
  locked_by = none;
  locked_until = none;
  delivered_at = none;
}

-- The row is new for its key; an id that is taken violates the primary key.
unfoldable pub insert_row :
    OutboxItem → OutboxItem → Option OutboxItem → Table → Outcome (OutboxItem × Bool) × Table
insert_row persisted row none table = (done (persisted, true), table ++ row ∷ [])
insert_row persisted row (some other) table = (raised OutboxError.integrity_error, table)

-- `INSERT ... ON CONFLICT (tenant_id, idempotency_key) DO NOTHING`, and what follows, by the row that
-- has the key. Whether the item was inserted is returned beside it.
unfoldable pub insert_or_find :
    OutboxItem → OutboxItem → Option OutboxItem → Table → Outcome (OutboxItem × Bool) × Table
unfolding insert_row row_of
insert_or_find persisted row none table = insert_row persisted row (row_of row.id table) table
insert_or_find persisted row (some existing) table =
    if str_eq existing.payload_fingerprint row.payload_fingerprint
    then (done (existing, false), table)
    else (raised OutboxError.idempotency_conflict, table)

-- What follows the checks, of a payload that is JSON.
unfoldable pub enqueue_canonical :
    Json → OutboxItem → Option Fields → Table → Outcome (OutboxItem × Bool) × Table
unfolding fingerprint_of new_row insert_or_find find_key
enqueue_canonical json item none table = (raised OutboxError.type_error, table)
enqueue_canonical json item (some payload) table =
    let fingerprint = fingerprint_of json item payload in
    insert_or_find (record item { payload = payload; payload_fingerprint = fingerprint })
      (new_row item payload fingerprint) (find_key item.tenant_id item.idempotency_key table) table

unfoldable pub enqueue : Json → String → OutboxItem → Table → Outcome (OutboxItem × Bool) × Table
unfolding is_new enqueue_canonical
enqueue json tenant item table =
    if not (str_eq item.tenant_id tenant)
    then (raised OutboxError.tenant_scope_violation, table)
    else if not (is_new item)
    then (raised OutboxError.value_error, table)
    else enqueue_canonical json item (json.canonical item.payload) table
