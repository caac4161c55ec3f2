-- ===== src/Outbox/Settled.antt =====
-- infrastructure/outbox/repository.py: what a settled item is, and how a call may end that settles one.
use hackathon_open_ai.Prelude.{◌⊎◌, ℕ, ◌≡◌, refl, String, none, some}
use hackathon_open_ai.Shared.{strip}
use hackathon_open_ai.Outbox.Leases.{first_characters, failed_row, delivered_row}
use hackathon_open_ai.Outbox.Rows.{
  OutboxStatus, OutboxItem, Table, Outcome, done, raised, OutboxError, find_item, set_item,
}
use hackathon_open_ai.Outbox.Held.{Holds}

-- The row is the one that was found, with the columns that no settlement touches.
pub record Same (r new : OutboxItem) : Type 0 where
  pub id : new.id ≡ r.id
  pub tenant_id : new.tenant_id ≡ r.tenant_id
  pub kind : new.kind ≡ r.kind
  pub aggregate_type : new.aggregate_type ≡ r.aggregate_type
  pub aggregate_id : new.aggregate_id ≡ r.aggregate_id
  pub payload : new.payload ≡ r.payload
  pub payload_fingerprint : new.payload_fingerprint ≡ r.payload_fingerprint
  pub idempotency_key : new.idempotency_key ≡ r.idempotency_key
  pub attempt_count : new.attempt_count ≡ r.attempt_count
  pub created_at : new.created_at ≡ r.created_at
  pub unlocked : new.locked_by ≡ none
  pub no_lease : new.locked_until ≡ none

-- The row as it is after a delivery that `ack` acknowledges at `at`.
pub record Delivered (ack : String) (at : ℕ) (r new : OutboxItem) : Type 0 where
  pub same : Same r new
  pub status : new.status ≡ OutboxStatus.delivered
  pub acknowledged : new.external_delivery_id ≡ some ack
  pub delivered_at : new.delivered_at ≡ some at
  pub updated_at : new.updated_at ≡ at
  pub no_error : new.last_error ≡ none
  pub no_next : new.next_attempt_at ≡ none

-- The row as it is after an attempt that failed with `error`, to be tried again at `next`.
pub record Failed (error : String) (next now : ℕ) (r new : OutboxItem) : Type 0 where
  pub same : Same r new
  pub status : new.status ≡ OutboxStatus.failed
  pub last_error : new.last_error ≡ some (first_characters 2000 (strip error))
  pub next_attempt_at : new.next_attempt_at ≡ some next
  pub updated_at : new.updated_at ≡ now
  pub same_delivery : new.external_delivery_id ≡ r.external_delivery_id
  pub never_delivered : new.delivered_at ≡ r.delivered_at

-- How a call ends that settles an item: the item that was found is held and `Written` in its place,
-- or it was settled already and is `Known`, or the call raises, because no item is found that is
-- either, and nothing changes.
pub data Settled (Written : OutboxItem → OutboxItem → Type 0) (Known : OutboxItem → Type 0)
    (tenant id worker : String) (attempt now : ℕ) (t : Table)
    : Outcome OutboxItem × Table → Type 0 where
  settled :
      (r new : OutboxItem)
      → find_item tenant id t ≡ some r
      → Holds worker attempt now r
      → Written r new
      → Settled Written Known tenant id worker attempt now t (done new, set_item tenant id new t)
  repeated :
      (r : OutboxItem)
      → find_item tenant id t ≡ some r
      → Known r
      → Settled Written Known tenant id worker attempt now t (done r, t)
  refused :
      (e : OutboxError)
      → ((r : OutboxItem)
          → find_item tenant id t ≡ some r
          → Holds worker attempt now r ⊎ Known r
          → ⊥)
      → Settled Written Known tenant id worker attempt now t (raised e, t)

-- The item is delivered, with the acknowledgement.
pub record Acknowledged (ack : String) (r : OutboxItem) : Type 0 where
  pub status : r.status ≡ OutboxStatus.delivered
  pub acknowledged : r.external_delivery_id ≡ some ack

abbrev pub Never : OutboxItem → Type 0
Never r = ⊥

pub failed_row-Failed :
    (error : String) (next now : ℕ) (r : OutboxItem)
    → Failed error next now r (failed_row error next now r)
unfolding failed_row
failed_row-Failed error next now r = record {
  same = record {
    id = refl;
    tenant_id = refl;
    kind = refl;
    aggregate_type = refl;
    aggregate_id = refl;
    payload = refl;
    payload_fingerprint = refl;
    idempotency_key = refl;
    attempt_count = refl;
    created_at = refl;
    unlocked = refl;
    no_lease = refl;
  };
  status = refl;
  last_error = refl;
  next_attempt_at = refl;
  updated_at = refl;
  same_delivery = refl;
  never_delivered = refl;
}

pub delivered_row-Delivered :
    (ack : String) (at : ℕ) (r : OutboxItem) → Delivered ack at r (delivered_row ack at r)
unfolding delivered_row
delivered_row-Delivered ack at r = record {
  same = record {
    id = refl;
    tenant_id = refl;
    kind = refl;
    aggregate_type = refl;
    aggregate_id = refl;
    payload = refl;
    payload_fingerprint = refl;
    idempotency_key = refl;
    attempt_count = refl;
    created_at = refl;
    unlocked = refl;
    no_lease = refl;
  };
  status = refl;
  acknowledged = refl;
  delivered_at = refl;
  updated_at = refl;
  no_error = refl;
  no_next = refl;
}
