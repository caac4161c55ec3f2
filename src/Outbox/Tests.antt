-- ===== src/Outbox/Tests.antt =====
-- Runs of infrastructure/outbox/repository.py on one item of one tenant.
use hackathon_open_ai.Prelude.{
  arith, ◌≡◌, refl, String, Bool, true, false, none, some, List, [], ◌∷◌, str_append,
}
use hackathon_open_ai.Value.{Value, Fields}
use hackathon_open_ai.Outbox.Rows.{OutboxStatus, OutboxItem, done, raised, OutboxError, row_of}
use hackathon_open_ai.Outbox.Enqueue.{Json, enqueue}
use hackathon_open_ai.Outbox.Leases.{claim, claim_due, mark_failed, mark_delivered, delivered_row}
use hackathon_open_ai.Outbox.Operations.{Operation, perform_all}
use hackathon_open_ai.Outbox.Finality.{delivered_is_final}
use hackathon_open_ai.Outbox.Held.{Holds}
use hackathon_open_ai.Outbox.Settled.{Settled, Delivered, Failed, Acknowledged, Never}
use hackathon_open_ai.Outbox.Fencing.{lease_excludes, mark_failed-Settled, mark_delivered-Settled}
use hackathon_open_ai.Outbox.Deduplication.{enqueue_again}

-- A stand-in for the digest: the texts of the object in a row.
abbrev spell : Fields → String
spell Fields.end = ""
spell (Fields.field name (Value.text s) rest) = str_append s (spell rest)
spell (Fields.field name v rest) = spell rest

abbrev json : Json
json = record { canonical = λ payload. some payload; fingerprint = spell }

abbrev item : OutboxItem
item = record {
  id = "obx_1";
  tenant_id = "ten_1";
  kind = "RFQ_SENT";
  aggregate_type = none;
  aggregate_id = "rfq_1";
  payload = Fields.end;
  payload_fingerprint = "rfq_1RFQ_SENT";
  idempotency_key = "key_1";
  status = OutboxStatus.pending;
  attempt_count = 0;
  next_attempt_at = none;
  last_error = none;
  external_delivery_id = none;
  locked_by = none;
  locked_until = none;
  delivered_at = none;
  created_at = 5;
  updated_at = 5;
}

enqueued : enqueue json "ten_1" item [] ≡ (done (item, true), item ∷ [])
unfolding enqueue
enqueued = refl

enqueued_first : (enqueue json "ten_1" item []).0 ≡ done (item, true)
unfolding enqueue
enqueued_first = refl

enqueue_again_example :
    (y : OutboxItem) × (enqueue json "ten_1" item (enqueue json "ten_1" item []).1
      ≡ (done (y, false), (enqueue json "ten_1" item []).1))
enqueue_again_example = enqueue_again json "ten_1" item [] (item, true) enqueued_first

abbrev collate : String → String → Bool
collate s t = true

abbrev held : String → Bool
held id = false

abbrev claimed : OutboxItem
claimed = claim "worker_1" 10 20 item

claims :
    claim_due collate held "ten_1" "worker_1" 10 20 5 (item ∷ [])
    ≡ (done (claimed ∷ []), claimed ∷ [])
unfolding claim_due claim
claims = refl

claimed_row : row_of "obx_1" (claimed ∷ []) ≡ some claimed
unfolding row_of claim
claimed_row = refl

claimed-Holds : Holds "worker_1" 1 12 claimed
unfolding claim
claimed-Holds = record {
  processing = refl;
  by_worker = refl;
  same_attempt = refl;
  lasts = omega arith;
}

lease_excludes_example :
    row_of "obx_1" (claim_due collate held "ten_1" "worker_2" 12 20 5 (claimed ∷ [])).1
    ≡ some claimed
lease_excludes_example =
    lease_excludes collate held "ten_1" "worker_2" "obx_1" "worker_1" 12 20 5 1 (claimed ∷ [])
      claimed claimed_row claimed-Holds

-- After the lease another worker claims the item, and the first one is refused.
late :
    mark_delivered "ten_1" "obx_1" "worker_1" 1 "ack_1" 40 (claim "worker_2" 35 20 claimed ∷ [])
    ≡ (raised OutboxError.stale_or_foreign_lease, claim "worker_2" 35 20 claimed ∷ [])
unfolding mark_delivered claim
late = refl

mark_failed-Settled_example :
    Settled
      (Failed "timeout" 60 12)
      Never
      "ten_1"
      "obx_1"
      "worker_1"
      1
      12
      (claimed ∷ [])
      (mark_failed "ten_1" "obx_1" "worker_1" 1 "timeout" 60 12 (claimed ∷ []))
mark_failed-Settled_example =
    mark_failed-Settled "ten_1" "obx_1" "worker_1" "timeout" 1 60 12 (claimed ∷ [])

mark_delivered-Settled_example :
    Settled
      (Delivered "ack_1" 12)
      (Acknowledged "ack_1")
      "ten_1"
      "obx_1"
      "worker_1"
      1
      12
      (claimed ∷ [])
      (mark_delivered "ten_1" "obx_1" "worker_1" 1 "ack_1" 12 (claimed ∷ []))
mark_delivered-Settled_example =
    mark_delivered-Settled "ten_1" "obx_1" "worker_1" "ack_1" 1 12 (claimed ∷ [])

abbrev delivered : OutboxItem
delivered = delivered_row "ack_1" 12 claimed

delivers :
    mark_delivered "ten_1" "obx_1" "worker_1" 1 "ack_1" 12 (claimed ∷ [])
    ≡ (done delivered, delivered ∷ [])
unfolding mark_delivered claim delivered_row
delivers = refl

delivered_found : row_of "obx_1" (delivered ∷ []) ≡ some delivered
unfolding row_of delivered_row claim
delivered_found = refl

delivered_status : delivered.status ≡ OutboxStatus.delivered
unfolding delivered_row
delivered_status = refl

abbrev later : List Operation
later =
    Operation.enqueuing "ten_1" item
    ∷ Operation.claiming "ten_1" held "worker_2" 90 20 5
    ∷ Operation.failing "ten_1" "obx_1" "worker_1" 1 "late" 60 13
    ∷ []

delivered_is_final_example :
    row_of "obx_1" (perform_all json collate later (delivered ∷ [])) ≡ some delivered
delivered_is_final_example =
    delivered_is_final json collate "obx_1" later (delivered ∷ []) delivered delivered_found
      delivered_status
