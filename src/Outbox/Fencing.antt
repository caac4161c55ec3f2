-- ===== src/Outbox/Fencing.antt =====
-- infrastructure/outbox/repository.py: only the holder of a lease that is active settles an item, and
-- nobody else claims it meanwhile.
use hackathon_open_ai.Prelude.{ℕ, ◌≡◌, refl, String, Bool, some}
use hackathon_open_ai.Outbox.Leases.{claim_due, mark_failed, mark_delivered}
use hackathon_open_ai.Outbox.Rows.{OutboxItem, Table, find_item, row_of}
use hackathon_open_ai.Outbox.Kept.{row_of-claim_due}
use hackathon_open_ai.Outbox.Held.{Holds, not_due_while_held}
use hackathon_open_ai.Outbox.Settled.{Settled, Failed, Delivered, Acknowledged, Never}
use hackathon_open_ai.Outbox.Settling.{fail_found-Settled, deliver_found-Settled}

-- While a worker holds an item, no claim at that time changes it, whoever claims and whatever rows are
-- locked.
pub lease_excludes :
    (collate : String → String → Bool) (held : String → Bool) (tenant claimer id worker : String)
    (now lease limit attempt : ℕ) (t : Table) (r : OutboxItem)
    → row_of id t ≡ some r
    → Holds worker attempt now r
    → row_of id (claim_due collate held tenant claimer now lease limit t).1 ≡ some r
lease_excludes collate held tenant claimer id worker now lease limit attempt t r h k =
    row_of-claim_due collate held tenant claimer id now lease limit t r h
      (not_due_while_held now r k.processing k.lasts)

-- `mark_failed` returns exactly where the item is found and the worker holds it in the attempt it
-- names, under a lease that is not over; then the item itself takes its place as failed, with the
-- error's first 2000 characters and the next attempt, without a lease, and its attempts, payload, key
-- and delivery as they were. Otherwise it raises, and the table stays as it is.
pub mark_failed-Settled :
    (tenant id worker error : String) (attempt next now : ℕ) (t : Table)
    → Settled
        (Failed error next now)
        Never
        tenant
        id
        worker
        attempt
        now
        t
        (mark_failed tenant id worker attempt error next now t)
unfolding mark_failed
mark_failed-Settled tenant id worker error attempt next now t =
    fail_found-Settled tenant id worker attempt now t error next (find_item tenant id t) refl

-- `mark_delivered` returns exactly where the item is found and either the worker holds it in the
-- attempt it names, under a lease that is not over, and the item itself takes its place as delivered,
-- with the acknowledgement and the time, without a lease, and its attempts, payload and key as they
-- were; or it is delivered already with the same acknowledgement, and the table stays as it is.
-- Otherwise it raises, and the table stays as it is.
pub mark_delivered-Settled :
    (tenant id worker ack : String) (attempt at : ℕ) (t : Table)
    → Settled
        (Delivered ack at)
        (Acknowledged ack)
        tenant
        id
        worker
        attempt
        at
        t
        (mark_delivered tenant id worker attempt ack at t)
unfolding mark_delivered
mark_delivered-Settled tenant id worker ack attempt at t =
    deliver_found-Settled tenant id worker attempt at t ack (find_item tenant id t) refl
