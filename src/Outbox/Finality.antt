-- ===== src/Outbox/Finality.antt =====
-- infrastructure/outbox/repository.py: a delivered item is final.
use hackathon_open_ai.Prelude.{◌≡◌, refl, String, Bool, some, List, [], ◌∷◌}
use hackathon_open_ai.Outbox.Rows.{OutboxStatus, OutboxItem, Table, find_item, row_of}
use hackathon_open_ai.Outbox.Enqueue.{Json}
use hackathon_open_ai.Outbox.Leases.{mark_failed, mark_delivered}
use hackathon_open_ai.Outbox.Operations.{Operation, perform, perform_all}
use hackathon_open_ai.Outbox.Kept.{
  row_of-claim_due, row_of-fail_found, row_of-deliver_found, row_of-enqueue, delivered_not_due,
}

perform-final :
    (json : Json) (collate : String → String → Bool) (id : String) (o : Operation) (t : Table)
    (r : OutboxItem)
    → row_of id t ≡ some r
    → r.status ≡ OutboxStatus.delivered
    → row_of id (perform json collate o t) ≡ some r
unfolding perform mark_failed mark_delivered
perform-final json collate id (Operation.enqueuing tenant item) t r h d =
    row_of-enqueue id t r h json tenant item
perform-final json collate id (Operation.claiming tenant held worker now lease limit) t r h d =
    row_of-claim_due collate held tenant worker id now lease limit t r h (delivered_not_due now r d)
perform-final json collate id (Operation.failing tenant other worker attempt error next now) t r h
      d =
    row_of-fail_found tenant other worker id attempt t r h d error next now
      (find_item tenant other t) refl
perform-final json collate id (Operation.delivering tenant other worker attempt ack at) t r h d =
    row_of-deliver_found tenant other worker id attempt t r h d ack at (find_item tenant other t)
      refl

-- A delivered item is never changed again: whatever operations of any tenants and workers follow, its
-- row stays as it is.
pub delivered_is_final :
    (json : Json) (collate : String → String → Bool) (id : String) (os : List Operation) (t : Table)
    (r : OutboxItem)
    → row_of id t ≡ some r
    → r.status ≡ OutboxStatus.delivered
    → row_of id (perform_all json collate os t) ≡ some r
unfolding perform_all
delivered_is_final json collate id [] t r h d = h
delivered_is_final json collate id (o ∷ os) t r h d =
    delivered_is_final json collate id os (perform json collate o t) r
      (perform-final json collate id o t r h d) d
