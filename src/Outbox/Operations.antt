-- ===== src/Outbox/Operations.antt =====
-- infrastructure/outbox/repository.py: the operations of any workers and tenants, one after another.
use hackathon_open_ai.Prelude.{ℕ, String, Bool, List, [], ◌∷◌}
use hackathon_open_ai.Outbox.Rows.{OutboxItem, Table}
use hackathon_open_ai.Outbox.Enqueue.{Json, enqueue}
use hackathon_open_ai.Outbox.Leases.{claim_due, mark_failed, mark_delivered}

-- A call with its arguments, the tenant first. A claim names the rows that others hold.
pub data Operation : Type 0 where
  enqueuing : String → OutboxItem → Operation
  claiming : String → (String → Bool) → String → ℕ → ℕ → ℕ → Operation
  failing : String → String → String → ℕ → String → ℕ → ℕ → Operation
  delivering : String → String → String → ℕ → String → ℕ → Operation

-- The table after a call, whether it returns or raises.
unfoldable pub perform : Json → (String → String → Bool) → Operation → Table → Table
perform json collate (Operation.enqueuing tenant item) table = (enqueue json tenant item table).1
perform json collate (Operation.claiming tenant held worker now lease limit) table =
    (claim_due collate held tenant worker now lease limit table).1
perform json collate (Operation.failing tenant id worker attempt error next now) table =
    (mark_failed tenant id worker attempt error next now table).1
perform json collate (Operation.delivering tenant id worker attempt ack at) table =
    (mark_delivered tenant id worker attempt ack at table).1

unfoldable pub perform_all : Json → (String → String → Bool) → List Operation → Table → Table
unfolding perform
perform_all json collate [] table = table
perform_all json collate (o ∷ os) table = perform_all json collate os (perform json collate o table)
