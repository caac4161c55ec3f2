-- ===== src/Rfq/Replay.antt =====
-- modules/rfq/service.py: the idempotency of an operation.
use hackathon_open_ai.Prelude.{
  string_eq, pair_eq, String, Option, none, some, str_append, str_eq, get, set,
}
use hackathon_open_ai.Shared.{ExecutionCode}
use hackathon_open_ai.Rfq.Contracts.{Context}
use hackathon_open_ai.Rfq.Store.{Result, replayed, Payload}
use hackathon_open_ai.Rfq.Environment.{Environment}
use hackathon_open_ai.Rfq.Actions.{Action, pure, reads, writes, guard, ◌>>=◌, ◌>>◌}

-- The context without its tracing fields.
unfoldable pub untraced : Context → Context
untraced c = record c { correlation_id = ""; causation_id = none; agent_run_id = none }

unfoldable pub normalized : Payload → Payload
unfolding untraced
normalized (Payload.creating c) = Payload.creating (record c { context = untraced c.context })
normalized (Payload.sending c) = Payload.sending (record c { context = untraced c.context })
normalized (Payload.comparing c) = Payload.comparing (record c { context = untraced c.context })
normalized (Payload.requesting c) = Payload.requesting (record c { context = untraced c.context })
normalized (Payload.awarding c) = Payload.awarding (record c { context = untraced c.context })
normalized p = p

-- `f"{tenant_id}:{operation}"`
unfoldable pub operation_of : String → String → String
operation_of tenant operation = str_append tenant (str_append ":" operation)

module _ {W : Type 0} (env : Environment W) where
  unfoldable pub idempotency_hash : Payload → String
  unfolding normalized
  idempotency_hash p = env.hash (normalized p)

  unfoldable pub remember : String → String → Payload → Result → Action W (Unit {0})
  unfolding writes set idempotency_hash
  remember operation key payload result = writes λ s. record s {
    idempotency = set s.idempotency (operation, key) (idempotency_hash payload, result);
  }

  -- The rest of an operation runs where nothing is remembered for its key, and is remembered.
  unfoldable pub resume :
      String → String → Payload → Action W Result → Option (String × Result) → Action W Result
  unfolding ◌>>=◌ ◌>>◌ pure guard remember replayed idempotency_hash
  resume operation key payload rest (some (fingerprint, result)) = do
    guard (str_eq fingerprint (idempotency_hash payload)) ExecutionCode.idempotency_conflict
    pure (replayed result)
  resume operation key payload rest none = do
    result ← rest
    remember operation key payload result
    pure result

  unfoldable pub once : String → String → Payload → Action W Result → Action W Result
  unfolding ◌>>=◌ reads resume get
  once operation key payload rest = do
    existing ← reads (λ s. get s.idempotency (operation, key))
    resume operation key payload rest existing

  -- With a key of the caller's, which may be missing.
  unfoldable pub once_if : String → Option String → Payload → Action W Result → Action W Result
  unfolding once
  once_if operation none payload rest = rest
  once_if operation (some key) payload rest = once operation key payload rest
