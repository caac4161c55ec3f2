-- ===== src/Rfq/Trail.antt =====
-- modules/rfq/service.py: identifiers, the audit trail, and the context of the service itself.
use hackathon_open_ai.Prelude.{
  string_eq, ℕ, suc, String, Option, none, some, [], ◌∷◌, ◌++◌, length, str_append, get, set,
}
use hackathon_open_ai.Value.{Fields}
use hackathon_open_ai.Rfq.Numerals.{padded, numeral}
use hackathon_open_ai.Rfq.Contracts.{Context, AuditEvent, ActorType}
use hackathon_open_ai.Rfq.Environment.{Environment}
use hackathon_open_ai.Rfq.Actions.{Action, pure, reads, writes, calls, ◌>>=◌, ◌>>◌}
use hackathon_open_ai.Rfq.Lookups.{tenant_for_request}

-- `d.get(k, 0)`
abbrev pub or_zero : Option ℕ → ℕ
or_zero none = 0
or_zero (some n) = n

-- `f"{prefix}_{number:04d}"`
unfoldable pub id_text : String → ℕ → String
unfolding padded
id_text prefix number = str_append prefix (str_append "_" (padded 4 number))

module _ {W : Type 0} where
  unfoldable pub new_id : String → Action W String
  unfolding ◌>>=◌ ◌>>◌ reads writes pure id_text get set
  new_id prefix = do
    number ← reads (λ s. suc (or_zero (get s.id_counters prefix)))
    writes (λ s. record s { id_counters = set s.id_counters prefix number })
    pure (id_text prefix number)

-- The arguments of `_audit` beside the context.
pub record Entry : Type 0 where
  pub event_type : String
  pub aggregate_type : String
  pub aggregate_id : String
  pub payload : Fields
  pub previous_state : Option String
  pub new_state : Option String
  pub origin : String

unfoldable pub event_of : Entry → Context → String → ℕ → AuditEvent
event_of entry context id now = record {
  event_id = id;
  tenant_id = context.tenant_id;
  event_type = entry.event_type;
  aggregate_type = entry.aggregate_type;
  aggregate_id = entry.aggregate_id;
  occurred_at = now;
  previous_state = entry.previous_state;
  new_state = entry.new_state;
  correlation_id = context.correlation_id;
  causation_id = context.causation_id;
  actor_type = context.actor_type;
  actor_id = context.actor_id;
  origin = entry.origin;
  agent_run_id = context.agent_run_id;
  idempotency_key = context.idempotency_key;
  payload = entry.payload;
}

module _ {W : Type 0} (env : Environment W) where
  unfoldable pub now : Action W ℕ
  unfolding calls
  now = calls env.now

  unfoldable pub add_event : AuditEvent → Action W (Unit {0})
  unfolding writes
  add_event event = writes λ s. record s { audit_events = s.audit_events ++ event ∷ [] }

  unfoldable pub audit : Entry → Context → Action W (Unit {0})
  unfolding ◌>>=◌ add_event new_id event_of now
  audit entry context = do
    id ← new_id "event"
    time ← now
    add_event (event_of entry context id time)

  unfoldable pub system_context : String → Action W Context
  unfolding ◌>>=◌ reads pure tenant_for_request numeral
  system_context request = do
    tenant ← tenant_for_request request
    events ← reads (λ s. length s.audit_events)
    pure (record {
      tenant_id = tenant;
      idempotency_key = str_append "system:" (str_append request (str_append ":" (numeral events)));
      correlation_id = str_append "cor:" request;
      causation_id = none;
      actor_type = ActorType.system;
      actor_id = "dev4_execution_service";
      agent_run_id = none;
    })
