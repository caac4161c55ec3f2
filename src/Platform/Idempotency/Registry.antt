-- ===== src/Platform/Idempotency/Registry.antt =====
-- platform/idempotency.py: the registry, which runs a handler once for each key. `W` is what handlers
-- change, `T` what they return, `E` what they raise; the hash of a payload is a parameter, which
-- raises for a payload that is refused. The lock makes calls follow one another.
use hackathon_open_ai.Prelude.{
  String, Bool, Option, none, some, List, [], ◌∷◌, ◌++◌, ◌&&◌, if◌then◌else◌, str_eq, ◌⊎◌, inl, inr,
}
use hackathon_open_ai.Value.{Value}

-- `(tenant_id, operation, key)`
pub record RecordKey : Type 0 where
  pub tenant_id : String
  pub operation : String
  pub key : String

-- `_Record` under its key.
pub record Record (T : Type 0) : Type 0 where
  pub record_key : RecordKey
  pub fingerprint : String
  pub result : T

pub data Answer (E T : Type 0) : Type 0 where
  returned : T → Answer E T
  conflict : Answer E T
  raised : E → Answer E T

pub record State (W T : Type 0) : Type 0 where
  pub records : List (Record T)
  pub world : W

unfoldable pub same_key : RecordKey → RecordKey → Bool
same_key a b =
    str_eq a.tenant_id b.tenant_id && str_eq a.operation b.operation && str_eq a.key b.key

module _ {T : Type 0} where
  -- `self._records.get(record_key)`
  unfoldable pub get : RecordKey → List (Record T) → Option (Record T)
  unfolding same_key
  get key [] = none
  get key (r ∷ rs) = let rest = get key rs in if same_key r.record_key key then some r else rest

-- A call: its key, its payload, and the handler, which may raise.
pub record Command (W E T : Type 0) : Type 0 where
  pub record_key : RecordKey
  pub payload : Value
  pub handler : W → Answer E T × W

module _ {W E T : Type 0} where
  -- What follows the handler: a result is recorded under the key.
  unfoldable pub recorded :
      RecordKey → String → List (Record T) → Answer E T × W → Answer E T × State W T
  recorded key fingerprint records (Answer.returned x, world) = (
    Answer.returned x,
    record {
      records = records ++ record { record_key = key; fingerprint = fingerprint; result = x } ∷ [];
      world = world;
    },
  )
  recorded key fingerprint records (answer, world) =
      (answer, record { records = records; world = world })

  unfoldable pub replay : String → Record T → State W T → Answer E T × State W T
  replay fingerprint existing state =
      if str_eq existing.fingerprint fingerprint
      then (Answer.returned existing.result, state)
      else (Answer.conflict, state)

  unfoldable pub answer_by :
      Command W E T → String → Option (Record T) → State W T → Answer E T × State W T
  unfolding recorded replay
  answer_by command fingerprint none state =
      recorded command.record_key fingerprint state.records (command.handler state.world)
  answer_by command fingerprint (some existing) state = replay fingerprint existing state

  -- What is done with the hash of the payload.
  unfoldable pub execute_hashed : Command W E T → String ⊎ E → State W T → Answer E T × State W T
  unfolding answer_by get
  execute_hashed command (inl fingerprint) state =
      answer_by command fingerprint (get command.record_key state.records) state
  execute_hashed command (inr e) state = (Answer.raised e, state)

  unfoldable pub execute : (Value → String ⊎ E) → Command W E T → State W T → Answer E T × State W T
  unfolding execute_hashed
  execute hash command state = execute_hashed command (hash command.payload) state

  unfoldable pub execute_all : (Value → String ⊎ E) → List (Command W E T) → State W T → State W T
  unfolding execute
  execute_all hash [] state = state
  execute_all hash (c ∷ cs) state = execute_all hash cs (execute hash c state).1
