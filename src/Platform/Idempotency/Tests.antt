-- ===== src/Platform/Idempotency/Tests.antt =====
-- Runs of platform/idempotency.py with a handler that counts how often it runs.
use hackathon_open_ai.Prelude.{
  arith, str_eq_iff, ℕ, ◌+◌, ◌≡◌, ◌≢◌, refl, String, true, false, List, [], ◌∷◌, ◌⊎◌, inl, inr,
}
use hackathon_open_ai.Value.{Value}
use hackathon_open_ai.Platform.Idempotency.Registry.{Answer, State, Command, execute, execute_all}
use hackathon_open_ai.Platform.Idempotency.Replay.{executes_once}
use hackathon_open_ai.Platform.Idempotency.Conflict.{reuse_conflicts}

-- A stand-in for the digest, which refuses what is not a text.
abbrev hash : Value → String ⊎ String
hash (Value.text s) = inl s
hash v = inr "TypeError"

abbrev count_up : ℕ → Answer String ℕ × ℕ
count_up n = (Answer.returned (n + 1), n + 1)

abbrev fails : ℕ → Answer String ℕ × ℕ
fails n = (Answer.raised "Timeout", n + 10)

abbrev command : String → String → (ℕ → Answer String ℕ × ℕ) → Command ℕ String ℕ
command key payload handler = record {
  record_key = record { tenant_id = "ten_1"; operation = "send_rfq"; key = key };
  payload = Value.text payload;
  handler = handler;
}

abbrev start : State ℕ ℕ
start = record { records = []; world = 0 }

first : (execute hash (command "key_1" "a" count_up) start).0 ≡ Answer.returned 1
unfolding execute
first = refl

abbrev later : List (Command ℕ String ℕ)
later = command "key_2" "a" count_up ∷ command "key_3" "a" fails ∷ command "key_1" "b" count_up ∷ []

-- A handler that raises is not recorded, and runs again.
retried :
    (execute_all hash (command "key_1" "a" fails ∷ command "key_1" "a" count_up ∷ []) start).world
    ≡ 11
unfolding execute_all
retried = refl

executes_once_example :
    execute hash
      (command "key_1" "a" fails)
      (execute_all hash later (execute hash (command "key_1" "a" count_up) start).1)
    ≡ (
      Answer.returned 1,
      execute_all hash later (execute hash (command "key_1" "a" count_up) start).1,
    )
executes_once_example = executes_once hash (command "key_1" "a" count_up) start 1 later fails first

abbrev a : String
a = "a"

abbrev b : String
b = "b"

false-ne-true : false ≢ true
false-ne-true h = ground arith

a_is_not_b : a ≢ b
a_is_not_b h = absurd (false-ne-true ((str_eq_iff a b).1 h))

reuse_conflicts_example :
    execute hash
      (command "key_1" "b" fails)
      (execute_all hash later (execute hash (command "key_1" "a" count_up) start).1)
    ≡ (
      Answer.conflict,
      execute_all hash later (execute hash (command "key_1" "a" count_up) start).1,
    )
reuse_conflicts_example =
    reuse_conflicts hash (command "key_1" "a" count_up) start 1 later (Value.text "b") fails "a" "b"
      refl refl a_is_not_b first
