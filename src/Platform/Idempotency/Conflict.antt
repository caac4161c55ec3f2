-- ===== src/Platform/Idempotency/Conflict.antt =====
-- platform/idempotency.py: a key that is used again for another payload.
use hackathon_open_ai.Prelude.{
  ◌≡◌, ◌≢◌, refl, ap, ◌∙◌, sym, String, List, str_eq_iff, arith, ◌⊎◌, inl, inr,
}
use hackathon_open_ai.Value.{Value}
use hackathon_open_ai.Platform.Idempotency.Registry.{
  Record, Answer, State, get, Command, replay, answer_by, execute_hashed, execute, execute_all,
}
use hackathon_open_ai.Platform.Idempotency.Replay.{Holds, answer_by-Holds, execute_all-keeps}

replay-other :
    {W T : Type 0} (E : Type 0) (fingerprint : String) (r : Record T) (s : State W T)
    → r.fingerprint ≢ fingerprint
    → replay {E = E} fingerprint r s ≡ (Answer.conflict, s)
unfolding replay
replay-other E fingerprint r s h = ground (arith, str_eq_iff r.fingerprint fingerprint)

module _ {W E T : Type 0} where
  answer_by-other :
      (c : Command W E T) (fingerprint other : String) (x : T) (u : State W T)
      → Holds c.record_key fingerprint x u.records
      → fingerprint ≢ other
      → answer_by c other (get c.record_key u.records) u ≡ (Answer.conflict, u)
  unfolding answer_by
  answer_by-other c fingerprint other x u h differ =
      ap (λ o. answer_by c other o u) h.found
      ∙ replay-other E other h.entry u (λ e. differ (sym h.same ∙ e))

  hashed_other :
      (c : Command W E T) (o p : String ⊎ E) (s : State W T) (x : T) (hash : Value → String ⊎ E)
      (later : List (Command W E T)) (payload : Value) (handler : W → Answer E T × W)
      (fingerprint other : String)
      → o ≡ inl fingerprint
      → p ≡ inl other
      → fingerprint ≢ other
      → (execute_hashed c o s).0 ≡ Answer.returned x
      → execute_hashed
          (record c { payload = payload; handler = handler })
          p
          (execute_all hash later (execute_hashed c o s).1)
        ≡ (Answer.conflict, execute_all hash later (execute_hashed c o s).1)
  unfolding execute_hashed
  hashed_other c (inl a) (inl b) s x hash later payload handler fingerprint other e f differ h =
      let u = execute_all hash later (answer_by c a (get c.record_key s.records) s).1 in
      let held = answer_by-Holds c a (get c.record_key s.records) s x refl h in
      answer_by-other (record c { payload = payload; handler = handler }) a b x u
        record {
          entry = held.entry;
          found = execute_all-keeps hash later _ c.record_key held.entry held.found;
          same = held.same;
          result = held.result;
        }
        (λ g. differ cc)
  hashed_other c (inl a) (inr q) s x hash later payload handler fingerprint other e f differ h =
      absurd cc
  hashed_other c (inr q) p s x hash later payload handler fingerprint other e f differ h = absurd cc

-- Once a command returned, the same key with a payload that hashes differently is refused as a
-- conflict ever after, whatever commands were executed meanwhile, and changes nothing.
pub reuse_conflicts :
    {W E T : Type 0} (hash : Value → String ⊎ E) (c : Command W E T) (s : State W T) (x : T)
    (later : List (Command W E T)) (payload : Value) (handler : W → Answer E T × W)
    (fingerprint other : String)
    → hash c.payload ≡ inl fingerprint
    → hash payload ≡ inl other
    → fingerprint ≢ other
    → (execute hash c s).0 ≡ Answer.returned x
    → execute hash
        (record c { payload = payload; handler = handler })
        (execute_all hash later (execute hash c s).1)
      ≡ (Answer.conflict, execute_all hash later (execute hash c s).1)
unfolding execute execute_hashed
reuse_conflicts {E = E} hash c s x later payload handler fingerprint other e f differ h =
    hashed_other c (hash c.payload) (hash payload) s x hash later payload handler fingerprint other
      e f differ h
