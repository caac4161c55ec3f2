-- ===== src/Platform/Idempotency/Replay.antt =====
-- platform/idempotency.py: a command that returned is never run again.
use hackathon_open_ai.Prelude.{
  inr, inl, ◌⊎◌, ◌≡◌, refl, ap, ◌∙◌, String, true, Option, none, some, List, [], ◌∷◌, ◌++◌,
  str_eq_iff, arith,
}
use hackathon_open_ai.Value.{Value}
use hackathon_open_ai.Platform.Idempotency.Registry.{
  RecordKey, Record, Answer, State, same_key, get, Command, recorded, replay, answer_by,
  execute_hashed, execute, execute_all,
}

same_key_refl : (k : RecordKey) → same_key k k ≡ true
unfolding same_key
same_key_refl k = ground (
  arith,
  str_eq_iff k.tenant_id k.tenant_id,
  str_eq_iff k.operation k.operation,
  str_eq_iff k.key k.key,
)

module _ {T : Type 0} where
  get-append_old :
      (key : RecordKey) (rs : List (Record T)) (new r : Record T)
      → get key rs ≡ some r
      → get key (rs ++ new ∷ []) ≡ some r
  unfolding get
  get-append_old key [] new r h = absurd cc
  get-append_old key (x ∷ xs) new r h = ground (arith, get-append_old key xs new r)

  get-append_new :
      (rs : List (Record T)) (new : Record T)
      → get new.record_key rs ≡ none
      → get new.record_key (rs ++ new ∷ []) ≡ some new
  unfolding get
  get-append_new [] new h = ground (arith, same_key_refl new.record_key)
  get-append_new (x ∷ xs) new h = ground (arith, get-append_new xs new)

-- The key holds a result for the fingerprint.
pub record Holds {T : Type 0} (key : RecordKey) (fingerprint : String) (x : T)
    (rs : List (Record T)) : Type 0 where
  pub entry : Record T
  pub found : get key rs ≡ some entry
  pub same : entry.fingerprint ≡ fingerprint
  pub result : entry.result ≡ x

module _ {W E T : Type 0} where
  recorded-Holds :
      (key : RecordKey) (fingerprint : String) (x : T) (rs : List (Record T)) (o : Answer E T × W)
      → get key rs ≡ none
      → (recorded key fingerprint rs o).0 ≡ Answer.returned x
      → Holds key fingerprint x (recorded key fingerprint rs o).1.records
  unfolding recorded
  recorded-Holds key fingerprint x rs (Answer.returned y, world) h e = record {
    entry = record { record_key = key; fingerprint = fingerprint; result = y };
    found = get-append_new rs record { record_key = key; fingerprint = fingerprint; result = y } h;
    same = refl;
    result = cc;
  }
  recorded-Holds key fingerprint x rs (Answer.conflict, world) h e = absurd cc
  recorded-Holds key fingerprint x rs (Answer.raised y, world) h e = absurd cc

  -- A record that is there stays.
  recorded-keeps :
      (key other : RecordKey) (fingerprint : String) (rs : List (Record T)) (r : Record T)
      (o : Answer E T × W)
      → get other rs ≡ some r
      → get other (recorded key fingerprint rs o).1.records ≡ some r
  unfolding recorded
  recorded-keeps key other fingerprint rs r (Answer.returned y, world) h =
      get-append_old other rs _ r h
  recorded-keeps key other fingerprint rs r (Answer.conflict, world) h = h
  recorded-keeps key other fingerprint rs r (Answer.raised y, world) h = h

module _ {W T : Type 0} (E : Type 0) where
  replay-keeps :
      (fingerprint : String) (r : Record T) (s : State W T) → (replay {E = E} fingerprint r s).1 ≡ s
  unfolding replay
  replay-keeps fingerprint r s = ground (arith, str_eq_iff r.fingerprint fingerprint)

  replay-returned :
      (fingerprint : String) (r : Record T) (s : State W T) (x : T)
      → (replay {E = E} fingerprint r s).0 ≡ Answer.returned x
      → (r.fingerprint ≡ fingerprint) × (r.result ≡ x)
  unfolding replay
  replay-returned fingerprint r s x h = ground (arith, str_eq_iff r.fingerprint fingerprint)

  replay-same :
      (fingerprint : String) (r : Record T) (s : State W T)
      → r.fingerprint ≡ fingerprint
      → replay {E = E} fingerprint r s ≡ (Answer.returned r.result, s)
  unfolding replay
  replay-same fingerprint r s h = ground (arith, str_eq_iff r.fingerprint fingerprint)

module _ {W E T : Type 0} where
  pub answer_by-Holds :
      (c : Command W E T) (fingerprint : String) (o : Option (Record T)) (s : State W T) (x : T)
      → get c.record_key s.records ≡ o
      → (answer_by c fingerprint o s).0 ≡ Answer.returned x
      → Holds c.record_key fingerprint x (answer_by c fingerprint o s).1.records
  unfolding answer_by
  answer_by-Holds c fingerprint none s x e h =
      recorded-Holds c.record_key fingerprint x s.records (c.handler s.world) e h
  answer_by-Holds c fingerprint (some r) s x e h =
      let facts = replay-returned E fingerprint r s x h in
      record {
        entry = r;
        found =
            ap (λ (u : State W T). get c.record_key u.records) (replay-keeps E fingerprint r s) ∙ e;
        same = facts.0;
        result = facts.1;
      }

  answer_by-keeps :
      (c : Command W E T) (fingerprint : String) (o : Option (Record T)) (s : State W T)
      (key : RecordKey) (r : Record T)
      → get key s.records ≡ some r
      → get key (answer_by c fingerprint o s).1.records ≡ some r
  unfolding answer_by
  answer_by-keeps c fingerprint none s key r h =
      recorded-keeps c.record_key key fingerprint s.records r (c.handler s.world) h
  answer_by-keeps c fingerprint (some q) s key r h =
      ap (λ (u : State W T). get key u.records) (replay-keeps E fingerprint q s) ∙ h

  execute_hashed-keeps :
      (c : Command W E T) (o : String ⊎ E) (s : State W T) (key : RecordKey) (r : Record T)
      → get key s.records ≡ some r
      → get key (execute_hashed c o s).1.records ≡ some r
  unfolding execute_hashed
  execute_hashed-keeps c (inl fingerprint) s key r h =
      answer_by-keeps c fingerprint (get c.record_key s.records) s key r h
  execute_hashed-keeps c (inr e) s key r h = h

  pub execute_all-keeps :
      (hash : Value → String ⊎ E) (cs : List (Command W E T)) (s : State W T) (key : RecordKey)
      (r : Record T)
      → get key s.records ≡ some r
      → get key (execute_all hash cs s).records ≡ some r
  unfolding execute_all execute
  execute_all-keeps hash [] s key r h = h
  execute_all-keeps hash (c ∷ cs) s key r h =
      execute_all-keeps hash cs (execute hash c s).1 key r
        (execute_hashed-keeps c (hash c.payload) s key r h)

  answer_by-again :
      (c : Command W E T) (fingerprint : String) (x : T) (u : State W T)
      → Holds c.record_key fingerprint x u.records
      → answer_by c fingerprint (get c.record_key u.records) u ≡ (Answer.returned x, u)
  unfolding answer_by
  answer_by-again c fingerprint x u h =
      ap (λ o. answer_by c fingerprint o u) h.found
      ∙ replay-same E fingerprint h.entry u h.same
      ∙ ap (λ y. (Answer.returned y, u)) h.result

  hashed_again :
      (c : Command W E T) (o : String ⊎ E) (s : State W T) (x : T) (hash : Value → String ⊎ E)
      (later : List (Command W E T)) (handler : W → Answer E T × W)
      → (execute_hashed c o s).0 ≡ Answer.returned x
      → execute_hashed
          (record c { handler = handler })
          o
          (execute_all hash later (execute_hashed c o s).1)
        ≡ (Answer.returned x, execute_all hash later (execute_hashed c o s).1)
  unfolding execute_hashed
  hashed_again c (inl fingerprint) s x hash later handler h =
      let u = execute_all hash later (answer_by c fingerprint (get c.record_key s.records) s).1 in
      let held = answer_by-Holds c fingerprint (get c.record_key s.records) s x refl h in
      answer_by-again (record c { handler = handler }) fingerprint x u
        record {
          entry = held.entry;
          found = execute_all-keeps hash later _ c.record_key held.entry held.found;
          same = held.same;
          result = held.result;
        }
  hashed_again c (inr e) s x hash later handler h = absurd cc

-- Once a command returned, the same key with the same payload returns the same result ever after,
-- whatever commands were executed meanwhile, and changes nothing: no handler runs again.
pub executes_once :
    {W E T : Type 0} (hash : Value → String ⊎ E) (c : Command W E T) (s : State W T) (x : T)
    (later : List (Command W E T)) (handler : W → Answer E T × W)
    → (execute hash c s).0 ≡ Answer.returned x
    → execute hash (record c { handler = handler }) (execute_all hash later (execute hash c s).1)
      ≡ (Answer.returned x, execute_all hash later (execute hash c s).1)
unfolding execute
executes_once hash c s x later handler h = hashed_again c (hash c.payload) s x hash later handler h
