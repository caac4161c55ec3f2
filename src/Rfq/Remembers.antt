-- ===== src/Rfq/Remembers.antt =====
-- modules/rfq/service.py: what is remembered for an idempotency key, and what it answers.
use hackathon_open_ai.Prelude.{
  Bool, true, false, if◌then◌else◌, List, ap, sym, subst, String, Option, none, some, ◌≡◌, ◌∙◌,
  refl, str_eq, str_eq_iff, get, get-set_self, string_eq, pair_eq,
}
use hackathon_open_ai.Rfq.Actions.{
  guard, refuse, refused, Action, Ending, returned, broken, Session, ◌>>=◌, ◌>>◌, continue, reads,
  pure, writes,
}
use hackathon_open_ai.Rfq.Returns.{guard-passes, guard-returns}
use hackathon_open_ai.Shared.{ExecutionCode}
use hackathon_open_ai.Rfq.Store.{Store, Payload, Result, replayed}
use hackathon_open_ai.Rfq.Environment.{Environment}
use hackathon_open_ai.Rfq.Replay.{once, resume, remember, idempotency_hash}
use hackathon_open_ai.Rfq.Calls.{Call, run_all, run_all-keeps}
use hackathon_open_ai.Rfq.Memory.{memory}

replayed-replayed : (r : Result) → replayed (replayed r) ≡ replayed r
unfolding replayed
replayed-replayed (Result.round r) = refl
replayed-replayed (Result.batch r) = refl
replayed-replayed (Result.quote r) = refl
replayed-replayed (Result.comparison r) = refl
replayed-replayed (Result.approval r) = refl
replayed-replayed (Result.award r) = refl

guard-answers :
    {W A : Type 0} (b : Bool) (e : ExecutionCode) (a : A) (s : Session W)
    → (guard b e >> pure a) s ≡ (if b then returned a else refused e, s)
unfolding ◌>>◌ ◌>>=◌ continue guard pure refuse
guard-answers true e a s = refl
guard-answers false e a s = refl

module _ {W : Type 0} (env : Environment W) (operation key : String) (payload : Payload) where
  -- A result is remembered for the payload that replays as `r` does.
  pub record Remembers (r : Result) (s : Store) : Type 0 where
    result : Result
    found : get s.idempotency (operation, key) ≡ some (idempotency_hash env payload, result)
    same : replayed result ≡ replayed r

  continue-Remembers :
      (e : Ending Result) (t : Session W) (r : Result)
      → (continue e (λ a. remember env operation key payload a >> pure a) t).0 ≡ returned r
      → Remembers r (continue e (λ a. remember env operation key payload a >> pure a) t).1.store
  unfolding continue ◌>>◌ ◌>>=◌ remember writes pure
  continue-Remembers (returned a) t r h = record {
    result = a;
    found = get-set_self t.store.idempotency (operation, key) (idempotency_hash env payload, a);
    same = cc;
  }
  continue-Remembers (refused e) t r h = absurd cc
  continue-Remembers broken t r h = absurd cc

  resume-known :
      (fingerprint : String) (a : Result) (s : Session W) (rest : Action W Result)
      → str_eq fingerprint (idempotency_hash env payload) ≡ true
      → resume env operation key payload rest (some (fingerprint, a)) s ≡ (returned (replayed a), s)
  unfolding resume pure
  resume-known fingerprint a s rest same = guard-passes _ _ _ s same

  replay-Remembers :
      (fingerprint : String) (a r : Result) (s : Session W) (rest : Action W Result)
      → get s.store.idempotency (operation, key) ≡ some (fingerprint, a)
      → (resume env operation key payload rest (some (fingerprint, a)) s).0 ≡ returned r
      → Remembers r (resume env operation key payload rest (some (fingerprint, a)) s).1.store
  unfolding resume
  replay-Remembers fingerprint a r s rest known h =
      let (same, _) = guard-returns (str_eq fingerprint (idempotency_hash env payload)) _ _ s r h in
      let whole = resume-known fingerprint a s rest same in
      subst (λ o. Remembers r o.1.store) (sym whole)
        (record {
          result = a;
          found = known ∙ ap (λ f. some (f, a)) ((str_eq_iff _ _).0 same);
          same = cc (replayed-replayed a, h);
        })

  resume-Remembers :
      (o : Option (String × Result)) (r : Result) (s : Session W) (rest : Action W Result)
      → get s.store.idempotency (operation, key) ≡ o
      → (resume env operation key payload rest o s).0 ≡ returned r
      → Remembers r (resume env operation key payload rest o s).1.store
  unfolding resume ◌>>=◌
  resume-Remembers none r s rest fresh h = continue-Remembers (rest s).0 (rest s).1 r h
  resume-Remembers (some (fingerprint, a)) r s rest known h =
      replay-Remembers fingerprint a r s rest known h

  pub once-Remembers :
      (rest : Action W Result) (s : Session W) (r : Result)
      → (once env operation key payload rest s).0 ≡ returned r
      → Remembers r (once env operation key payload rest s).1.store
  unfolding once ◌>>=◌ continue reads
  once-Remembers rest s r h = resume-Remembers _ r s rest refl h

  pub Remembers-later :
      (r : Result) (s : Session W) (cs : List Call)
      → Remembers r s.store
      → Remembers r (run_all env cs s).store
  Remembers-later r s cs m = record {
    result = m.result;
    found = run_all-keeps env (memory env (operation, key) _) cs s m.found;
    same = m.same;
  }

  pub once-answers :
      (other : Payload) (rest : Action W Result) (s : Session W) (r : Result)
      → Remembers r s.store
      → once env operation key other rest s ≡ (
        if str_eq (idempotency_hash env payload) (idempotency_hash env other)
            then returned (replayed r)
            else refused ExecutionCode.idempotency_conflict,
        s,
      )
  unfolding once ◌>>=◌ continue reads resume
  once-answers other rest s r m =
      let same = str_eq (idempotency_hash env payload) (idempotency_hash env other) in
      ap (λ o. resume env operation key other rest o s) m.found
      ∙ guard-answers same ExecutionCode.idempotency_conflict (replayed m.result) s
      ∙ ap (λ x. (if same then returned x else refused ExecutionCode.idempotency_conflict, s))
          m.same

  continue-returns :
      (e : Ending Result) (t : Session W) (r : Result)
      → (continue e (λ a. remember env operation key payload a >> pure a) t).0 ≡ returned r
      → e ≡ returned r
  unfolding continue ◌>>◌ ◌>>=◌ remember writes pure
  continue-returns (returned a) t r h = h
  continue-returns (refused e) t r h = absurd cc
  continue-returns broken t r h = absurd cc

  resume-runs :
      (o : Option (String × Result)) (rest : Action W Result) (s : Session W) (r : Result)
      → o ≡ none
      → (resume env operation key payload rest o s).0 ≡ returned r
      → (rest s).0 ≡ returned r
  unfolding resume ◌>>=◌
  resume-runs none rest s r e h = continue-returns (rest s).0 (rest s).1 r h
  resume-runs (some x) rest s r e h = absurd cc

  -- For a key that is not remembered, what is returned is what the operation itself returns.
  pub once-runs :
      (rest : Action W Result) (s : Session W) (r : Result)
      → get s.store.idempotency (operation, key) ≡ none
      → (once env operation key payload rest s).0 ≡ returned r
      → (rest s).0 ≡ returned r
  unfolding once ◌>>=◌ continue reads
  once-runs rest s r fresh h = resume-runs _ rest s r fresh h
