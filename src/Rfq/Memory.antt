-- ===== src/Rfq/Memory.antt =====
-- modules/rfq/service.py: what is remembered for a key.
use hackathon_open_ai.Rfq.Ledger.{
  Keeps-invalidate_approvals, IgnoresApprovals, IgnoresAwards, IgnoresReservations,
  Keeps-decide_open, Keeps-confirm_terms, Keeps-take_quote, Keeps-open_approval,
  Keeps-award_approved, Keeps-get_award_status, Keeps-accept_delivered, Keeps-decline_delivered,
}
use hackathon_open_ai.Rfq.Frame.{lookup_rules, Ignores}
use hackathon_open_ai.Rfq.Approvals.{decide_approval}
use hackathon_open_ai.Rfq.Reservations.{Booking, confirm_reservation}
use hackathon_open_ai.Rfq.Calls.{Steps}
use hackathon_open_ai.Prelude.{
  same-ne, refl, String, Bool, false, Option, none, some, ◌≡◌, ◌∙◌, get, get-set_other, string_eq,
  pair_eq,
}
use hackathon_open_ai.Rfq.Keeps.{Keeps, Keeps-writes, keeps_rules}
use hackathon_open_ai.Rfq.Actions.{Action, Session, ◌>>=◌, continue, reads}
use hackathon_open_ai.Rfq.Store.{Store, Payload, Result}
use hackathon_open_ai.Rfq.Environment.{Environment}
use hackathon_open_ai.Rfq.Replay.{once, resume, remember}

module _ {W : Type 0} (env : Environment W) (id : String × String) (entry : String × Result) where
  -- The entry is remembered under the key.
  abbrev pub IsRemembered : Store → Type 0
  IsRemembered s = get s.idempotency id ≡ some entry

  IsRemembered-ignores : Ignores IsRemembered
  IsRemembered-ignores = record {
    rounds = λ s d h. h;
    recipients = λ s d h. h;
    quotes = λ s d h. h;
    versions = λ s d h. h;
    comparisons = λ s d h. h;
    statuses = λ s d h. h;
    events = λ s d h. h;
    counters = λ s prefix h. h;
  }

  remember-keeps :
      (operation key : String) (payload : Payload) (result : Result)
      → pair_eq.same (operation, key) id ≡ false
      → Keeps IsRemembered (remember env operation key payload result)
  unfolding remember
  remember-keeps operation key payload result other =
      Keeps-writes _ λ s h. get-set_other s.idempotency id (operation, key) _ other ∙ h

  rest-keeps :
      (operation key : String) (payload : Payload) (rest : Action W Result)
      → Keeps IsRemembered rest
      → pair_eq.same (operation, key) id ≡ false
      → Keeps IsRemembered (resume env operation key payload rest none)
  unfolding resume
  rest-keeps operation key payload rest h other = search (keeps_rules, remember-keeps) depth 20

  replay-keeps :
      (operation key : String) (payload : Payload) (rest : Action W Result) (e : String × Result)
      → Keeps IsRemembered (resume env operation key payload rest (some e))
  unfolding resume
  replay-keeps operation key payload rest e = search keeps_rules depth 20

  resumed :
      (operation key : String) (payload : Payload) (rest : Action W Result) (s : Session W)
      (o : Option (String × Result))
      → Keeps IsRemembered rest
      → IsRemembered s.store
      → get s.store.idempotency (operation, key) ≡ o
      → IsRemembered (resume env operation key payload rest o s).1.store
  resumed operation key payload rest s none k h fresh =
      (rest-keeps operation key payload rest k (same-ne _ id (operation, key) entry h fresh)).at s h
  resumed operation key payload rest s (some e) k h known =
      (replay-keeps operation key payload rest e).at s h

  once-keeps :
      (operation key : String) (payload : Payload) (rest : Action W Result)
      → Keeps IsRemembered rest
      → Keeps IsRemembered (once env operation key payload rest)
  unfolding once ◌>>=◌ continue reads
  once-keeps operation key payload rest k = record {
    at = λ s h. resumed operation key payload rest s _ k h refl;
  }

  approvals-ignored : IgnoresApprovals IsRemembered
  approvals-ignored = record { approvals = λ s d h. h }

  awards-ignored : IgnoresAwards IsRemembered
  awards-ignored = record { awards = λ s d h. h; bindings = λ s d h. h }

  reservations-ignored : IgnoresReservations IsRemembered
  reservations-ignored = record { reservations = λ s d h. h; bindings = λ s d h. h }

  decision-keeps :
      (approval actor_type actor : String) (approve : Bool) (key : String) (reason : Option String)
      → Keeps IsRemembered (decide_approval env approval actor_type actor approve key reason)
  unfolding decide_approval
  decision-keeps approval actor_type actor approve key reason =
      search
        (lookup_rules, once-keeps, Keeps-decide_open IsRemembered-ignores approvals-ignored env)
        depth 30

  reservation-keeps :
      (award : String) (b : Booking) (key : String)
      → Keeps IsRemembered (confirm_reservation env award b key)
  unfolding confirm_reservation
  reservation-keeps award b key =
      search
        (
          lookup_rules,
          once-keeps,
          Keeps-confirm_terms IsRemembered-ignores awards-ignored env reservations-ignored,
        )
        depth 30

  pub memory : Steps IsRemembered env
  memory = record {
    ignores = IsRemembered-ignores;
    once = once-keeps;
    submission =
        Keeps-take_quote IsRemembered-ignores env
          (Keeps-invalidate_approvals IsRemembered-ignores approvals-ignored env);
    opening = Keeps-open_approval IsRemembered-ignores approvals-ignored env;
    decision = decision-keeps;
    award = Keeps-award_approved IsRemembered-ignores awards-ignored env;
    following = Keeps-get_award_status IsRemembered-ignores awards-ignored env;
    acceptance = Keeps-accept_delivered IsRemembered-ignores awards-ignored env;
    refusal = Keeps-decline_delivered IsRemembered-ignores awards-ignored env;
    reservation = reservation-keeps;
  }
