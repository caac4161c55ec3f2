-- ===== src/Rfq/Agreed.antt =====
-- modules/rfq/service.py: what a reservation agrees with.
use hackathon_open_ai.Rfq.Reservations.{
  event_text, same_date, EventDate, accepted_by, matches_requirements, parsed_date, Booking,
  confirm_terms, confirm_reservation,
}
use hackathon_open_ai.Prelude.{
  ◌∙◌, string_eq, pair_eq, arith, str_eq_iff, ==_iff, ltb, not, is_blank, ap, str_eq, false, none,
  subst, refl, values, some, Option, get, true, ◌≡◌, String,
}
use hackathon_open_ai.Rfq.Store.{Payload, Result, QuoteRecord, RoundRecord, AwardRecord, Store}
use hackathon_open_ai.Rfq.Actions.{
  broken, refused, returned, refuse, or_refuse, pure, Action, continue, reads, Session, ◌>>=◌,
  Ending,
}
use hackathon_open_ai.Rfq.Returns.{anything, Gives-eq, Gives-guard, Gives-map, Gives}
use hackathon_open_ai.Rfq.Remembers.{once-runs}
use hackathon_open_ai.Rfq.Numerals.{hour_and_minute, Date}
use hackathon_open_ai.Rfq.Contracts.{AwardStatus, award_accepted}
use hackathon_open_ai.Shared.{ExecutionCode}
use hackathon_open_ai.Rfq.Replay.{operation_of}
use hackathon_open_ai.Rfq.Lookups.{tenant_in, the_quote, the_round, the_award, tenant_for_request}
use hackathon_open_ai.Rfq.Environment.{Environment}
use hackathon_open_ai.Rfq.Sound.{award_accepted-eq}

-- The date that is given.
abbrev pub named_date : {W : Type 0} → Environment W → EventDate → Option Date
named_date env (EventDate.text s) = env.parse_date s
named_date env (EventDate.date d) = some d

-- The award was accepted by the one who confirms, and the terms are those that the round asked for.
pub record Agreed {W : Type 0} (env : Environment W) (id : String) (b : Booking) (s : Store)
    : Type 0 where
  pub entry : AwardRecord
  pub quote : QuoteRecord
  pub round : RoundRecord
  pub found : get s.awards id ≡ some entry
  pub accepted : entry.dto.status ≡ AwardStatus.accepted
  pub accepter : entry.accepted_by ≡ some b.confirmed_by
  pub quoted : get s.quotes entry.dto.approved_quote.quote_id ≡ some quote
  pub asked : get s.rounds quote.dto.rfq_round_id ≡ some round
  pub date : named_date env b.event_date ≡ some round.requirements.event_date
  pub window : b.delivery_window ≡ hour_and_minute round.requirements.delivery_time
  pub people : b.people_count ≡ round.requirements.people_count

same_date-eq : (c d : Date) → same_date c d ≡ true → c ≡ d
unfolding same_date
same_date-eq c d h =
    let year : c.year ≡ d.year = (==_iff _ _).0 (ground arith) in
    let month : c.month ≡ d.month = (==_iff _ _).0 (ground arith) in
    let day : c.day ≡ d.day = (==_iff _ _).0 (ground arith) in cc (year, month, day)

accepted_by-eq :
    (e : AwardRecord) (name : String) → accepted_by e name ≡ true → e.accepted_by ≡ some name
unfolding accepted_by
accepted_by-eq e name h = by_eq e.accepted_by h
  where
    by_eq :
        (o : Option String)
        → elim o [ none ↦ false | some by ↦ str_eq by name ] ≡ true
        → o ≡ some name
    by_eq none h = absurd cc
    by_eq (some by) h = ap some ((str_eq_iff by name).0 h)

agreed :
    {W : Type 0} (env : Environment W) (id : String) (b : Booking) (s : Store) (entry : AwardRecord)
    (x : AwardRecord) (q : QuoteRecord) (r : RoundRecord) (day : Date)
    → get s.awards id ≡ some entry
    → award_accepted entry.dto.status ≡ true
    → get s.awards id ≡ some x
    → accepted_by x b.confirmed_by ≡ true
    → get s.quotes entry.dto.approved_quote.quote_id ≡ some q
    → get s.rounds q.dto.rfq_round_id ≡ some r
    → matches_requirements r.requirements day b ≡ true
    → named_date env b.event_date ≡ some day
    → Agreed env id b s
unfolding matches_requirements
agreed env id b s entry x q r day found accepted again accepter quoted asked fits dated = record {
  entry = entry;
  quote = q;
  round = r;
  found = found;
  accepted = award_accepted-eq entry.dto.status accepted;
  accepter =
      let same : x ≡ entry = cc (found, again) in
      subst (λ e. e.accepted_by ≡ some b.confirmed_by) same
        (accepted_by-eq x b.confirmed_by accepter);
  quoted = quoted;
  asked = asked;
  date = dated ∙ ap some (same_date-eq day r.requirements.event_date (ground arith));
  window =
      (str_eq_iff b.delivery_window (hour_and_minute r.requirements.delivery_time)).0
        (ground arith);
  people = (==_iff b.people_count r.requirements.people_count).0 (ground arith);
}

module _ {κ} {W B : Type 0} {Q : B → Store → Type κ} where
  Gives-or_refuse :
      {A : Type 0} (e : ExecutionCode) (o : Option A) (k : A → Action W B) (s : Session W)
      → ((a : A) → o ≡ some a → Gives Q (k a s))
      → Gives Q ((or_refuse e o >>= k) s)
  unfolding ◌>>=◌ continue or_refuse pure refuse
  Gives-or_refuse e none k s h = record { here = tt }
  Gives-or_refuse e (some a) k s h = h a refl

  -- A lookup leaves everything as it is.
  Gives-lookup :
      {A : Type 0} (f : Store → Option A) (k : A → Action W B) (s : Session W)
      → ((a : A) → f s.store ≡ some a → Gives Q (k a s))
      → Gives Q (((reads f >>= or_refuse ExecutionCode.not_found) >>= k) s)
  unfolding reads ◌>>=◌ continue
  Gives-lookup f k s h = Gives-or_refuse ExecutionCode.not_found (f s.store) k s h

  Gives-the_award :
      (id : String) (k : AwardRecord → Action W B) (s : Session W)
      → ((a : AwardRecord) → get s.store.awards id ≡ some a → Gives Q (k a s))
      → Gives Q ((the_award id >>= k) s)
  unfolding the_award
  Gives-the_award id k s h = Gives-lookup (λ t. get t.awards id) k s h

  Gives-the_quote :
      (id : String) (k : QuoteRecord → Action W B) (s : Session W)
      → ((a : QuoteRecord) → get s.store.quotes id ≡ some a → Gives Q (k a s))
      → Gives Q ((the_quote id >>= k) s)
  unfolding the_quote
  Gives-the_quote id k s h = Gives-lookup (λ t. get t.quotes id) k s h

  Gives-the_round :
      (id : String) (k : RoundRecord → Action W B) (s : Session W)
      → ((a : RoundRecord) → get s.store.rounds id ≡ some a → Gives Q (k a s))
      → Gives Q ((the_round id >>= k) s)
  unfolding the_round
  Gives-the_round id k s h = Gives-lookup (λ t. get t.rounds id) k s h

  Gives-tenant :
      (id : String) (k : String → Action W B) (s : Session W)
      → ((t : String) → tenant_in (values s.store.rounds) id ≡ some t → Gives Q (k t s))
      → Gives Q ((tenant_for_request id >>= k) s)
  unfolding tenant_for_request
  Gives-tenant id k s h = Gives-lookup (λ t. tenant_in (values t.rounds) id) k s h

  Gives-parsed_date :
      (env : Environment W) (d : EventDate) (k : Date → Action W B) (s : Session W)
      → ((a : Date) → named_date env d ≡ some a → Gives Q (k a s))
      → Gives Q ((parsed_date env d >>= k) s)
  unfolding parsed_date pure ◌>>=◌ continue
  Gives-parsed_date env (EventDate.date d) k s h = h d refl
  Gives-parsed_date env (EventDate.text d) k s h =
      Gives-or_refuse ExecutionCode.validation_error (env.parse_date d) k s h

module _ {κ} {W A : Type 0} (Q : Type κ) where
  Gives-always : (o : Ending A × Session W) → Q → Gives (λ _ _. Q) o
  Gives-always o q = Gives-map (λ _ _. Q) o (anything o) λ a s _. q

  Gives-if : (o : Ending A × Session W) → ((a : A) → o.0 ≡ returned a → Q) → Gives (λ _ _. Q) o
  Gives-if (returned a, s) h = record { here = h a refl }
  Gives-if (refused e, s) h = record { here = tt }
  Gives-if (broken, s) h = record { here = tt }

module _ {W : Type 0} (env : Environment W) where
  confirm_terms-Gives :
      (id : String) (entry : AwardRecord) (b : Booking) (key : String) (s : Session W)
      → get s.store.awards id ≡ some entry
      → Gives (λ _ _. Agreed env id b s.store) (confirm_terms env id entry.dto b key s)
  unfolding confirm_terms
  confirm_terms-Gives id entry b key s found =
      Gives-guard (award_accepted entry.dto.status) ExecutionCode.invalid_state _ s λ accepted.
        Gives-guard (ltb 0 b.people_count) ExecutionCode.validation_error _ s λ _.
          Gives-guard (not (is_blank b.delivery_window)) ExecutionCode.validation_error _ s λ _.
            Gives-guard (not (is_blank b.confirmed_by)) ExecutionCode.validation_error _ s λ _.
              Gives-parsed_date env b.event_date _ s λ day dated. Gives-the_award id _ s λ x again.
                Gives-guard (accepted_by x b.confirmed_by) ExecutionCode.policy_denied _ s
                  λ accepter. Gives-the_quote entry.dto.approved_quote.quote_id _ s λ q quoted.
                    Gives-the_round q.dto.rfq_round_id _ s λ r asked.
                      Gives-guard (matches_requirements r.requirements day b)
                        ExecutionCode.validation_error _ s
                        λ fits. Gives-always (Agreed env id b s.store) _ (
                          agreed env id b s.store entry x q r day found accepted again accepter
                            quoted asked fits dated)

  -- A call of `confirm_reservation` that returns, for a key that is not remembered, found the award
  -- accepted by the one who confirms it, and was given the date, the delivery window and the number
  -- of people that the round of the award's quote asked for.
  pub reservation_agrees :
      (id : String) (b : Booking) (key tenant : String) (entry : AwardRecord) (s : Session W)
      (r : Result)
      → get s.store.awards id ≡ some entry
      → tenant_in (values s.store.rounds) entry.dto.procurement_request_id ≡ some tenant
      → get s.store.idempotency (operation_of tenant "reservation.confirm", key) ≡ none
      → (confirm_reservation env id b key s).0 ≡ returned r
      → Agreed env id b s.store
  unfolding confirm_reservation
  reservation_agrees id b key tenant entry s r found owner fresh h =
      Gives-eq (λ _ _. Agreed env id b s.store) (confirm_reservation env id b key s) r
        (Gives-the_award id _ s λ x again.
          let same : x ≡ entry = cc (found, again) in
          Gives-tenant x.dto.procurement_request_id _ s λ t owned.
            let named : t ≡ tenant = cc (owner, owned, same) in
            Gives-if (Agreed env id b s.store) _ λ a returns.
              Gives-eq (λ _ _. Agreed env id b s.store) (confirm_terms env id x.dto b key s) a
                (confirm_terms-Gives id x b key s again)
                (once-runs env (operation_of t "reservation.confirm") key
                  (Payload.reserving id (event_text b.event_date) b.delivery_window b.people_count
                    b.confirmed_by)
                  (confirm_terms env id x.dto b key) s a (cc (fresh, named)) returns))
        h
