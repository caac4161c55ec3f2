-- ===== src/Rfq/Ledger.antt =====
-- modules/rfq/service.py: the operations that write approvals, awards or reservations.
use hackathon_open_ai.Rfq.Awarding.{
  announce, note_failed, note_delivered, time_or_now, time_if, award_approved, award_once,
  note_award, record_award, get_award_status,
}
use hackathon_open_ai.Rfq.Submitting.{
  existing_quote, audit_quote, invalidate_if, invalidate_approvals, supersede, store_quote,
  change_quote, add_quote, take_quote,
}
use hackathon_open_ai.Rfq.Answers.{
  stored_award, answerable, record_answer, accept_delivered, decline_delivered,
}
use hackathon_open_ai.Rfq.Approvals.{
  open_approval, require_valid, decide_open, still_open, selected_quote,
}
use hackathon_open_ai.Rfq.Lookups.{
  bind_reservation, put_reservation, bind_award, put_approval, put_award,
}
use hackathon_open_ai.Rfq.Reservations.{
  confirm_terms, reserve, reserve_once, parsed_date, EventDate, Booking,
}
use hackathon_open_ai.QuoteRules.Submission.{QuoteValidationResult}
use hackathon_open_ai.Prelude.{ℕ, String, Bool, true, false, Option, none, some, Dict}
use hackathon_open_ai.Value.{Fields}
use hackathon_open_ai.Rfq.Keeps.{Keeps, Keeps-writes}
use hackathon_open_ai.Rfq.Frame.{Ignores, frame_rules}
use hackathon_open_ai.Rfq.Frames.{Keeps-send, Keeps-validate_token}
use hackathon_open_ai.Rfq.Contracts.{
  Quote, QuoteRef, Context, ResponseContext, Submission, Approval, RequestApproval, SendAward,
  Award, AwardStatus, DeliveryState, Reservation,
}
use hackathon_open_ai.Rfq.Numerals.{Date}
use hackathon_open_ai.Rfq.Store.{Store, Recipient, QuoteRecord, AwardRecord}
use hackathon_open_ai.Rfq.Environment.{Environment, SendResult, GatewayStatus, Claims}

-- What does not matter to `P`, beside `Ignores`.
pub record IgnoresApprovals (P : Store → Type 0) : Type 0 where
  pub approvals : (s : Store) (d : Dict String Approval) → P s → P (record s { approvals = d })

pub record IgnoresAwards (P : Store → Type 0) : Type 0 where
  pub awards : (s : Store) (d : Dict String AwardRecord) → P s → P (record s { awards = d })
  pub bindings :
      (s : Store) (d : Dict String String) → P s → P (record s { award_by_approval_id = d })

pub record IgnoresReservations (P : Store → Type 0) : Type 0 where
  pub reservations :
      (s : Store) (d : Dict String Reservation) → P s → P (record s { reservations = d })
  pub bindings :
      (s : Store) (d : Dict String String) → P s → P (record s { reservation_by_award_id = d })

module _ {W : Type 0} {P : Store → Type 0} (i : Ignores P) (env : Environment W) where
  Keeps-still_open : (q : Quote) (b : Bool) → Keeps P (still_open env q b)
  unfolding still_open
  Keeps-still_open q true = search frame_rules depth 60 fits 4000
  Keeps-still_open q false = search frame_rules depth 60 fits 4000

  pub Keeps-selected_quote : (r : QuoteRef) → Keeps P (selected_quote env r)
  unfolding selected_quote require_valid
  Keeps-selected_quote r = search (frame_rules, Keeps-still_open) depth 60 fits 4000

  pub Keeps-audit_quote :
      (p : Option Quote) (q : Quote) (c : Context) → Keeps P (audit_quote env p q c)
  unfolding audit_quote
  Keeps-audit_quote p q c = search frame_rules depth 60 fits 4000

  pub Keeps-existing_quote : (o : Option String) → Keeps P (existing_quote env o)
  unfolding existing_quote
  Keeps-existing_quote none = search frame_rules depth 60 fits 4000
  Keeps-existing_quote (some id) = search frame_rules depth 60 fits 4000

  pub Keeps-time_if : (b : Bool) → Keeps P (time_if env b)
  unfolding time_if
  Keeps-time_if true = search frame_rules depth 60 fits 4000
  Keeps-time_if false = search frame_rules depth 60 fits 4000

  pub Keeps-time_or_now : (o : Option ℕ) → Keeps P (time_or_now env o)
  unfolding time_or_now
  Keeps-time_or_now none = search frame_rules depth 60 fits 4000
  Keeps-time_or_now (some t) = search frame_rules depth 60 fits 4000

  pub Keeps-stored_award : (id : String) → Keeps P (stored_award env id)
  unfolding stored_award
  Keeps-stored_award id = search frame_rules depth 60 fits 4000

  pub Keeps-parsed_date : (d : EventDate) → Keeps P (parsed_date env d)
  unfolding parsed_date
  Keeps-parsed_date (EventDate.text s) = search frame_rules depth 60 fits 4000
  Keeps-parsed_date (EventDate.date d) = search frame_rules depth 60 fits 4000

pub ruleset ledger_rules = (
  frame_rules, Keeps-selected_quote, Keeps-audit_quote, Keeps-existing_quote, Keeps-time_if,
  Keeps-time_or_now, Keeps-stored_award, Keeps-parsed_date, Keeps-validate_token, Keeps-send,
)

module _ {W : Type 0} {P : Store → Type 0} (i : Ignores P) (env : Environment W)
    (invalidates : (q : Quote) (c : Context) → Keeps P (invalidate_approvals env q c)) where
  Keeps-supersede : (p : Option Quote) (q : Quote) (c : Context) → Keeps P (supersede env p q c)
  unfolding supersede
  Keeps-supersede none q c = search ledger_rules depth 60 fits 4000
  Keeps-supersede (some p) q c = invalidates q c

  Keeps-store_quote :
      (c : ResponseContext) (s : Submission) (r : Recipient) (v : QuoteValidationResult)
      (p : Option Quote) (id : String) (n : ℕ)
      → Keeps P (store_quote env c s r v p id n)
  unfolding store_quote
  Keeps-store_quote c s r v p id n = search (ledger_rules, Keeps-supersede) depth 60 fits 4000

  Keeps-change_quote :
      (c : ResponseContext) (s : Submission) (r : Recipient) (v : QuoteValidationResult)
      (q : QuoteRecord) (b : Bool)
      → Keeps P (change_quote env c s r v q b)
  unfolding change_quote
  Keeps-change_quote c s r v q true = search ledger_rules depth 60 fits 4000
  Keeps-change_quote c s r v q false = search (ledger_rules, Keeps-store_quote) depth 60 fits 4000

  Keeps-add_quote :
      (c : ResponseContext) (s : Submission) (r : Recipient) (v : QuoteValidationResult)
      (o : Option QuoteRecord)
      → Keeps P (add_quote env c s r v o)
  unfolding add_quote
  Keeps-add_quote c s r v none = search (ledger_rules, Keeps-store_quote) depth 60 fits 4000
  Keeps-add_quote c s r v (some q) = Keeps-change_quote c s r v q _

  pub Keeps-take_quote : (c : ResponseContext) (s : Submission) → Keeps P (take_quote env c s)
  unfolding take_quote
  Keeps-take_quote c s = search (ledger_rules, Keeps-add_quote) depth 60 fits 4000

module _ {W : Type 0} {P : Store → Type 0} (i : Ignores P) (a : IgnoresApprovals P)
    (env : Environment W) where
  Keeps-put_approval : (id : String) (x : Approval) → Keeps {W = W} P (put_approval id x)
  unfolding put_approval
  Keeps-put_approval id x = Keeps-writes _ λ s. a.approvals s _

  Keeps-invalidate_if :
      (q : Quote) (c : Context) (id : String) (x : Approval) (b : Bool)
      → Keeps P (invalidate_if env q c id x b)
  unfolding invalidate_if
  Keeps-invalidate_if q c id x true = search (ledger_rules, Keeps-put_approval) depth 60 fits 4000
  Keeps-invalidate_if q c id x false = search ledger_rules depth 60 fits 4000

  pub Keeps-invalidate_approvals :
      (q : Quote) (c : Context) → Keeps P (invalidate_approvals env q c)
  unfolding invalidate_approvals
  Keeps-invalidate_approvals q c = search (ledger_rules, Keeps-invalidate_if) depth 60 fits 4000

  pub Keeps-open_approval : (c : RequestApproval) → Keeps P (open_approval env c)
  unfolding open_approval
  Keeps-open_approval c = search (ledger_rules, Keeps-put_approval) depth 60 fits 4000

  pub Keeps-decide_open :
      (id : String) (x : Approval) (actor_type actor : String) (approve : Bool) (key : String)
      (reason : Option String)
      → Keeps P (decide_open env id x actor_type actor approve key reason)
  unfolding decide_open
  Keeps-decide_open id x actor_type actor approve key reason =
      search (ledger_rules, Keeps-put_approval) depth 60 fits 4000

module _ {W : Type 0} {P : Store → Type 0} (r : IgnoresReservations P) where
  pub Keeps-put_reservation :
      (id : String) (x : Reservation) → Keeps {W = W} P (put_reservation id x)
  unfolding put_reservation
  Keeps-put_reservation id x = Keeps-writes _ λ s. r.reservations s _

  pub Keeps-bind_reservation : (award id : String) → Keeps {W = W} P (bind_reservation award id)
  unfolding bind_reservation
  Keeps-bind_reservation award id = Keeps-writes _ λ s. r.bindings s _

module _ {W : Type 0} {P : Store → Type 0} (i : Ignores P) (a : IgnoresAwards P)
    (env : Environment W) where
  Keeps-put_award : (id : String) (x : AwardRecord) → Keeps {W = W} P (put_award id x)
  unfolding put_award
  Keeps-put_award id x = Keeps-writes _ λ s. a.awards s _

  Keeps-bind_award : (approval id : String) → Keeps {W = W} P (bind_award approval id)
  unfolding bind_award
  Keeps-bind_award approval id = Keeps-writes _ λ s. a.bindings s _

  Keeps-record_award :
      (c : SendAward) (x : Approval) (q : Quote) (id token : String) (r : SendResult)
      → Keeps P (record_award env c x q id token r)
  unfolding record_award announce
  Keeps-record_award c x q id token r =
      search (ledger_rules, Keeps-put_award, Keeps-bind_award) depth 60 fits 4000

  Keeps-award_once :
      (c : SendAward) (x : Approval) (q : Quote) (o : Option String)
      → Keeps P (award_once env c x q o)
  unfolding award_once
  Keeps-award_once c x q none = search (ledger_rules, Keeps-record_award) depth 60 fits 4000
  Keeps-award_once c x q (some id) = search ledger_rules depth 60 fits 4000

  pub Keeps-award_approved : (c : SendAward) → Keeps P (award_approved env c)
  unfolding award_approved
  Keeps-award_approved c = search (ledger_rules, Keeps-award_once) depth 60 fits 4000

  Keeps-note_award :
      (id : String) (e : AwardRecord) (g : GatewayStatus) (s : AwardStatus) (d : DeliveryState)
      → Keeps P (note_award env id e g s d)
  unfolding note_award note_delivered note_failed
  Keeps-note_award id e g AwardStatus.sent_to_gateway DeliveryState.delivered =
      search (ledger_rules, Keeps-put_award) depth 60 fits 4000
  Keeps-note_award id e g AwardStatus.sent_to_gateway DeliveryState.failed =
      search (ledger_rules, Keeps-put_award) depth 60 fits 4000
  Keeps-note_award id e g AwardStatus.sent_to_gateway DeliveryState.sent_to_gateway =
      search ledger_rules depth 60 fits 4000
  Keeps-note_award id e g AwardStatus.queued d = search ledger_rules depth 60 fits 4000
  Keeps-note_award id e g AwardStatus.delivered d = search ledger_rules depth 60 fits 4000
  Keeps-note_award id e g AwardStatus.accepted d = search ledger_rules depth 60 fits 4000
  Keeps-note_award id e g AwardStatus.declined d = search ledger_rules depth 60 fits 4000
  Keeps-note_award id e g AwardStatus.failed d = search ledger_rules depth 60 fits 4000

  pub Keeps-get_award_status : (id : String) → Keeps P (get_award_status env id)
  unfolding get_award_status
  Keeps-get_award_status id = search (ledger_rules, Keeps-note_award) depth 60 fits 4000

  Keeps-answerable : (c : Claims) → Keeps P (answerable env c)
  unfolding answerable
  Keeps-answerable c = search (ledger_rules, Keeps-get_award_status) depth 60 fits 4000

  Keeps-record_answer :
      (id : String) (e : AwardRecord) (x y : Award) (status event : String) (payload : Fields)
      (key respondent : String)
      → Keeps P (record_answer env id e x y status event payload key respondent)
  unfolding record_answer
  Keeps-record_answer id e x y status event payload key respondent =
      search (ledger_rules, Keeps-put_award) depth 60 fits 4000

  pub Keeps-accept_delivered :
      (c : Claims) (respondent hash : String) (b : Bool) (key : String)
      → Keeps P (accept_delivered env c respondent hash b key)
  unfolding accept_delivered
  Keeps-accept_delivered c respondent hash b key =
      search (ledger_rules, Keeps-answerable, Keeps-record_answer) depth 60 fits 4000

  pub Keeps-decline_delivered :
      (c : Claims) (respondent reason key : String)
      → Keeps P (decline_delivered env c respondent reason key)
  unfolding decline_delivered
  Keeps-decline_delivered c respondent reason key =
      search (ledger_rules, Keeps-answerable, Keeps-record_answer) depth 60 fits 4000

  module _ (r : IgnoresReservations P) where
    Keeps-reserve :
        (id : String) (x : Award) (d : Date) (b : Booking) (key : String)
        → Keeps P (reserve env id x d b key)
    unfolding reserve
    Keeps-reserve id x d b key =
        search (ledger_rules, Keeps-put_award, Keeps-put_reservation r, Keeps-bind_reservation r)
          depth 60 fits 4000

    Keeps-reserve_once :
        (id : String) (x : Award) (d : Date) (b : Booking) (key : String) (o : Option String)
        → Keeps P (reserve_once env id x d b key o)
    unfolding reserve_once
    Keeps-reserve_once id x d b key none = Keeps-reserve id x d b key
    Keeps-reserve_once id x d b key (some y) = search ledger_rules depth 60 fits 4000

    pub Keeps-confirm_terms :
        (id : String) (x : Award) (b : Booking) (key : String)
        → Keeps P (confirm_terms env id x b key)
    unfolding confirm_terms
    Keeps-confirm_terms id x b key = search (ledger_rules, Keeps-reserve_once) depth 60 fits 4000
