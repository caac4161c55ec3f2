-- ===== src/Rfq/OneAward.antt =====
-- modules/rfq/service.py: the awards of one approval.
use hackathon_open_ai.Rfq.Ledger.{
  Keeps-invalidate_approvals, IgnoresApprovals, IgnoresReservations, Keeps-put_reservation,
  Keeps-bind_reservation, Keeps-decide_open, Keeps-take_quote, Keeps-open_approval, ledger_rules,
}
use hackathon_open_ai.Prelude.{
  get-empty, List, [], some, Option, none, get, String, Bool, not, is_blank, ◌≡◌, string_eq,
}
use hackathon_open_ai.Rfq.Leaves.{
  Keeps-using, Leaves-reads, Keeps-of, Leads, Leads-bind, Keeps-from,
}
use hackathon_open_ai.Rfq.Numerals.{Date}
use hackathon_open_ai.Rfq.Actions.{reads, Action, Session, ◌>>◌, ◌>>=◌, continue, writes}
use hackathon_open_ai.Rfq.Frame.{lookup_rules, Ignores}
use hackathon_open_ai.Rfq.Bound.{
  Leaves-the_award, get_award_status-gives, AwardsBound-ignores, add-AwardsBound, AwardsBound,
  Binds, Binds-ignores, Binds-put_award, answerable-gives,
}
use hackathon_open_ai.Rfq.Calls.{Call, Steps, IgnoresMemory, Keeps-once, run_all, run_all-keeps}
use hackathon_open_ai.Rfq.Reservations.{
  Booking, reserve_once, reserve, reserved_award, confirm_terms, confirm_reservation,
}
use hackathon_open_ai.Rfq.Approvals.{decide_approval}
use hackathon_open_ai.Rfq.Lookups.{the_award, put_award, bind_award}
use hackathon_open_ai.Rfq.Awarding.{
  get_award_status, announce, award_once, award_approved, record_award,
}
use hackathon_open_ai.Rfq.Awards.{award_record, new_award}
use hackathon_open_ai.Rfq.Contracts.{Quote, Approval, SendAward, Award}
use hackathon_open_ai.Rfq.Keeps.{keeps_rules, Keeps, Keeps-then, Keeps-guard}
use hackathon_open_ai.Rfq.Environment.{SendResult, Environment, Claims}
use hackathon_open_ai.Rfq.Store.{Store, Result, AwardRecord}
use hackathon_open_ai.Value.{Fields}
use hackathon_open_ai.Shared.{ExecutionCode}
use hackathon_open_ai.Rfq.Answers.{
  record_answer, accept_delivered, decline_delivered, accepted_award, declined_award, answerable,
}

module _ {W : Type 0} (env : Environment W) where
  Binds-record_answer :
      (id approval : String) (entry : AwardRecord) (x y : Award) (status event : String)
      (payload : Fields) (key respondent : String)
      → y.approval_id ≡ approval
      → Keeps
          (Binds env id approval)
          (record_answer env id entry x y status event payload key respondent)
  unfolding record_answer
  Binds-record_answer id approval entry x y status event payload key respondent p =
      search (ledger_rules, Binds-ignores env id approval, Binds-put_award env id approval, p) depth
        60 fits 4000

  accept_delivered-keeps :
      (c : Claims) (respondent hash : String) (b : Bool) (key : String)
      → Keeps AwardsBound (accept_delivered env c respondent hash b key)
  unfolding accept_delivered accepted_award
  accept_delivered-keeps c respondent hash b key =
      Keeps-from (answerable env c) _ (answerable-gives env c) λ current.
        search
          (
            ledger_rules,
            Binds-ignores env c.subject current.approval_id,
            Binds-record_answer c.subject current.approval_id,
          )
          depth 60 fits 4000

  decline_delivered-keeps :
      (c : Claims) (respondent reason key : String)
      → Keeps AwardsBound (decline_delivered env c respondent reason key)
  unfolding decline_delivered declined_award
  decline_delivered-keeps c respondent reason key =
      Keeps-then _ _ (Keeps-guard (not (is_blank respondent)) ExecutionCode.validation_error) (
        Keeps-then _ _ (Keeps-guard (not (is_blank reason)) ExecutionCode.validation_error) (
          Keeps-from (answerable env c) _ (answerable-gives env c) λ current.
            search
              (
                ledger_rules,
                Binds-ignores env c.subject current.approval_id,
                Binds-record_answer c.subject current.approval_id,
              )
              depth 60 fits 4000))

  module _ (approval : String) where
    -- The approval has no award yet.
    abbrev Free : Store → Type 0
    Free s = AwardsBound s × (get s.award_by_approval_id approval ≡ none)

    Free-ignores : Ignores Free
    Free-ignores = record {
      rounds = λ s d (h, e). (AwardsBound-ignores.rounds s d h, e);
      recipients = λ s d (h, e). (AwardsBound-ignores.recipients s d h, e);
      quotes = λ s d (h, e). (AwardsBound-ignores.quotes s d h, e);
      versions = λ s d (h, e). (AwardsBound-ignores.versions s d h, e);
      comparisons = λ s d (h, e). (AwardsBound-ignores.comparisons s d h, e);
      statuses = λ s d (h, e). (AwardsBound-ignores.statuses s d h, e);
      events = λ s d (h, e). (AwardsBound-ignores.events s d h, e);
      counters = λ s prefix (h, e). (AwardsBound-ignores.counters s prefix h, e);
    }

    Free-bound : (s : Store) → Free s → AwardsBound s
    Free-bound s h = h.0

    Free-bind :
        {A B : Type 0}
        → (m : Action W A) (k : A → Action W B) → Keeps Free m
        → ((a : A) → Leads Free AwardsBound (k a))
        → Leads Free AwardsBound (m >>= k)
    Free-bind = Leads-bind Free-bound

    Leads-added :
        (id : String) (x : AwardRecord) (rest : Action W Result)
        → x.dto.approval_id ≡ approval
        → Keeps AwardsBound rest
        → Leads Free AwardsBound (put_award id x >> (bind_award approval id >> rest))
    unfolding ◌>>◌ ◌>>=◌ continue put_award bind_award writes
    Leads-added id x rest p k = record {
      at = λ s (h, e). k.at _ (add-AwardsBound s.store id approval x p h e);
    }

  announce-keeps :
      (c : SendAward) (id : String) (x : Award) (b : Bool)
      → Keeps AwardsBound (announce env c id x b)
  unfolding announce
  announce-keeps c id x b = search (ledger_rules, AwardsBound-ignores) depth 20

  record_award-Leads :
      (c : SendAward) (x : Approval) (q : Quote) (id token : String) (r : SendResult)
      → Leads (Free x.approval_id) AwardsBound (record_award env c x q id token r)
  unfolding record_award new_award award_record
  record_award-Leads c x q id token r =
      search
        (
          ledger_rules,
          Free-ignores x.approval_id,
          Free-bind x.approval_id,
          Leads-added x.approval_id,
          announce-keeps,
        )
        depth 60 fits 4000

  award_once-Leads :
      (c : SendAward) (x : Approval) (q : Quote)
      → Leads (Free x.approval_id) AwardsBound (award_once env c x q none)
  unfolding award_once
  award_once-Leads c x q =
      search
        (ledger_rules, Free-ignores x.approval_id, Free-bind x.approval_id, record_award-Leads c x)
        depth 60 fits 4000

  -- What the binding of an approval says decides whether an award is made.
  award_found-Leads :
      (c : SendAward) (x : Approval) (q : Quote) (o : Option String)
      → Leads
          (λ s. AwardsBound s × (get s.award_by_approval_id x.approval_id ≡ o))
          AwardsBound
          (award_once env c x q o)
  unfolding award_once
  award_found-Leads c x q none = award_once-Leads c x q
  award_found-Leads c x q (some id) = record { at = λ s h. (the_found id).at s h.0 }
    where
      the_found : (id : String) → Keeps AwardsBound (award_once env c x q (some id))
      the_found id = search keeps_rules depth 20

  reads_award-keeps :
      (c : SendAward) (x : Approval) (q : Quote)
      → Keeps AwardsBound
          (reads (λ s. get s.award_by_approval_id x.approval_id) >>= λ o. award_once env c x q o)
  reads_award-keeps c x q =
      Keeps-using (reads λ s. get s.award_by_approval_id x.approval_id) _ (Leaves-reads _)
        (award_found-Leads c x q)

  award_approved-keeps : (c : SendAward) → Keeps AwardsBound (award_approved env c)
  unfolding award_approved
  award_approved-keeps c =
      search (ledger_rules, AwardsBound-ignores, reads_award-keeps) depth 60 fits 4000

  reservations-ignored : (id approval : String) → IgnoresReservations (Binds env id approval)
  reservations-ignored id approval = record {
    reservations = λ s d (h, e). (record { bound = h.bound }, e);
    bindings = λ s d (h, e). (record { bound = h.bound }, e);
  }

  memory-ignored : IgnoresMemory AwardsBound
  memory-ignored = record { memory = λ s d h. record { bound = h.bound } }

  memory-ignored_bound : (id approval : String) → IgnoresMemory (Binds env id approval)
  memory-ignored_bound id approval = record {
    memory = λ s d (h, e). (record { bound = h.bound }, e);
  }

  reserve-keeps :
      (id : String) (x : Award) (d : Date) (b : Booking) (key : String) (o : Option String)
      → Keeps (Binds env id x.approval_id) (reserve_once env id x d b key o)
  unfolding reserve_once reserve reserved_award
  reserve-keeps id x d b key none =
      search
        (
          ledger_rules,
          Binds-ignores env id x.approval_id,
          Binds-put_award env id x.approval_id,
          Keeps-put_reservation (reservations-ignored id x.approval_id),
          Keeps-bind_reservation (reservations-ignored id x.approval_id),
        )
        depth 60 fits 4000
  reserve-keeps id x d b key (some r) = search ledger_rules depth 60 fits 4000

  confirm_terms-keeps :
      (id : String) (x : Award) (b : Booking) (key : String)
      → Keeps (Binds env id x.approval_id) (confirm_terms env id x b key)
  unfolding confirm_terms
  confirm_terms-keeps id x b key =
      search (ledger_rules, Binds-ignores env id x.approval_id, reserve-keeps id x) depth 60 fits
        4000

  confirm_reservation-keeps :
      (id : String) (b : Booking) (key : String)
      → Keeps AwardsBound (confirm_reservation env id b key)
  unfolding confirm_reservation
  confirm_reservation-keeps id b key =
      Keeps-from (the_award id) _ (Leaves-the_award env id) λ entry.
        search
          (
            lookup_rules,
            Keeps-once env (memory-ignored_bound id entry.dto.approval_id),
            confirm_terms-keeps id entry.dto,
          )
          depth 20

  approvals-ignored : IgnoresApprovals AwardsBound
  approvals-ignored = record { approvals = λ s d h. record { bound = h.bound } }

  decide_approval-keeps :
      (id actor_type actor : String) (approve : Bool) (key : String) (reason : Option String)
      → Keeps AwardsBound (decide_approval env id actor_type actor approve key reason)
  unfolding decide_approval
  decide_approval-keeps id actor_type actor approve key reason =
      search
        (
          lookup_rules,
          Keeps-once env memory-ignored,
          Keeps-decide_open AwardsBound-ignores approvals-ignored env,
        )
        depth 20

  steps : Steps AwardsBound env
  steps = record {
    ignores = AwardsBound-ignores;
    once = Keeps-once env memory-ignored;
    submission =
        Keeps-take_quote AwardsBound-ignores env
          (Keeps-invalidate_approvals AwardsBound-ignores approvals-ignored env);
    opening = Keeps-open_approval AwardsBound-ignores approvals-ignored env;
    decision = decide_approval-keeps;
    award = award_approved-keeps;
    following = λ id. Keeps-of (get_award_status env id) (get_award_status-gives env id);
    acceptance = accept_delivered-keeps;
    refusal = decline_delivered-keeps;
    reservation = confirm_reservation-keeps;
  }

  -- Whatever calls run on a store without awards, with whatever gateway, clock and tokens: two
  -- awards for the same approval are the same award.
  pub one_award :
      (cs : List Call) (s : Session W) (i j : String) (a b : AwardRecord)
      → s.store.awards ≡ []
      → get (run_all env cs s).store.awards i ≡ some a
      → get (run_all env cs s).store.awards j ≡ some b
      → a.dto.approval_id ≡ b.dto.approval_id
      → i ≡ j
  one_award cs s i j a b none_yet found_a found_b same =
      let h : AwardsBound (run_all env cs s).store =
        run_all-keeps env steps cs s
          (record { bound = λ id e f. absurd (get-empty s.store.awards id e none_yet f) }) in
      cc (h.bound i a found_a, h.bound j b found_b, same)
