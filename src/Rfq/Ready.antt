-- ===== src/Rfq/Ready.antt =====
-- modules/rfq/service.py: awards that are ready for contracting.
use hackathon_open_ai.Rfq.Rounds.{names_tenant}
use hackathon_open_ai.Rfq.Leaves.{
  Leaves-guarded, Leaves-bind, Leaves-with, Leaves-pure, leaves_rules, Leaves-found, Leaves-weaken,
  Leaves, Keeps-with, Keeps-of,
}
use hackathon_open_ai.Rfq.Frame.{Keeps-tenant_for_request, lookup_rules}
use hackathon_open_ai.Rfq.Lookups.{tenant_for_request, the_award, put_award, bind_award}
use hackathon_open_ai.Prelude.{
  inr, subst, inl, set-cases, true, ℕ, get-empty, List, [], some, Option, none, get, String, Bool,
  not, is_blank, ◌≡◌, string_eq,
}
use hackathon_open_ai.Rfq.Environment.{GatewayStatus, SendResult, Environment, Claims}
use hackathon_open_ai.Rfq.Contracts.{
  DeliveryState, award_accepted, AwardStatus, award_delivered, Quote, Approval, SendAward, Award,
}
use hackathon_open_ai.Rfq.Awarding.{
  note_failed, note_delivered, note_award, get_award_status, announce, award_once, award_approved,
  record_award,
}
use hackathon_open_ai.Rfq.Store.{AwardRecord}
use hackathon_open_ai.Rfq.Keeps.{
  Keeps-writes, Keeps-guarded, keeps_rules, Keeps, Keeps-then, Keeps-guard,
}
use hackathon_open_ai.Rfq.Awards.{failed_award, delivered_award, award_record}
use hackathon_open_ai.Rfq.Ledger.{
  Keeps-invalidate_approvals, Keeps-put_reservation, Keeps-bind_reservation, Keeps-decide_open,
  Keeps-take_quote, Keeps-open_approval, ledger_rules,
}
use hackathon_open_ai.Rfq.Numerals.{Date}
use hackathon_open_ai.Rfq.Actions.{Session}
use hackathon_open_ai.Rfq.Calls.{Call, Steps, Keeps-once, run_all, run_all-keeps}
use hackathon_open_ai.Rfq.Reservations.{
  Booking, reserve_once, reserve, confirm_terms, confirm_reservation,
}
use hackathon_open_ai.Rfq.Approvals.{decide_approval}
use hackathon_open_ai.Value.{Fields}
use hackathon_open_ai.Shared.{ExecutionCode}
use hackathon_open_ai.Rfq.Answers.{
  record_answer, accept_delivered, decline_delivered, declined_award, answerable,
}
use hackathon_open_ai.Rfq.Sound.{
  Sound, AwardsSound, AwardsSound-ignores, approvals-ignored, reservations-ignored, memory-ignored,
  award_delivered-eq, award_accepted-eq, delivered-Sound, failed-Sound, declined-Sound,
  accepted-Sound, reserved-Sound, new-Sound,
}

module _ {W : Type 0} (env : Environment W) where
  put_award-keeps :
      (id : String) (x : AwardRecord) → Sound x.dto → Keeps {W = W} AwardsSound (put_award id x)
  unfolding put_award
  put_award-keeps id x ok = Keeps-writes _ λ s h. record {
    sound = λ j entry found. elim (set-cases s.awards j id x entry found) [
      | inl (p, q) ↦ subst (λ r. Sound r.dto) q ok
      | inr (other, old) ↦ h.sound j entry old
    ];
  }

  bind_award-keeps : (approval id : String) → Keeps {W = W} AwardsSound (bind_award approval id)
  unfolding bind_award
  bind_award-keeps approval id = Keeps-writes _ λ s h. record { sound = h.sound }

  record_award-keeps :
      (c : SendAward) (x : Approval) (q : Quote) (id token : String) (r : SendResult)
      → Keeps AwardsSound (record_award env c x q id token r)
  unfolding record_award award_record announce
  record_award-keeps c x q id token r =
      search (ledger_rules, AwardsSound-ignores, put_award-keeps, bind_award-keeps, new-Sound) depth
        60 fits 4000

  award_once-keeps :
      (c : SendAward) (x : Approval) (q : Quote) (o : Option String)
      → Keeps AwardsSound (award_once env c x q o)
  unfolding award_once
  award_once-keeps c x q none =
      search (ledger_rules, AwardsSound-ignores, record_award-keeps) depth 60 fits 4000
  award_once-keeps c x q (some id) = search ledger_rules depth 60 fits 4000

  award_approved-keeps : (c : SendAward) → Keeps AwardsSound (award_approved env c)
  unfolding award_approved
  award_approved-keeps c =
      search (ledger_rules, AwardsSound-ignores, award_once-keeps) depth 60 fits 4000

  Gives-the_award : (id : String) → Leaves {W = W} AwardsSound (λ e _. Sound e.dto) (the_award id)
  unfolding the_award
  Gives-the_award id =
      Leaves-weaken _ (Leaves-found (λ s. get s.awards id) ExecutionCode.not_found)
        λ entry s h e. h.sound id entry e

  note_award-Sound :
      (id : String) (entry : AwardRecord) (g : GatewayStatus) (a : AwardStatus) (d : DeliveryState)
      → Sound entry.dto
      → entry.dto.status ≡ a
      → Leaves AwardsSound (λ b _. Sound b) (note_award env id entry g a d)
  unfolding note_award note_delivered note_failed
  note_award-Sound id entry g AwardStatus.sent_to_gateway DeliveryState.delivered h e =
      let ok : (t u : ℕ) → Sound (delivered_award entry.dto t u) =
        λ t u. delivered-Sound entry.dto t u h e in
      search (leaves_rules, ledger_rules, AwardsSound-ignores, put_award-keeps, ok) depth 60 fits
        4000
  note_award-Sound id entry g AwardStatus.sent_to_gateway DeliveryState.failed h e =
      let ok : (t : ℕ) → Sound (failed_award entry.dto t) = λ t. failed-Sound entry.dto t h e in
      search (leaves_rules, ledger_rules, AwardsSound-ignores, put_award-keeps, ok) depth 60 fits
        4000
  note_award-Sound id entry g AwardStatus.sent_to_gateway DeliveryState.sent_to_gateway h e =
      Leaves-pure entry.dto λ _ _. h
  note_award-Sound id entry g AwardStatus.queued d h e = Leaves-pure entry.dto λ _ _. h
  note_award-Sound id entry g AwardStatus.delivered d h e = Leaves-pure entry.dto λ _ _. h
  note_award-Sound id entry g AwardStatus.accepted d h e = Leaves-pure entry.dto λ _ _. h
  note_award-Sound id entry g AwardStatus.declined d h e = Leaves-pure entry.dto λ _ _. h
  note_award-Sound id entry g AwardStatus.failed d h e = Leaves-pure entry.dto λ _ _. h

  get_award_status-Sound :
      (id : String) → Leaves AwardsSound (λ b _. Sound b) (get_award_status env id)
  unfolding get_award_status
  get_award_status-Sound id =
      Leaves-with (the_award id) _ (Gives-the_award id)
        λ entry h. search (leaves_rules, keeps_rules, note_award-Sound id entry, h) depth 20

  answerable-Sound :
      (c : Claims)
      → Leaves AwardsSound (λ a _. Sound a × (a.status ≡ AwardStatus.delivered)) (answerable env c)
  unfolding answerable
  answerable-Sound c =
      Leaves-with (get_award_status env c.subject) _ (get_award_status-Sound c.subject) λ current h.
        Leaves-bind (tenant_for_request current.procurement_request_id) _
          (Keeps-tenant_for_request current.procurement_request_id)
          λ tenant.
            Leaves-guarded (names_tenant c tenant) ExecutionCode.invalid_response_token _ λ _.
              Leaves-guarded (award_delivered current.status) ExecutionCode.invalid_state _
                λ d. Leaves-pure current λ _ _. (h, award_delivered-eq current.status d)

  record_answer-keeps :
      (id : String) (entry : AwardRecord) (x y : Award) (status event : String) (payload : Fields)
      (key respondent : String)
      → Sound y
      → Keeps AwardsSound (record_answer env id entry x y status event payload key respondent)
  unfolding record_answer
  record_answer-keeps id entry x y status event payload key respondent ok =
      search (ledger_rules, AwardsSound-ignores, put_award-keeps, ok) depth 60 fits 4000

  accept_delivered-keeps :
      (c : Claims) (respondent hash : String) (b : Bool) (key : String)
      → Keeps AwardsSound (accept_delivered env c respondent hash b key)
  unfolding accept_delivered
  accept_delivered-keeps c respondent hash b key =
      Keeps-with (answerable env c) _ (answerable-Sound c) λ current _.
        search (ledger_rules, AwardsSound-ignores, record_answer-keeps, accepted-Sound) depth 60
          fits 4000

  decline_delivered-keeps :
      (c : Claims) (respondent reason key : String)
      → Keeps AwardsSound (decline_delivered env c respondent reason key)
  unfolding decline_delivered
  decline_delivered-keeps c respondent reason key =
      Keeps-then _ _ (Keeps-guard (not (is_blank respondent)) ExecutionCode.validation_error) (
        Keeps-then _ _ (Keeps-guard (not (is_blank reason)) ExecutionCode.validation_error) (
          Keeps-with (answerable env c) _ (answerable-Sound c) λ current (h, e).
            let ok : (t u : ℕ) → Sound (declined_award current t u) =
              λ t u. declined-Sound current t u h e in
            search (ledger_rules, AwardsSound-ignores, record_answer-keeps, ok) depth 60 fits 4000))

  reserve_once-keeps :
      (id : String) (x : Award) (d : Date) (b : Booking) (key : String) (o : Option String)
      → Sound x
      → x.status ≡ AwardStatus.accepted
      → Keeps AwardsSound (reserve_once env id x d b key o)
  unfolding reserve_once reserve
  reserve_once-keeps id x d b key none h e =
      search
        (
          ledger_rules,
          AwardsSound-ignores,
          put_award-keeps,
          reserved-Sound x,
          h,
          e,
          Keeps-put_reservation reservations-ignored,
          Keeps-bind_reservation reservations-ignored,
        )
        depth 60 fits 4000
  reserve_once-keeps id x d b key (some r) h e = search ledger_rules depth 60 fits 4000

  confirm_terms-keeps :
      (id : String) (x : Award) (b : Booking) (key : String)
      → Sound x
      → Keeps AwardsSound (confirm_terms env id x b key)
  unfolding confirm_terms
  confirm_terms-keeps id x b key h =
      Keeps-guarded (award_accepted x.status) ExecutionCode.invalid_state _ λ ok.
        let e = award_accepted-eq x.status ok in
        search (ledger_rules, AwardsSound-ignores, reserve_once-keeps id x, h, e) depth 60 fits 4000

  confirm_reservation-keeps :
      (id : String) (b : Booking) (key : String)
      → Keeps AwardsSound (confirm_reservation env id b key)
  unfolding confirm_reservation
  confirm_reservation-keeps id b key = Keeps-with (the_award id) _ (Gives-the_award id) λ entry h.
      search (lookup_rules, Keeps-once env memory-ignored, confirm_terms-keeps id entry.dto, h)
        depth 20

  decide_approval-keeps :
      (id actor_type actor : String) (approve : Bool) (key : String) (reason : Option String)
      → Keeps AwardsSound (decide_approval env id actor_type actor approve key reason)
  unfolding decide_approval
  decide_approval-keeps id actor_type actor approve key reason =
      search
        (
          lookup_rules,
          Keeps-once env memory-ignored,
          Keeps-decide_open AwardsSound-ignores approvals-ignored env,
        )
        depth 20

  steps : Steps AwardsSound env
  steps = record {
    ignores = AwardsSound-ignores;
    once = Keeps-once env memory-ignored;
    submission =
        Keeps-take_quote AwardsSound-ignores env
          (Keeps-invalidate_approvals AwardsSound-ignores approvals-ignored env);
    opening = Keeps-open_approval AwardsSound-ignores approvals-ignored env;
    decision = decide_approval-keeps;
    award = award_approved-keeps;
    following = λ id. Keeps-of (get_award_status env id) (get_award_status-Sound id);
    acceptance = accept_delivered-keeps;
    refusal = decline_delivered-keeps;
    reservation = confirm_reservation-keeps;
  }

  -- Whatever calls run on a store without awards: an award that is ready for contracting is accepted,
  -- and the hash of the terms that the supplier accepted is that of the award's terms.
  pub ready_was_accepted :
      (cs : List Call) (s : Session W) (id : String) (entry : AwardRecord)
      → s.store.awards ≡ []
      → get (run_all env cs s).store.awards id ≡ some entry
      → entry.dto.ready_for_contracting ≡ true
      → (entry.dto.status ≡ AwardStatus.accepted)
        × (entry.dto.accepted_terms_hash ≡ some entry.dto.terms_snapshot_hash)
  ready_was_accepted cs s id entry none_yet found ready =
      let h : AwardsSound (run_all env cs s).store =
        run_all-keeps env steps cs s
          (record { sound = λ j x f. absurd (get-empty s.store.awards j x none_yet f) }) in
      let sound = h.sound id entry found in
      let accepted = sound.ready ready in (accepted, sound.agreed accepted)
