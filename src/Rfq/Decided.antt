-- ===== src/Rfq/Decided.antt =====
-- modules/rfq/service.py: who decides an approval.
use hackathon_open_ai.Prelude.{
  false, [], List, get-empty, ℕ, String, Bool, true, Option, some, ◌≡◌, sym, ap, subst, inl, inr,
  str_eq, str_eq_iff, get, set-cases, string_eq,
}
use hackathon_open_ai.Shared.{ExecutionCode}
use hackathon_open_ai.Rfq.Keeps.{
  Keeps-then, Keeps-guard, Keeps-guarded, keeps_rules, Keeps, Keeps-writes,
}
use hackathon_open_ai.Rfq.Frame.{frame_rules, lookup_rules, Ignores}
use hackathon_open_ai.Rfq.Contracts.{
  Quote, Context, Approval, ApprovalStatus, RequestApproval, Comparison,
}
use hackathon_open_ai.Rfq.Submitting.{invalidate_if, invalidate_approvals}
use hackathon_open_ai.Rfq.Approvals.{
  open_approval, decide_open, decide_approval, new_approval, decided,
}
use hackathon_open_ai.Rfq.Reservations.{Booking, confirm_reservation}
use hackathon_open_ai.Rfq.Calls.{Call, Steps, Keeps-once, run_all, run_all-keeps, IgnoresMemory}
use hackathon_open_ai.Rfq.Ledger.{
  ledger_rules, Keeps-take_quote, Keeps-award_approved, Keeps-get_award_status,
  Keeps-accept_delivered, Keeps-decline_delivered, Keeps-confirm_terms, IgnoresAwards,
  IgnoresReservations,
}
use hackathon_open_ai.Rfq.Actions.{Session}
use hackathon_open_ai.Rfq.Store.{Store}
use hackathon_open_ai.Rfq.Environment.{Environment}
use hackathon_open_ai.Rfq.Submissions.{invalidated}
use hackathon_open_ai.Rfq.Lookups.{put_approval}

-- The status is that of a decision.
pub data IsDecision : ApprovalStatus → Type 0 where
  granted : IsDecision ApprovalStatus.approved
  refused : IsDecision ApprovalStatus.rejected

-- A decision is the approver's.
abbrev pub ByApprover : Approval → Type 0
ByApprover a = IsDecision a.status → a.decided_by_user_id ≡ some a.approver_user_id

pub record ApprovalsDecided (s : Store) : Type 0 where
  pub decided : (id : String) (a : Approval) → get s.approvals id ≡ some a → ByApprover a

ApprovalsDecided-ignores : Ignores ApprovalsDecided
ApprovalsDecided-ignores = record {
  rounds = λ s d h. record { decided = h.decided };
  recipients = λ s d h. record { decided = h.decided };
  quotes = λ s d h. record { decided = h.decided };
  versions = λ s d h. record { decided = h.decided };
  comparisons = λ s d h. record { decided = h.decided };
  statuses = λ s d h. record { decided = h.decided };
  events = λ s es h. record { decided = h.decided };
  counters = λ s prefix h. record { decided = h.decided };
}

awards-ignored : IgnoresAwards ApprovalsDecided
awards-ignored = record {
  awards = λ s d h. record { decided = h.decided };
  bindings = λ s d h. record { decided = h.decided };
}

reservations-ignored : IgnoresReservations ApprovalsDecided
reservations-ignored = record {
  reservations = λ s d h. record { decided = h.decided };
  bindings = λ s d h. record { decided = h.decided };
}

memory-ignored : IgnoresMemory ApprovalsDecided
memory-ignored = record { memory = λ s d h. record { decided = h.decided } }

module _ {W : Type 0} (env : Environment W) where
  put_approval-keeps :
      (id : String) (x : Approval)
      → ByApprover x
      → Keeps {W = W} ApprovalsDecided (put_approval id x)
  unfolding put_approval
  put_approval-keeps id x ok = Keeps-writes _ λ s h. record {
    decided = λ j a found. elim (set-cases s.approvals j id x a found) [
      | inl (p, q) ↦ subst ByApprover q ok
      | inr (other, old) ↦ h.decided j a old
    ];
  }

  requested-ok :
      (c : RequestApproval) (x : Comparison) (id : String) (t : ℕ)
      → ByApprover (new_approval c x id t)
  unfolding new_approval
  requested-ok c x id t d = elim d [ ]

  invalidated-ok : (a : Approval) → ByApprover (invalidated a)
  unfolding invalidated
  invalidated-ok a d = elim d [ ]

  decided-ok :
      (a : Approval) (actor : String) (approve : Bool) (reason : Option String) (t : ℕ)
      → str_eq a.approver_user_id actor ≡ true
      → ByApprover (decided a actor approve reason t)
  unfolding decided
  decided-ok a actor approve reason t same d = ap some (sym ((str_eq_iff _ _).0 same))

  invalidate_if-keeps :
      (q : Quote) (c : Context) (id : String) (x : Approval) (b : Bool)
      → Keeps ApprovalsDecided (invalidate_if env q c id x b)
  unfolding invalidate_if
  invalidate_if-keeps q c id x true =
      search (frame_rules, ApprovalsDecided-ignores, put_approval-keeps, invalidated-ok) depth 20
  invalidate_if-keeps q c id x false = search keeps_rules depth 20

  invalidate_approvals-keeps :
      (q : Quote) (c : Context) → Keeps ApprovalsDecided (invalidate_approvals env q c)
  unfolding invalidate_approvals
  invalidate_approvals-keeps q c =
      search (frame_rules, ApprovalsDecided-ignores, invalidate_if-keeps) depth 20

  open_approval-keeps : (c : RequestApproval) → Keeps ApprovalsDecided (open_approval env c)
  unfolding open_approval
  open_approval-keeps c =
      search (ledger_rules, ApprovalsDecided-ignores, put_approval-keeps, requested-ok) depth 60
        fits 4000

  decide_open-keeps :
      (id : String) (x : Approval) (actor_type actor : String) (approve : Bool) (key : String)
      (reason : Option String)
      → Keeps ApprovalsDecided (decide_open env id x actor_type actor approve key reason)
  unfolding decide_open
  decide_open-keeps id x actor_type actor approve key reason =
      Keeps-then _ _ (Keeps-guard (str_eq actor_type "human") ExecutionCode.policy_denied) (
        Keeps-guarded (str_eq x.approver_user_id actor) ExecutionCode.policy_denied _ λ same.
          search
            (ledger_rules, ApprovalsDecided-ignores, put_approval-keeps, decided-ok x actor, same)
            depth 60 fits 4000)

  decide_approval-keeps :
      (id actor_type actor : String) (approve : Bool) (key : String) (reason : Option String)
      → Keeps ApprovalsDecided (decide_approval env id actor_type actor approve key reason)
  unfolding decide_approval
  decide_approval-keeps id actor_type actor approve key reason =
      search (lookup_rules, Keeps-once env memory-ignored, decide_open-keeps) depth 20

  confirm_reservation-keeps :
      (id : String) (b : Booking) (key : String)
      → Keeps ApprovalsDecided (confirm_reservation env id b key)
  unfolding confirm_reservation
  confirm_reservation-keeps id b key =
      search
        (
          lookup_rules,
          Keeps-once env memory-ignored,
          Keeps-confirm_terms ApprovalsDecided-ignores awards-ignored env reservations-ignored,
        )
        depth 20

  steps : Steps ApprovalsDecided env
  steps = record {
    ignores = ApprovalsDecided-ignores;
    once = Keeps-once env memory-ignored;
    submission = Keeps-take_quote ApprovalsDecided-ignores env invalidate_approvals-keeps;
    opening = open_approval-keeps;
    decision = decide_approval-keeps;
    award = Keeps-award_approved ApprovalsDecided-ignores awards-ignored env;
    following = Keeps-get_award_status ApprovalsDecided-ignores awards-ignored env;
    acceptance = Keeps-accept_delivered ApprovalsDecided-ignores awards-ignored env;
    refusal = Keeps-decline_delivered ApprovalsDecided-ignores awards-ignored env;
    reservation = confirm_reservation-keeps;
  }

  -- Whatever calls run on a store without approvals: an approval that is granted or rejected names
  -- as the one who decided the approver that it was requested of.
  pub decided_by_approver :
      (cs : List Call) (s : Session W) (id : String) (a : Approval)
      → s.store.approvals ≡ []
      → get (run_all env cs s).store.approvals id ≡ some a
      → IsDecision a.status
      → a.decided_by_user_id ≡ some a.approver_user_id
  decided_by_approver cs s id a none_yet found =
      let h : ApprovalsDecided (run_all env cs s).store =
        run_all-keeps env steps cs s
          (record { decided = λ j x f. absurd (get-empty s.store.approvals j x none_yet f) }) in
      h.decided id a found
