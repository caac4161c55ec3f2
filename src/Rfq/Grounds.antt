-- ===== src/Rfq/Grounds.antt =====
-- modules/rfq/service.py: what an award rests on.
use hackathon_open_ai.Prelude.{
  subst, pair_eq, values, ltb, ◌==◌, ◌&&◌, String, Bool, true, false, Option, none, some, ◌≡◌, refl,
  ◌∙◌, str_eq, str_eq_iff, ==_iff, get, string_eq, arith,
}
use hackathon_open_ai.Rfq.Remembers.{once-runs}
use hackathon_open_ai.Rfq.Replay.{operation_of}
use hackathon_open_ai.Rfq.Returns.{
  Gives-eq, Gives-map, gives_rules, Gives, Gives-bind, Gives-then, Gives-guard, Gives-pure, Finds,
  lookup-Finds,
}
use hackathon_open_ai.Rfq.Store.{AwardRecord, Payload, Store, QuoteRecord, Result}
use hackathon_open_ai.Rfq.Awarding.{send_award, announce, record_award, award_once, award_approved}
use hackathon_open_ai.Rfq.Actions.{returned, continue, guard, Session, calls, ◌>>=◌, pure, refuse}
use hackathon_open_ai.Rfq.Lookups.{
  tenant_for_request, tenant_in, the_approval, the_award, the_quote,
}
use hackathon_open_ai.Rfq.Awards.{new_award}
use hackathon_open_ai.Rfq.Contracts.{
  Quote, QuoteRef, QuoteStatus, is_final, Approval, ApprovalStatus, is_approved, SendAward, Award,
}
use hackathon_open_ai.Rfq.Environment.{SendResult, Environment}
use hackathon_open_ai.Shared.{ExecutionCode}
use hackathon_open_ai.Rfq.Approvals.{still_open, require_valid, selected_quote}
use hackathon_open_ai.Rfq.Trail.{now}

-- The quote is in the store, at the version that is named, eligible and final.
pub record Selected (ref : QuoteRef) (q : Quote) (s : Store) : Type 0 where
  pub entry : QuoteRecord
  pub found : get s.quotes ref.quote_id ≡ some entry
  pub same : q ≡ entry.dto
  pub version : q.quote_version ≡ ref.quote_version
  pub eligible : q.eligible ≡ true
  pub final : q.status ≡ QuoteStatus.final

is_final-eq : (s : QuoteStatus) → is_final s ≡ true → s ≡ QuoteStatus.final
unfolding is_final
is_final-eq QuoteStatus.final h = refl
is_final-eq QuoteStatus.draft h = absurd cc
is_final-eq QuoteStatus.needs_clarification h = absurd cc
is_final-eq QuoteStatus.invalid h = absurd cc
is_final-eq QuoteStatus.expired h = absurd cc
is_final-eq QuoteStatus.declined h = absurd cc

is_approved-eq : (s : ApprovalStatus) → is_approved s ≡ true → s ≡ ApprovalStatus.approved
unfolding is_approved
is_approved-eq ApprovalStatus.approved h = refl
is_approved-eq ApprovalStatus.requested h = absurd cc
is_approved-eq ApprovalStatus.rejected h = absurd cc
is_approved-eq ApprovalStatus.changes_requested h = absurd cc
is_approved-eq ApprovalStatus.invalidated h = absurd cc

module _ {W : Type 0} where
  the_quote-Finds :
      (id : String) (s : Session W)
      → Gives (Finds s λ q. get s.store.quotes id ≡ some q) (the_quote id s)
  unfolding the_quote
  the_quote-Finds id s = lookup-Finds s (λ t. get t.quotes id) ExecutionCode.not_found

  the_approval-Finds :
      (id : String) (s : Session W)
      → Gives (Finds s λ q. get s.store.approvals id ≡ some q) (the_approval id s)
  unfolding the_approval
  the_approval-Finds id s = lookup-Finds s (λ t. get t.approvals id) ExecutionCode.not_found

  the_award-Finds :
      (id : String) (s : Session W)
      → Gives (Finds s λ q. get s.store.awards id ≡ some q) (the_award id s)
  unfolding the_award
  the_award-Finds id s = lookup-Finds s (λ t. get t.awards id) ExecutionCode.not_found

  tenant-Finds :
      (id : String) (s : Session W)
      → Gives (Finds s λ t. tenant_in (values s.store.rounds) id ≡ some t) (tenant_for_request id s)
  unfolding tenant_for_request
  tenant-Finds id s = lookup-Finds s (λ t. tenant_in (values t.rounds) id) ExecutionCode.not_found

  guard-Finds :
      (b c : Bool) (e : ExecutionCode) (s t : Session W)
      → t.store ≡ s.store
      → c ≡ true
      → Gives (Finds s λ _. c ≡ true) (guard b e t)
  unfolding guard pure refuse
  guard-Finds true c e s t p h = record { here = (p, h) }
  guard-Finds false c e s t p h = record { here = tt }

module _ {W : Type 0} (env : Environment W) where
  still_open-Finds :
      (q : Quote) (b : Bool) (s : Session W) → Gives (Finds s λ _. b ≡ true) (still_open env q b s)
  unfolding still_open now calls ◌>>=◌ continue refuse
  still_open-Finds q false s = record { here = tt }
  still_open-Finds q true s =
      guard-Finds (ltb (env.now s.world).0 q.submission.valid_until) true
        ExecutionCode.quote_expired s (record s { world = (env.now s.world).1 }) refl refl

  selected_quote-Finds :
      (ref : QuoteRef) (s : Session W)
      → Gives (Finds s λ q. Selected ref q s.store) (selected_quote env ref s)
  unfolding selected_quote require_valid
  selected_quote-Finds ref s =
      Gives-bind (the_quote ref.quote_id) _ s (the_quote-Finds ref.quote_id s)
        λ entry t (kept, found).
          Gives-guard (entry.dto.quote_version == ref.quote_version) ExecutionCode.stale_version _ t
            λ version.
              Gives-then
                (still_open env entry.dto (entry.dto.eligible && is_final entry.dto.status)) _ t
                (still_open-Finds entry.dto (entry.dto.eligible && is_final entry.dto.status) t)
                λ _ u (kept2, valid). Gives-pure entry.dto u (
                  kept2 ∙ kept,
                  record {
                    entry = entry;
                    found = found;
                    same = refl;
                    version = (==_iff _ _).0 version;
                    eligible = ground arith;
                    final = is_final-eq entry.dto.status (ground arith);
                  },
                )

  -- The answer is an award of the quote.
  abbrev Pays : Approval → Quote → Result → Type 0
  Pays x q r =
      (a : Award) × ((r ≡ Result.award a)
        × ((a.approval_id ≡ x.approval_id)
            × ((a.approved_quote ≡ x.selected_quote)
                × ((a.supplier_id ≡ q.supplier_id)
                    × (a.approved_total_cents ≡ q.submission.total_cents)))))

  -- The answer is the award that is bound to the approval, or a new one for the quote's total.
  pub data Paid (x : Approval) (q : Quote) (s : Store) (r : Result) : Type 0 where
    again :
        (id : String) (entry : AwardRecord)
        → get s.award_by_approval_id x.approval_id ≡ some id
        → get s.awards id ≡ some entry
        → r ≡ Result.award (record (entry.dto) { idempotent_replay = true })
        → Paid x q s r
    first :
        (a : Award)
        → get s.award_by_approval_id x.approval_id ≡ none
        → r ≡ Result.award a
        → a.approval_id ≡ x.approval_id
        → a.approved_quote ≡ x.selected_quote
        → a.supplier_id ≡ q.supplier_id
        → a.approved_total_cents ≡ q.submission.total_cents
        → Paid x q s r

  -- What `send_award` checked, and what it answered.
  pub record Grounds (command : SendAward) (s : Store) (r : Result) : Type 0 where
    pub approval : Approval
    pub quote : Quote
    pub found : get s.approvals command.approval_id ≡ some approval
    pub granted : approval.status ≡ ApprovalStatus.approved
    pub version : approval.approval_version ≡ command.expected_approval_version
    pub request : approval.procurement_request_id ≡ command.procurement_request_id
    pub selected : Selected approval.selected_quote quote s
    pub award : Paid approval quote s r

  announce-Gives :
      (c : SendAward) (id : String) (a : Award) (b : Bool) (s : Session W)
      → Gives (λ r _. r ≡ Result.award a) (announce env c id a b s)
  unfolding announce
  announce-Gives c id a b s = search gives_rules depth 20

  announce-Pays :
      (c : SendAward) (x : Approval) (q : Quote) (id : String) (a : Award) (b : Bool)
      (s : Session W)
      → a.approval_id ≡ x.approval_id
      → a.approved_quote ≡ x.selected_quote
      → a.supplier_id ≡ q.supplier_id
      → a.approved_total_cents ≡ q.submission.total_cents
      → Gives (λ r _. Pays x q r) (announce env c id a b s)
  announce-Pays c x q id a b s e f g h =
      Gives-map (λ r _. Pays x q r) _ (announce-Gives c id a b s)
        λ r t p. (a, (p, (e, (f, (g, h)))))

  record_award-Gives :
      (c : SendAward) (x : Approval) (q : Quote) (id token : String) (r : SendResult)
      (s : Session W)
      → Gives (λ r _. Pays x q r) (record_award env c x q id token r s)
  unfolding record_award new_award
  record_award-Gives c x q id token r s = search (gives_rules, announce-Pays c x q) depth 20

  award_once-Gives :
      (c : SendAward) (x : Approval) (q : Quote) (s : Session W)
      → Gives (λ r _. Pays x q r) (award_once env c x q none s)
  unfolding award_once
  award_once-Gives c x q s = search (gives_rules, record_award-Gives c x q) depth 20

  award_found-Gives :
      (c : SendAward) (x : Approval) (q : Quote) (o : Option String) (s : Session W)
      → get s.store.award_by_approval_id x.approval_id ≡ o
      → Gives (λ r _. Paid x q s.store r) (award_once env c x q o s)
  unfolding award_once
  award_found-Gives c x q none s bound =
      Gives-map (λ r _. Paid x q s.store r) _ (award_once-Gives c x q s)
        λ r t (a, (p, (e, (f, (g, h))))). Paid.first a bound p e f g h
  award_found-Gives c x q (some id) s bound =
      Gives-bind (the_award id) _ s (the_award-Finds id s)
        λ entry t (kept, found). Gives-pure _ t (Paid.again id entry bound found refl)

  award_approved-Gives :
      (c : SendAward) (s : Session W) → Gives (λ r _. Grounds c s.store r) (award_approved env c s)
  unfolding award_approved
  award_approved-Gives c s =
      Gives-bind (the_approval c.approval_id) _ s (the_approval-Finds c.approval_id s)
        λ x t (kept, found).
          Gives-bind (tenant_for_request x.procurement_request_id) _ t
            (tenant-Finds x.procurement_request_id t)
            λ tenant u (kept1, _).
              Gives-guard (str_eq tenant c.context.tenant_id) ExecutionCode.policy_denied _ u λ _.
                Gives-guard (str_eq x.procurement_request_id c.procurement_request_id)
                  ExecutionCode.validation_error _ u
                  λ request.
                    Gives-guard (x.approval_version == c.expected_approval_version)
                      ExecutionCode.stale_version _ u
                      λ version.
                        Gives-guard (is_approved x.status) ExecutionCode.invalid_state _ u
                          λ granted.
                            Gives-bind (selected_quote env x.selected_quote) _ u
                              (selected_quote-Finds x.selected_quote u)
                              λ q v (kept2, selected).
                                Gives-map (λ r _. Grounds c s.store r) _
                                  (award_found-Gives c x q
                                    (get v.store.award_by_approval_id x.approval_id) v refl)
                                  λ r w paid. record {
                                    approval = x;
                                    quote = q;
                                    found = found;
                                    granted = is_approved-eq x.status granted;
                                    version = (==_iff _ _).0 version;
                                    request = (str_eq_iff _ _).0 request;
                                    selected =
                                        subst (Selected x.selected_quote q) (kept1 ∙ kept) selected;
                                    award =
                                        subst (λ st. Paid x q st r) (kept2 ∙ (kept1 ∙ kept)) paid;
                                  }

  -- A call of `send_award` that returns, for a key that is not remembered, found the approval granted,
  -- at the expected version and for the request of the command, and its quote at the version that was
  -- approved, eligible and final. The answer is the award that the approval had already, as a replay,
  -- or, if it had none, an award for it, of that quote and its supplier, for the total of the quote.
  pub award_rests_on_approval :
      (c : SendAward) (s : Session W) (r : Result)
      → get s.store.idempotency
          (operation_of c.context.tenant_id "award.send", c.context.idempotency_key)
        ≡ none
      → (send_award env c s).0 ≡ returned r
      → Grounds c s.store r
  unfolding send_award
  award_rests_on_approval c s r fresh h =
      Gives-eq (λ a _. Grounds c s.store a) (award_approved env c s) r (award_approved-Gives c s)
        (once-runs env _ _ (Payload.awarding c) (award_approved env c) s r fresh h)
