-- ===== src/Rfq/Bound.antt =====
-- modules/rfq/service.py: awards, and the approvals that they are bound to.
use hackathon_open_ai.Rfq.Keeps.{keeps_rules, Keeps-writes, Keeps}
use hackathon_open_ai.Rfq.Frame.{lookup_rules, Ignores}
use hackathon_open_ai.Rfq.Leaves.{
  leaves_rules, Leaves, Leaves-weaken, Leaves-found, Leaves-pure, Leaves-from,
}
use hackathon_open_ai.Prelude.{
  set-cases, String, inl, inr, none, some, ◌≡◌, sym, ap, ◌∙◌, get, set, get-set_self, get-set_other,
  same-ne, string_eq,
}
use hackathon_open_ai.Rfq.Ledger.{ledger_rules}
use hackathon_open_ai.Rfq.Environment.{Claims, Environment, GatewayStatus}
use hackathon_open_ai.Rfq.Answers.{answerable}
use hackathon_open_ai.Rfq.Awarding.{get_award_status, note_award, note_delivered, note_failed}
use hackathon_open_ai.Rfq.Lookups.{the_award, put_award}
use hackathon_open_ai.Shared.{ExecutionCode}
use hackathon_open_ai.Rfq.Contracts.{Award, AwardStatus, DeliveryState}
use hackathon_open_ai.Rfq.Awards.{failed_award, delivered_award}
use hackathon_open_ai.Rfq.Store.{Store, AwardRecord}

-- Each award is the one that its approval is bound to.
pub record AwardsBound (s : Store) : Type 0 where
  pub bound :
      (id : String) (entry : AwardRecord)
      → get s.awards id ≡ some entry
      → get s.award_by_approval_id entry.dto.approval_id ≡ some id

pub AwardsBound-ignores : Ignores AwardsBound
AwardsBound-ignores = record {
  rounds = λ s d h. record { bound = h.bound };
  recipients = λ s d h. record { bound = h.bound };
  quotes = λ s d h. record { bound = h.bound };
  versions = λ s d h. record { bound = h.bound };
  comparisons = λ s d h. record { bound = h.bound };
  statuses = λ s d h. record { bound = h.bound };
  events = λ s es h. record { bound = h.bound };
  counters = λ s prefix h. record { bound = h.bound };
}

-- An award may take the place of another that its approval is bound to.
pub set-AwardsBound :
    (s : Store) (id : String) (x : AwardRecord)
    → AwardsBound s
    → get s.award_by_approval_id x.dto.approval_id ≡ some id
    → AwardsBound (record s { awards = set s.awards id x })
set-AwardsBound s id x h e = record {
  bound = λ j entry found. elim (set-cases s.awards j id x entry found) [
    | inl (p, q) ↦ ap (λ r. get s.award_by_approval_id r.dto.approval_id) (sym q) ∙ e ∙ ap some p
    | inr (other, old) ↦ h.bound j entry old
  ];
}

-- A new award and its binding, for an approval that has none.
pub add-AwardsBound :
    (s : Store) (id approval : String) (x : AwardRecord)
    → x.dto.approval_id ≡ approval
    → AwardsBound s
    → get s.award_by_approval_id approval ≡ none
    → AwardsBound (record s {
      awards = set s.awards id x;
      award_by_approval_id = set s.award_by_approval_id approval id;
    })
add-AwardsBound s id approval x names h fresh = record {
  bound = λ j entry found. elim (set-cases s.awards j id x entry found) [
    | inl (p, q) ↦
        ap (get (set s.award_by_approval_id approval id))
          (ap (λ r. r.dto.approval_id) (sym q) ∙ names)
        ∙ get-set_self s.award_by_approval_id approval id
        ∙ ap some p
    | inr (other, old) ↦
        let was = h.bound j entry old in
        get-set_other s.award_by_approval_id entry.dto.approval_id approval id
          (same-ne _ _ approval _ was fresh)
        ∙ was
  ];
}

module _ {W : Type 0} (env : Environment W) where
  module _ (id approval : String) where
    -- The approval is bound to the award.
    abbrev pub Binds : Store → Type 0
    Binds s = AwardsBound s × (get s.award_by_approval_id approval ≡ some id)

    pub Binds-ignores : Ignores Binds
    Binds-ignores = record {
      rounds = λ s d (h, e). (AwardsBound-ignores.rounds s d h, e);
      recipients = λ s d (h, e). (AwardsBound-ignores.recipients s d h, e);
      quotes = λ s d (h, e). (AwardsBound-ignores.quotes s d h, e);
      versions = λ s d (h, e). (AwardsBound-ignores.versions s d h, e);
      comparisons = λ s d (h, e). (AwardsBound-ignores.comparisons s d h, e);
      statuses = λ s d (h, e). (AwardsBound-ignores.statuses s d h, e);
      events = λ s d (h, e). (AwardsBound-ignores.events s d h, e);
      counters = λ s prefix (h, e). (AwardsBound-ignores.counters s prefix h, e);
    }

    pub Binds-put_award :
        (x : AwardRecord) → x.dto.approval_id ≡ approval → Keeps {W = W} Binds (put_award id x)
    unfolding put_award
    Binds-put_award x p =
        Keeps-writes _
          λ s (h, e). (set-AwardsBound s id x h (ap (get s.award_by_approval_id) p ∙ e), e)

  pub Binds-known :
      (id approval : String) (s : Store)
      → Binds id approval s
      → get s.award_by_approval_id approval ≡ some id
  Binds-known id approval s h = h.1

  Found-known :
      (id : String) (a : Award) (s : Store)
      → AwardsBound s × (get s.award_by_approval_id a.approval_id ≡ some id)
      → get s.award_by_approval_id a.approval_id ≡ some id
  Found-known id a s h = h.1

  -- What is found among the awards is bound.
  abbrev pub IsBoundTo : String → Award → Store → Type 0
  IsBoundTo id a s = get s.award_by_approval_id a.approval_id ≡ some id

  pub Leaves-the_award :
      (id : String)
      → Leaves {W = W} AwardsBound (λ entry s. IsBoundTo id entry.dto s) (the_award id)
  unfolding the_award
  Leaves-the_award id =
      Leaves-weaken _ (Leaves-found (λ s. get s.awards id) ExecutionCode.not_found)
        λ entry s h e. h.bound id entry e

  note_delivered-gives :
      (id : String) (entry : AwardRecord) (g : GatewayStatus)
      → Leaves (Binds id entry.dto.approval_id) (IsBoundTo id) (note_delivered env id entry g)
  unfolding note_delivered delivered_award
  note_delivered-gives id entry g =
      search
        (
          leaves_rules,
          ledger_rules,
          Binds-ignores id entry.dto.approval_id,
          Binds-put_award id entry.dto.approval_id,
          Binds-known id entry.dto.approval_id,
        )
        depth 60 fits 4000

  note_failed-gives :
      (id : String) (entry : AwardRecord) (g : GatewayStatus)
      → Leaves (Binds id entry.dto.approval_id) (IsBoundTo id) (note_failed env id entry g)
  unfolding note_failed failed_award
  note_failed-gives id entry g =
      search
        (
          leaves_rules,
          ledger_rules,
          Binds-ignores id entry.dto.approval_id,
          Binds-put_award id entry.dto.approval_id,
          Binds-known id entry.dto.approval_id,
        )
        depth 60 fits 4000

  pub note_award-gives :
      (id : String) (entry : AwardRecord) (g : GatewayStatus) (a : AwardStatus) (d : DeliveryState)
      → Leaves (Binds id entry.dto.approval_id) (IsBoundTo id) (note_award env id entry g a d)
  unfolding note_award
  note_award-gives id entry g AwardStatus.sent_to_gateway DeliveryState.delivered =
      note_delivered-gives id entry g
  note_award-gives id entry g AwardStatus.sent_to_gateway DeliveryState.failed =
      note_failed-gives id entry g
  note_award-gives id entry g AwardStatus.sent_to_gateway DeliveryState.sent_to_gateway =
      Leaves-pure entry.dto λ s h. h.1
  note_award-gives id entry g AwardStatus.queued d = Leaves-pure entry.dto λ s h. h.1
  note_award-gives id entry g AwardStatus.delivered d = Leaves-pure entry.dto λ s h. h.1
  note_award-gives id entry g AwardStatus.accepted d = Leaves-pure entry.dto λ s h. h.1
  note_award-gives id entry g AwardStatus.declined d = Leaves-pure entry.dto λ s h. h.1
  note_award-gives id entry g AwardStatus.failed d = Leaves-pure entry.dto λ s h. h.1

  pub get_award_status-gives :
      (id : String) → Leaves AwardsBound (IsBoundTo id) (get_award_status env id)
  unfolding get_award_status
  get_award_status-gives id =
      Leaves-from (the_award id) _ (Leaves-the_award id)
        λ entry. search (leaves_rules, keeps_rules, note_award-gives id entry) depth 20

  pub answerable-gives : (c : Claims) → Leaves AwardsBound (IsBoundTo c.subject) (answerable env c)
  unfolding answerable
  answerable-gives c =
      Leaves-from (get_award_status env c.subject) _ (get_award_status-gives c.subject)
        λ current. search (leaves_rules, lookup_rules, Found-known c.subject current) depth 20
