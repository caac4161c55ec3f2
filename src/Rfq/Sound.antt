-- ===== src/Rfq/Sound.antt =====
-- modules/rfq/service.py: the awards that are well formed, and the changes that keep them so.
use hackathon_open_ai.Rfq.Frame.{Ignores}
use hackathon_open_ai.Prelude.{
  inr, ◌∙◌, sym, Bool-cases, inl, refl, false, true, ◌≢◌, ℕ, some, Option, get, String, ◌≡◌,
  string_eq,
}
use hackathon_open_ai.Rfq.Contracts.{
  DeliveryState, award_accepted, AwardStatus, award_delivered, Quote, Approval, SendAward, Award,
}
use hackathon_open_ai.Rfq.Store.{Terms, Payload, Store, AwardRecord}
use hackathon_open_ai.Rfq.Awards.{award_status_of, failed_award, delivered_award, new_award}
use hackathon_open_ai.Rfq.Ledger.{IgnoresApprovals, IgnoresReservations}
use hackathon_open_ai.Rfq.Calls.{IgnoresMemory}
use hackathon_open_ai.Rfq.Reservations.{reserved_award}
use hackathon_open_ai.Rfq.Answers.{accepted_award, declined_award}

-- Only an accepted award is ready for contracting, and an accepted one has the hash of its terms.
pub record Sound (a : Award) : Type 0 where
  pub ready : a.ready_for_contracting ≡ true → a.status ≡ AwardStatus.accepted
  pub agreed : a.status ≡ AwardStatus.accepted → a.accepted_terms_hash ≡ some a.terms_snapshot_hash

pub record AwardsSound (s : Store) : Type 0 where
  pub sound : (id : String) (entry : AwardRecord) → get s.awards id ≡ some entry → Sound entry.dto

pub AwardsSound-ignores : Ignores AwardsSound
AwardsSound-ignores = record {
  rounds = λ s d h. record { sound = h.sound };
  recipients = λ s d h. record { sound = h.sound };
  quotes = λ s d h. record { sound = h.sound };
  versions = λ s d h. record { sound = h.sound };
  comparisons = λ s d h. record { sound = h.sound };
  statuses = λ s d h. record { sound = h.sound };
  events = λ s d h. record { sound = h.sound };
  counters = λ s prefix h. record { sound = h.sound };
}

pub approvals-ignored : IgnoresApprovals AwardsSound
approvals-ignored = record { approvals = λ s d h. record { sound = h.sound } }

pub reservations-ignored : IgnoresReservations AwardsSound
reservations-ignored = record {
  reservations = λ s d h. record { sound = h.sound };
  bindings = λ s d h. record { sound = h.sound };
}

pub memory-ignored : IgnoresMemory AwardsSound
memory-ignored = record { memory = λ s d h. record { sound = h.sound } }

pub award_delivered-eq : (s : AwardStatus) → award_delivered s ≡ true → s ≡ AwardStatus.delivered
unfolding award_delivered
award_delivered-eq AwardStatus.delivered h = refl
award_delivered-eq AwardStatus.queued h = absurd cc
award_delivered-eq AwardStatus.sent_to_gateway h = absurd cc
award_delivered-eq AwardStatus.accepted h = absurd cc
award_delivered-eq AwardStatus.declined h = absurd cc
award_delivered-eq AwardStatus.failed h = absurd cc

pub award_accepted-eq : (s : AwardStatus) → award_accepted s ≡ true → s ≡ AwardStatus.accepted
unfolding award_accepted
award_accepted-eq AwardStatus.accepted h = refl
award_accepted-eq AwardStatus.queued h = absurd cc
award_accepted-eq AwardStatus.sent_to_gateway h = absurd cc
award_accepted-eq AwardStatus.delivered h = absurd cc
award_accepted-eq AwardStatus.declined h = absurd cc
award_accepted-eq AwardStatus.failed h = absurd cc

-- An award that is neither accepted nor ready.
pub open-Sound :
    (a : Award) → a.status ≢ AwardStatus.accepted → a.ready_for_contracting ≡ false → Sound a
open-Sound a e f = record { ready = λ r. absurd cc; agreed = λ r. absurd (e r) }

pub not_ready :
    (a : Award) (s : AwardStatus)
    → Sound a
    → a.status ≡ s
    → s ≢ AwardStatus.accepted
    → a.ready_for_contracting ≡ false
not_ready a s h e n = elim (Bool-cases a.ready_for_contracting) [
  | inl r ↦ absurd (n (sym e ∙ h.ready r))
  | inr r ↦ r
]

pub delivered-Sound :
    (a : Award) (t u : ℕ)
    → Sound a
    → a.status ≡ AwardStatus.sent_to_gateway
    → Sound (delivered_award a t u)
unfolding delivered_award
delivered-Sound a t u h e =
    open-Sound (delivered_award a t u) (λ r. absurd cc)
      (not_ready a AwardStatus.sent_to_gateway h e λ r. absurd cc)

pub failed-Sound :
    (a : Award) (t : ℕ)
    → Sound a
    → a.status ≡ AwardStatus.sent_to_gateway
    → Sound (failed_award a t)
unfolding failed_award
failed-Sound a t h e =
    open-Sound (failed_award a t) (λ r. absurd cc)
      (not_ready a AwardStatus.sent_to_gateway h e λ r. absurd cc)

pub declined-Sound :
    (a : Award) (t u : ℕ)
    → Sound a
    → a.status ≡ AwardStatus.delivered
    → Sound (declined_award a t u)
unfolding declined_award
declined-Sound a t u h e =
    open-Sound (declined_award a t u) (λ r. absurd cc)
      (not_ready a AwardStatus.delivered h e λ r. absurd cc)

pub accepted-Sound : (a : Award) (t u : ℕ) → Sound (accepted_award a t u)
unfolding accepted_award
accepted-Sound a t u = record { ready = λ r. refl; agreed = λ r. refl }

pub reserved-Sound :
    (a : Award) (t : ℕ) → Sound a → a.status ≡ AwardStatus.accepted → Sound (reserved_award a t)
unfolding reserved_award
reserved-Sound a t h e = record { ready = λ r. e; agreed = h.agreed }

pub new-Sound :
    (hash : Payload → String) (c : SendAward) (x : Approval) (q : Quote) (terms : Terms)
    (d : DeliveryState) (id : String) (o : Option ℕ) (t : ℕ)
    → Sound (new_award hash c x q terms d id o t)
unfolding new_award award_status_of
new-Sound hash c x q terms DeliveryState.delivered id o t =
    open-Sound (new_award hash c x q terms DeliveryState.delivered id o t) (λ r. absurd cc) refl
new-Sound hash c x q terms DeliveryState.sent_to_gateway id o t =
    open-Sound (new_award hash c x q terms DeliveryState.sent_to_gateway id o t) (λ r. absurd cc)
      refl
new-Sound hash c x q terms DeliveryState.failed id o t =
    open-Sound (new_award hash c x q terms DeliveryState.failed id o t) (λ r. absurd cc) refl
