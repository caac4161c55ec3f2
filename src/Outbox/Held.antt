-- ===== src/Outbox/Held.antt =====
-- infrastructure/outbox/repository.py: what an active lease is, and that its item is not due.
use hackathon_open_ai.Prelude.{
  ℕ, ◌≡◌, ◌<◌, String, true, false, Option, none, some, str_eq_iff, arith,
}
use hackathon_open_ai.Outbox.Leases.{is_due, is_active, has_active_lease}
use hackathon_open_ai.Outbox.Rows.{OutboxStatus, OutboxItem}

abbrev pub LastsBeyond : ℕ → Option ℕ → Type 0
LastsBeyond now none = ⊥
LastsBeyond now (some until) = now < until

-- The worker holds the item in the named attempt, and its lease lasts beyond the present.
pub record Holds (worker : String) (attempt now : ℕ) (r : OutboxItem) : Type 0 where
  pub processing : r.status ≡ OutboxStatus.processing
  pub by_worker : r.locked_by ≡ some worker
  pub same_attempt : r.attempt_count ≡ attempt
  pub lasts : LastsBeyond now r.locked_until

lease_parts :
    (status : OutboxStatus) (holder : Option String) (count : ℕ) (until : Option ℕ)
    (worker : String) (attempt now : ℕ)
    → is_active status holder count until worker attempt now ≡ true
    → (status ≡ OutboxStatus.processing)
      × (holder ≡ some worker)
      × (count ≡ attempt)
      × LastsBeyond now until
unfolding is_active
lease_parts OutboxStatus.processing (some w) count (some u) worker attempt now h =
    ground (arith, str_eq_iff w worker)
lease_parts OutboxStatus.processing none count until worker attempt now h = absurd (ground arith)
lease_parts OutboxStatus.processing (some w) count none worker attempt now h = absurd (ground arith)
lease_parts OutboxStatus.pending holder count until worker attempt now h = absurd cc
lease_parts OutboxStatus.delivered holder count until worker attempt now h = absurd cc
lease_parts OutboxStatus.failed holder count until worker attempt now h = absurd cc

pub has_active_lease-Holds :
    (r : OutboxItem) (worker : String) (attempt now : ℕ)
    → has_active_lease r worker attempt now ≡ true
    → Holds worker attempt now r
unfolding has_active_lease
has_active_lease-Holds r worker attempt now h =
    let parts =
      lease_parts r.status r.locked_by r.attempt_count r.locked_until worker attempt now h in
    record { processing = parts.0; by_worker = parts.1; same_attempt = parts.2; lasts = parts.3 }

active_lease :
    (status : OutboxStatus) (holder : Option String) (count : ℕ) (until : Option ℕ)
    (worker : String) (attempt now : ℕ)
    → status ≡ OutboxStatus.processing
    → holder ≡ some worker
    → count ≡ attempt
    → LastsBeyond now until
    → is_active status holder count until worker attempt now ≡ true
unfolding is_active
active_lease OutboxStatus.processing (some w) count (some u) worker attempt now s h c l =
    ground (arith, str_eq_iff w worker)
active_lease OutboxStatus.processing none count until worker attempt now s h c l = absurd cc
active_lease OutboxStatus.processing (some w) count none worker attempt now s h c l = absurd l
active_lease OutboxStatus.pending holder count until worker attempt now s h c l = absurd cc
active_lease OutboxStatus.delivered holder count until worker attempt now s h c l = absurd cc
active_lease OutboxStatus.failed holder count until worker attempt now s h c l = absurd cc

pub Holds-active :
    (r : OutboxItem) (worker : String) (attempt now : ℕ)
    → Holds worker attempt now r
    → has_active_lease r worker attempt now ≡ true
unfolding has_active_lease
Holds-active r worker attempt now h =
    active_lease r.status r.locked_by r.attempt_count r.locked_until worker attempt now h.processing
      h.by_worker h.same_attempt h.lasts

pub not_due_while_held :
    (now : ℕ) (r : OutboxItem)
    → r.status ≡ OutboxStatus.processing
    → LastsBeyond now r.locked_until
    → is_due now r ≡ false
unfolding is_due
not_due_while_held now r h k = ground arith
