-- ===== src/Outbox/Settling.antt =====
-- infrastructure/outbox/repository.py: how the parts of `mark_failed` and `mark_delivered` end.
use hackathon_open_ai.Prelude.{
  ◌≢◌, inr, subst, sym, ◌⊎◌, inl, ap, ◌∙◌, str_eq, ℕ, ◌≡◌, refl, String, Bool, true, false, Option,
  none, some, if◌then◌else◌, str_eq_iff,
}
use hackathon_open_ai.Outbox.Leases.{
  has_active_lease, with_lease, failed_row, delivered_row, repeat_ack, fail_found, deliver_found,
  is_delivered,
}
use hackathon_open_ai.Outbox.Rows.{
  OutboxStatus, OutboxItem, Table, done, raised, OutboxError, find_item, set_item,
}
use hackathon_open_ai.Outbox.Held.{Holds, has_active_lease-Holds, Holds-active}
use hackathon_open_ai.Outbox.Settled.{
  Settled, Failed, Delivered, Acknowledged, Never, failed_row-Failed, delivered_row-Delivered,
}

module _ (tenant id worker : String) (attempt now : ℕ) (t : Table) where
  none_found :
      (Known : OutboxItem → Type 0)
      → find_item tenant id t ≡ none
      → (r : OutboxItem) → find_item tenant id t ≡ some r
      → Holds worker attempt now r ⊎ Known r
      → ⊥
  none_found Known e r k h = cc

  -- Whatever refuses the item that is found refuses.
  that_one :
      (Known : OutboxItem → Type 0) (r : OutboxItem)
      → find_item tenant id t ≡ some r
      → (Holds worker attempt now r ⊎ Known r → ⊥)
      → (s : OutboxItem) → find_item tenant id t ≡ some s
      → Holds worker attempt now s ⊎ Known s
      → ⊥
  that_one Known r e bad s k h =
      bad (subst (λ x. Holds worker attempt now x ⊎ Known x) (cc (sym k ∙ e)) h)

  with_lease-Settled :
      (Written : OutboxItem → OutboxItem → Type 0) (Known : OutboxItem → Type 0)
      (r new : OutboxItem)
      → find_item tenant id t ≡ some r
      → Written r new
      → (Known r → ⊥)
      → Settled Written Known tenant id worker attempt now t
          (with_lease tenant id worker attempt now r new t)
  unfolding with_lease
  with_lease-Settled Written Known r new e k unknown =
      split (has_active_lease r worker attempt now) refl
    where
      split :
          (b : Bool)
          → has_active_lease r worker attempt now ≡ b
          → Settled Written Known tenant id worker attempt now t (
              if b
              then (done new, set_item tenant id new t)
              else (raised OutboxError.stale_or_foreign_lease, t))
      split true h = Settled.settled r new e (has_active_lease-Holds r worker attempt now h) k
      split false h = Settled.refused OutboxError.stale_or_foreign_lease (
          that_one Known r e elim [
            | inl held ↦ cc (h, Holds-active r worker attempt now held)
            | inr known ↦ unknown known
          ])

  pub fail_found-Settled :
      (error : String) (next : ℕ) (found : Option OutboxItem)
      → find_item tenant id t ≡ found
      → Settled
          (Failed error next now)
          Never
          tenant
          id
          worker
          attempt
          now
          t
          (fail_found tenant id worker attempt error next now found t)
  unfolding fail_found
  fail_found-Settled error next none e =
      Settled.refused OutboxError.record_not_found (none_found Never e)
  fail_found-Settled error next (some r) e =
      with_lease-Settled _ _ r (failed_row error next now r) e (failed_row-Failed error next now r)
        (λ never. never)

  repeat_ack-Settled :
      (ack : String) (r : OutboxItem)
      → find_item tenant id t ≡ some r
      → r.status ≡ OutboxStatus.delivered
      → Settled
          (Delivered ack now)
          (Acknowledged ack)
          tenant
          id
          worker
          attempt
          now
          t
          (repeat_ack r ack t)
  unfolding repeat_ack
  repeat_ack-Settled ack r e h = known r.external_delivery_id refl
    where
      other :
          (k : String)
          → r.external_delivery_id ≡ some k
          → str_eq k ack ≡ false
          → Holds worker attempt now r ⊎ Acknowledged ack r
          → ⊥
      other k g h2 (inl held) = cc (h, held.processing)
      other k g h2 (inr known) = cc (h2, (str_eq_iff k ack).1 (cc (sym g ∙ known.acknowledged)))

      unacknowledged :
          r.external_delivery_id ≡ none → Holds worker attempt now r ⊎ Acknowledged ack r → ⊥
      unacknowledged g (inl held) = cc (h, held.processing)
      unacknowledged g (inr known) = cc (g, known.acknowledged)

      split :
          (k : String)
          → r.external_delivery_id ≡ some k
          → (b : Bool) → str_eq k ack ≡ b
          → Settled
              (Delivered ack now)
              (Acknowledged ack)
              tenant
              id
              worker
              attempt
              now
              t
              (if b then (done r, t) else (raised OutboxError.different_ack, t))
      split k g true h2 =
          Settled.repeated r e
            (record { status = h; acknowledged = g ∙ ap some ((str_eq_iff k ack).0 h2) })
      split k g false h2 = Settled.refused OutboxError.different_ack (that_one _ r e (other k g h2))

      known :
          (o : Option String)
          → r.external_delivery_id ≡ o
          → Settled (Delivered ack now) (Acknowledged ack) tenant id worker attempt now t (
              if elim o [ none ↦ false | some k ↦ str_eq k ack ]
              then (done r, t)
              else (raised OutboxError.different_ack, t))
      known none g = Settled.refused OutboxError.different_ack (that_one _ r e (unacknowledged g))
      known (some k) g = split k g (str_eq k ack) refl

  pub deliver_found-Settled :
      (ack : String) (found : Option OutboxItem)
      → find_item tenant id t ≡ found
      → Settled
          (Delivered ack now)
          (Acknowledged ack)
          tenant
          id
          worker
          attempt
          now
          t
          (deliver_found tenant id worker attempt ack now found t)
  unfolding deliver_found
  deliver_found-Settled ack none e =
      Settled.refused OutboxError.record_not_found (none_found (Acknowledged ack) e)
  deliver_found-Settled ack (some r) e = split r.status refl
    where
      fresh :
          (s : OutboxStatus)
          → r.status ≡ s
          → (s ≢ OutboxStatus.delivered)
          → Settled
              (Delivered ack now)
              (Acknowledged ack)
              tenant
              id
              worker
              attempt
              now
              t
              (with_lease tenant id worker attempt now r (delivered_row ack now r) t)
      fresh s h undelivered =
          with_lease-Settled _ _ r (delivered_row ack now r) e (delivered_row-Delivered ack now r)
            λ known. undelivered (sym h ∙ known.status)

      split :
          (s : OutboxStatus)
          → r.status ≡ s
          → Settled (Delivered ack now) (Acknowledged ack) tenant id worker attempt now t (
              if is_delivered s
              then repeat_ack r ack t
              else with_lease tenant id worker attempt now r (delivered_row ack now r) t)
      split OutboxStatus.delivered h = repeat_ack-Settled ack r e h
      split OutboxStatus.pending h = fresh OutboxStatus.pending h λ e. cc
      split OutboxStatus.processing h = fresh OutboxStatus.processing h λ e. cc
      split OutboxStatus.failed h = fresh OutboxStatus.failed h λ e. cc
