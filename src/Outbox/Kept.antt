-- ===== src/Outbox/Kept.antt =====
-- infrastructure/outbox/repository.py: what each operation does to the row of a delivered item.
use hackathon_open_ai.Prelude.{
  ℕ, ◌≡◌, refl, String, Bool, true, false, Option, none, some, List, [], ◌∷◌, ◌++◌, not,
  if◌then◌else◌, str_eq, str_eq_iff, arith, map,
}
use hackathon_open_ai.Value.{Fields}
use hackathon_open_ai.Outbox.Rows.{
  OutboxStatus, OutboxItem, Table, Outcome, done, raised, OutboxError, find_item, set_item,
  find_key, row_of,
}
use hackathon_open_ai.Outbox.Enqueue.{
  Json, insert_or_find, insert_row, enqueue_canonical, enqueue, is_new, new_row, fingerprint_of,
}
use hackathon_open_ai.Outbox.Leases.{
  is_due, may_claim, claim, claim_chosen, candidates, first_rows, claim_due, has_active_lease,
  with_lease, failed_row, delivered_row, repeat_ack, claim_rows, is_bad_claim, is_delivered,
  deliver_found, fail_found,
}

row_of-append :
    (id : String) (t : Table) (new r : OutboxItem)
    → row_of id t ≡ some r
    → row_of id (t ++ new ∷ []) ≡ some r
unfolding row_of
row_of-append id [] new r h = absurd cc
row_of-append id (x ∷ xs) new r h = ground (arith, row_of-append id xs new r)

-- A claim passes over the rows that may not be claimed.
row_of-claim_chosen :
    (id : String) (p : OutboxItem → Bool) (worker : String) (now lease : ℕ) (ids : List String)
    (t : Table) (r : OutboxItem)
    → row_of id t ≡ some r
    → p r ≡ false
    → row_of id (claim_chosen p (claim worker now lease) ids t) ≡ some r
unfolding row_of claim_chosen claim
row_of-claim_chosen id p worker now lease ids [] r h k = absurd cc
row_of-claim_chosen id p worker now lease ids (x ∷ xs) r h k =
    ground (arith, row_of-claim_chosen id p worker now lease ids xs r)

-- What replaces a row of another status leaves a delivered one alone.
row_of-set_item :
    (id tenant other : String) (new found : OutboxItem) (t : Table) (r : OutboxItem)
    → row_of id t ≡ some r
    → r.status ≡ OutboxStatus.delivered
    → find_item tenant other t ≡ some found
    → found.status ≡ OutboxStatus.processing
    → new.id ≡ found.id
    → row_of id (set_item tenant other new t) ≡ some r
unfolding row_of set_item find_item
row_of-set_item id tenant other new found [] r h d f s e = absurd cc
row_of-set_item id tenant other new found (x ∷ xs) r h d f s e = ground (
  arith,
  row_of-set_item id tenant other new found xs r,
  str_eq_iff x.id id,
  str_eq_iff new.id id,
)

branch :
    {A : Type 0} (id : String) (b : Bool) (x y : Outcome A × Table) (o : Option OutboxItem)
    → (b ≡ true → row_of id x.1 ≡ o)
    → (b ≡ false → row_of id y.1 ≡ o)
    → row_of id (if b then x else y).1 ≡ o
branch id true x y o h k = h refl
branch id false x y o h k = k refl

pub has_active_lease-processing :
    (r : OutboxItem) (worker : String) (attempt now : ℕ)
    → has_active_lease r worker attempt now ≡ true
    → r.status ≡ OutboxStatus.processing
unfolding has_active_lease
has_active_lease-processing r worker attempt now h = ground arith

may_claim-due :
    (held : String → Bool) (tenant : String) (now : ℕ) (r : OutboxItem)
    → is_due now r ≡ false
    → may_claim held tenant now r ≡ false
unfolding may_claim
may_claim-due held tenant now r h = ground arith

pub delivered_not_due :
    (now : ℕ) (r : OutboxItem) → r.status ≡ OutboxStatus.delivered → is_due now r ≡ false
unfolding is_due
delivered_not_due now r h = ground arith

pub row_of-claim_due :
    (collate : String → String → Bool) (held : String → Bool) (tenant worker id : String)
    (now lease limit : ℕ) (t : Table) (r : OutboxItem)
    → row_of id t ≡ some r
    → is_due now r ≡ false
    → row_of id (claim_due collate held tenant worker now lease limit t).1 ≡ some r
unfolding claim_due claim_rows
row_of-claim_due collate held tenant worker id now lease limit t r h k =
    branch {A = Table} id (is_bad_claim worker lease limit) (raised OutboxError.value_error, t)
      (claim_rows collate held tenant worker now lease limit t) (some r) (λ _. h)
      (λ _.
        row_of-claim_chosen id (may_claim held tenant now) worker now lease
          (map (λ r. r.id) (first_rows limit (candidates collate (may_claim held tenant now) t))) t
          r h (may_claim-due held tenant now r k))

-- What the delivered row `r` is to the row that an operation finds.
module _ (tenant other worker id : String) (attempt : ℕ) (t : Table) (r : OutboxItem)
    (h : row_of id t ≡ some r) (d : r.status ≡ OutboxStatus.delivered) where
  row_of-with_lease :
      (now : ℕ) (found new : OutboxItem)
      → find_item tenant other t ≡ some found
      → new.id ≡ found.id
      → row_of id (with_lease tenant other worker attempt now found new t).1 ≡ some r
  unfolding with_lease
  row_of-with_lease now found new f e =
      branch {A = OutboxItem} id (has_active_lease found worker attempt now)
        (done new, set_item tenant other new t) (raised OutboxError.stale_or_foreign_lease, t)
        (some r)
        (λ a.
          row_of-set_item id tenant other new found t r h d f
            (has_active_lease-processing found worker attempt now a) e)
        (λ _. h)

  pub row_of-fail_found :
      (error : String) (next now : ℕ) (o : Option OutboxItem)
      → find_item tenant other t ≡ o
      → row_of id (fail_found tenant other worker attempt error next now o t).1 ≡ some r
  unfolding fail_found
  row_of-fail_found error next now none e = h
  row_of-fail_found error next now (some found) e =
      row_of-with_lease now found (failed_row error next now found) e refl

  row_of-repeat_ack :
      (found : OutboxItem) (ack : String) → row_of id (repeat_ack found ack t).1 ≡ some r
  unfolding repeat_ack
  row_of-repeat_ack found ack =
      branch {A = OutboxItem} id
        (elim found.external_delivery_id [ none ↦ false | some known ↦ str_eq known ack ])
        (done found, t) (raised OutboxError.different_ack, t) (some r) (λ _. h) (λ _. h)

  pub row_of-deliver_found :
      (ack : String) (at : ℕ) (o : Option OutboxItem)
      → find_item tenant other t ≡ o
      → row_of id (deliver_found tenant other worker attempt ack at o t).1 ≡ some r
  unfolding deliver_found
  row_of-deliver_found ack at none e = h
  row_of-deliver_found ack at (some found) e =
      branch {A = OutboxItem} id (is_delivered found.status) (repeat_ack found ack t)
        (with_lease tenant other worker attempt at found (delivered_row ack at found) t) (some r)
        (λ _. row_of-repeat_ack found ack)
        (λ _. row_of-with_lease at found (delivered_row ack at found) e refl)

module _ (id : String) (t : Table) (r : OutboxItem) (h : row_of id t ≡ some r) where
  row_of-insert_row :
      (persisted row : OutboxItem) (o : Option OutboxItem)
      → row_of id (insert_row persisted row o t).1 ≡ some r
  unfolding insert_row
  row_of-insert_row persisted row none = row_of-append id t row r h
  row_of-insert_row persisted row (some other) = h

  row_of-insert_or_find :
      (persisted row : OutboxItem) (o : Option OutboxItem)
      → row_of id (insert_or_find persisted row o t).1 ≡ some r
  unfolding insert_or_find
  row_of-insert_or_find persisted row none = row_of-insert_row persisted row (row_of row.id t)
  row_of-insert_or_find persisted row (some found) =
      branch {A = OutboxItem × Bool} id (str_eq found.payload_fingerprint row.payload_fingerprint)
        (done (found, false), t) (raised OutboxError.idempotency_conflict, t) (some r) (λ _. h)
        (λ _. h)

  row_of-enqueue_canonical :
      (json : Json) (item : OutboxItem) (o : Option Fields)
      → row_of id (enqueue_canonical json item o t).1 ≡ some r
  unfolding enqueue_canonical
  row_of-enqueue_canonical json item none = h
  row_of-enqueue_canonical json item (some payload) =
      row_of-insert_or_find
        (record item { payload = payload; payload_fingerprint = fingerprint_of json item payload })
        (new_row item payload (fingerprint_of json item payload))
        (find_key item.tenant_id item.idempotency_key t)

  pub row_of-enqueue :
      (json : Json) (tenant : String) (item : OutboxItem)
      → row_of id (enqueue json tenant item t).1 ≡ some r
  unfolding enqueue
  row_of-enqueue json tenant item =
      branch {A = OutboxItem × Bool} id (not (str_eq item.tenant_id tenant))
        (raised OutboxError.tenant_scope_violation, t)
        (if not (is_new item)
          then (raised OutboxError.value_error, t)
          else enqueue_canonical json item (json.canonical item.payload) t)
        (some r) (λ _. h)
        (λ _.
          branch {A = OutboxItem × Bool} id (not (is_new item)) (raised OutboxError.value_error, t)
            (enqueue_canonical json item (json.canonical item.payload) t) (some r) (λ _. h)
            (λ _. row_of-enqueue_canonical json item (json.canonical item.payload)))
