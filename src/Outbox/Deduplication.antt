-- ===== src/Outbox/Deduplication.antt =====
-- infrastructure/outbox/repository.py: an item is enqueued once for its idempotency key.
use hackathon_open_ai.Prelude.{
  ◌∙◌, ap, ◌≡◌, refl, String, Bool, true, false, Option, none, some, [], ◌∷◌, ◌++◌, not,
  if◌then◌else◌, str_eq, str_eq_iff, arith,
}
use hackathon_open_ai.Value.{Fields}
use hackathon_open_ai.Outbox.Rows.{
  OutboxItem, Table, Outcome, done, raised, OutboxError, find_key, row_of,
}
use hackathon_open_ai.Outbox.Enqueue.{
  Json, is_new, fingerprint_of, new_row, insert_row, insert_or_find, enqueue_canonical, enqueue,
}

find_key-append :
    (tenant key : String) (t : Table) (row : OutboxItem)
    → find_key tenant key t ≡ none
    → row.tenant_id ≡ tenant
    → row.idempotency_key ≡ key
    → find_key tenant key (t ++ row ∷ []) ≡ some row
unfolding find_key
find_key-append tenant key [] row h e k =
    ground (arith, str_eq_iff row.tenant_id tenant, str_eq_iff row.idempotency_key key)
find_key-append tenant key (x ∷ xs) row h e k = ground (arith, find_key-append tenant key xs row)

-- The key is taken by a row of the same content, and the table is the one that `t` became.
record Taken (row : OutboxItem) (u : Table) : Type 0 where
  pub by : OutboxItem
  pub found : find_key row.tenant_id row.idempotency_key u ≡ some by
  pub same : by.payload_fingerprint ≡ row.payload_fingerprint

abbrev found_or_not : Bool → OutboxItem → Table → Outcome (OutboxItem × Bool) × Table
found_or_not b existing t =
    if b then (done (existing, false), t) else (raised OutboxError.idempotency_conflict, t)

Taken-by :
    (row existing : OutboxItem) (t : Table) (x : OutboxItem × Bool) (b : Bool)
    → find_key row.tenant_id row.idempotency_key t ≡ some existing
    → (b ≡ true → existing.payload_fingerprint ≡ row.payload_fingerprint)
    → (found_or_not b existing t).0 ≡ done x
    → Taken row (found_or_not b existing t).1
Taken-by row existing t x true e k h = record { by = existing; found = e; same = k refl }
Taken-by row existing t x false e k h = absurd cc

insert_row-Taken :
    (persisted row : OutboxItem) (t : Table) (o : Option OutboxItem) (x : OutboxItem × Bool)
    → find_key row.tenant_id row.idempotency_key t ≡ none
    → (insert_row persisted row o t).0 ≡ done x
    → Taken row (insert_row persisted row o t).1
unfolding insert_row
insert_row-Taken persisted row t none x e h = record {
  by = row;
  found = find_key-append _ _ t row e refl refl;
  same = refl;
}
insert_row-Taken persisted row t (some other) x e h = absurd cc

insert_or_find-Taken :
    (persisted row : OutboxItem) (t : Table) (o : Option OutboxItem) (x : OutboxItem × Bool)
    → find_key row.tenant_id row.idempotency_key t ≡ o
    → (insert_or_find persisted row o t).0 ≡ done x
    → Taken row (insert_or_find persisted row o t).1
unfolding insert_or_find
insert_or_find-Taken persisted row t (some existing) x e h =
    Taken-by row existing t x (str_eq existing.payload_fingerprint row.payload_fingerprint) e
      (λ k. (str_eq_iff existing.payload_fingerprint row.payload_fingerprint).0 k) h
insert_or_find-Taken persisted row t none x e h =
    insert_row-Taken persisted row t (row_of row.id t) x e h

same_content :
    (persisted row by : OutboxItem) (u : Table)
    → by.payload_fingerprint ≡ row.payload_fingerprint
    → insert_or_find persisted row (some by) u ≡ (done (by, false), u)
unfolding insert_or_find
same_content persisted row by u e =
    ground (arith, str_eq_iff by.payload_fingerprint row.payload_fingerprint)

-- The item is found again, and nothing is inserted.
abbrev Again : (Table → Outcome (OutboxItem × Bool) × Table) → Table → Type 0
Again f t = (y : OutboxItem) × (f (f t).1 ≡ (done (y, false), (f t).1))

again :
    (persisted row : OutboxItem) (u : Table)
    → Taken row u
    → (y : OutboxItem) × (insert_or_find persisted row
          (find_key row.tenant_id row.idempotency_key u)
          u
        ≡ (done (y, false), u))
again persisted row u taken = (
  taken.by,
  ap (λ o. insert_or_find persisted row o u) taken.found
      ∙ same_content persisted row taken.by u taken.same,
)

enqueue_canonical-Again :
    (json : Json) (item : OutboxItem) (o : Option Fields) (t : Table) (x : OutboxItem × Bool)
    → (enqueue_canonical json item o t).0 ≡ done x
    → Again (enqueue_canonical json item o) t
unfolding enqueue_canonical new_row
enqueue_canonical-Again json item none t x h = absurd cc
enqueue_canonical-Again json item (some payload) t x h =
    let fingerprint = fingerprint_of json item payload in
    let persisted = record item { payload = payload; payload_fingerprint = fingerprint } in
    let row = new_row item payload fingerprint in
    again persisted row _ (
      insert_or_find-Taken persisted row t (find_key item.tenant_id item.idempotency_key t) x refl
        h)

abbrev guard :
    Bool
    → OutboxError
    → (Table → Outcome (OutboxItem × Bool) × Table)
    → Table
    → Outcome (OutboxItem × Bool) × Table
guard b e f u = if b then (raised e, u) else f u

guarded :
    (b : Bool) (e : OutboxError) (f : Table → Outcome (OutboxItem × Bool) × Table) (t : Table)
    (x : OutboxItem × Bool)
    → ((f t).0 ≡ done x → Again f t)
    → (guard b e f t).0 ≡ done x
    → Again (guard b e f) t
guarded true e f t x k h = absurd cc
guarded false e f t x k h = k h

-- Once an item is enqueued, whether it was inserted or found, enqueueing it again at once finds an item
-- and inserts nothing: the table stays as it is.
pub enqueue_again :
    (json : Json) (tenant : String) (item : OutboxItem) (t : Table) (x : OutboxItem × Bool)
    → (enqueue json tenant item t).0 ≡ done x
    → (y : OutboxItem) × (enqueue json tenant item (enqueue json tenant item t).1
        ≡ (done (y, false), (enqueue json tenant item t).1))
unfolding enqueue
enqueue_again json tenant item t x h =
    guarded (not (str_eq item.tenant_id tenant)) OutboxError.tenant_scope_violation
      (λ u.
        if not (is_new item)
        then (raised OutboxError.value_error, u)
        else enqueue_canonical json item (json.canonical item.payload) u)
      t x
      (guarded (not (is_new item)) OutboxError.value_error
        (enqueue_canonical json item (json.canonical item.payload)) t x
        (enqueue_canonical-Again json item (json.canonical item.payload) t x))
      h
