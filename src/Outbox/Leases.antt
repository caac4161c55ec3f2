-- ===== src/Outbox/Leases.antt =====
-- infrastructure/outbox/repository.py: `claim_due`, `mark_failed` and `mark_delivered`. Which rows
-- other transactions hold, and how the database orders ids, are parameters.
use hackathon_open_ai.Prelude.{
  ℕ, zero, suc, ◌+◌, String, Bool, true, false, Option, none, some, List, [], ◌∷◌, ◌&&◌, ◌||◌, not,
  if◌then◌else◌, str_eq, leb, ltb, ◌==◌, map, member,
}
use hackathon_open_ai.Shared.{strip}
use hackathon_open_ai.Outbox.Rows.{
  OutboxStatus, OutboxItem, Table, OutboxError, Outcome, done, raised, find_item, set_item,
}

-- `status in (PENDING, FAILED)` and the next attempt is due, or the lease is over.
unfoldable pub is_due : ℕ → OutboxItem → Bool
is_due now r = elim r.status [
  | OutboxStatus.pending ↦ elim r.next_attempt_at [ none ↦ true | some t ↦ leb t now ]
  | OutboxStatus.failed ↦ elim r.next_attempt_at [ none ↦ true | some t ↦ leb t now ]
  | OutboxStatus.processing ↦ elim r.locked_until [ none ↦ false | some t ↦ leb t now ]
  | OutboxStatus.delivered ↦ false
]

-- The columns that the order compares: the next attempt with none first, the creation, the id.
unfoldable pub goes_before : (String → String → Bool) → OutboxItem → OutboxItem → Bool
goes_before collate a b =
    let tie =
      ltb a.created_at b.created_at || (a.created_at == b.created_at && collate a.id b.id) in
    elim a.next_attempt_at [
      | none ↦ elim b.next_attempt_at [ none ↦ tie | some t ↦ true ]
      | some s ↦ elim b.next_attempt_at [ none ↦ false | some t ↦ ltb s t || (s == t && tie) ]
    ]

unfoldable pub place : (String → String → Bool) → OutboxItem → Table → Table
unfolding goes_before
place collate r [] = r ∷ []
place collate r (s ∷ ss) =
    let rest = place collate r ss in if goes_before collate r s then r ∷ s ∷ ss else s ∷ rest

-- `WHERE ... ORDER BY ...`
unfoldable pub candidates : (String → String → Bool) → (OutboxItem → Bool) → Table → Table
unfolding place
candidates collate p [] = []
candidates collate p (r ∷ rs) =
    let rest = candidates collate p rs in if p r then place collate r rest else rest

unfoldable pub first_rows : ℕ → Table → Table
first_rows zero rows = []
first_rows (suc n) [] = []
first_rows (suc n) (r ∷ rs) = r ∷ first_rows n rs

-- The assignments of the loop over the claimed rows.
unfoldable pub claim : String → ℕ → ℕ → OutboxItem → OutboxItem
claim worker now lease r = record r {
  status = OutboxStatus.processing;
  attempt_count = r.attempt_count + 1;
  locked_by = some worker;
  locked_until = some (now + lease);
  updated_at = now;
  last_error = none;
}

-- A row that may be claimed: one of the tenant that is due, and that no transaction holds.
unfoldable pub may_claim : (String → Bool) → String → ℕ → OutboxItem → Bool
unfolding is_due
may_claim held tenant now r = str_eq r.tenant_id tenant && is_due now r && not (held r.id)

unfoldable pub claim_chosen :
    (OutboxItem → Bool) → (OutboxItem → OutboxItem) → List String → Table → Table
unfolding member
claim_chosen p f ids [] = []
claim_chosen p f ids (r ∷ rs) =
    let rest = claim_chosen p f ids rs in if p r && member r.id ids then f r ∷ rest else r ∷ rest

abbrev pub is_empty_text : String → Bool
is_empty_text String.[] = true
is_empty_text (String.◌∷◌ c s) = false

-- The rows that the statement selects, claimed.
unfoldable pub claim_rows :
    (String → String → Bool)
    → (String → Bool)
    → String
    → String
    → ℕ
    → ℕ
    → ℕ
    → Table
    → Outcome Table × Table
unfolding may_claim candidates first_rows claim claim_chosen
claim_rows collate held tenant worker now lease limit table =
    let chosen = first_rows limit (candidates collate (may_claim held tenant now) table) in
    (
      done (map (claim worker now lease) chosen),
      claim_chosen (may_claim held tenant now) (claim worker now lease) (map (λ r. r.id) chosen)
          table,
    )

-- A lease that is not positive counts as zero here, and so does the limit.
unfoldable pub is_bad_claim : String → ℕ → ℕ → Bool
is_bad_claim worker lease limit = is_empty_text worker || lease == 0 || limit == 0

unfoldable pub claim_due :
    (String → String → Bool)
    → (String → Bool)
    → String
    → String
    → ℕ
    → ℕ
    → ℕ
    → Table
    → Outcome Table × Table
unfolding claim_rows is_bad_claim
claim_due collate held tenant worker now lease limit table =
    if is_bad_claim worker lease limit
    then (raised OutboxError.value_error, table)
    else claim_rows collate held tenant worker now lease limit table

-- `lease_is_current`, of the columns that it reads.
unfoldable pub is_active : OutboxStatus → Option String → ℕ → Option ℕ → String → ℕ → ℕ → Bool
is_active OutboxStatus.processing (some w) count (some until) worker attempt now =
    str_eq w worker && count == attempt && ltb now until
is_active _ holder count until worker attempt now = false

-- `_assert_active_lease`
unfoldable pub has_active_lease : OutboxItem → String → ℕ → ℕ → Bool
unfolding is_active
has_active_lease r worker attempt now =
    is_active r.status r.locked_by r.attempt_count r.locked_until worker attempt now

-- `text[:n]`
unfoldable pub first_characters : ℕ → String → String
first_characters zero s = String.[]
first_characters (suc n) String.[] = String.[]
first_characters (suc n) (String.◌∷◌ c s) = String.◌∷◌ c (first_characters n s)

unfoldable pub failed_row : String → ℕ → ℕ → OutboxItem → OutboxItem
unfolding strip first_characters
failed_row error next now r = record r {
  status = OutboxStatus.failed;
  last_error = some (first_characters 2000 (strip error));
  next_attempt_at = some next;
  locked_by = none;
  locked_until = none;
  updated_at = now;
}

unfoldable pub delivered_row : String → ℕ → OutboxItem → OutboxItem
delivered_row ack at r = record r {
  status = OutboxStatus.delivered;
  external_delivery_id = some ack;
  delivered_at = some at;
  updated_at = at;
  next_attempt_at = none;
  last_error = none;
  locked_by = none;
  locked_until = none;
}

-- Writes the row in place of the one that was found, when the lease on that one is active.
unfoldable pub with_lease :
    String → String → String → ℕ → ℕ → OutboxItem → OutboxItem → Table → Outcome OutboxItem × Table
unfolding has_active_lease set_item
with_lease tenant id worker attempt now r new table =
    if has_active_lease r worker attempt now
    then (done new, set_item tenant id new table)
    else (raised OutboxError.stale_or_foreign_lease, table)

-- `mark_failed` of the row that was found.
unfoldable pub fail_found :
    String
    → String
    → String
    → ℕ
    → String
    → ℕ
    → ℕ
    → Option OutboxItem
    → Table
    → Outcome OutboxItem × Table
unfolding with_lease failed_row
fail_found tenant id worker attempt error next now none table =
    (raised OutboxError.record_not_found, table)
fail_found tenant id worker attempt error next now (some r) table =
    with_lease tenant id worker attempt now r (failed_row error next now r) table

unfoldable pub mark_failed :
    String → String → String → ℕ → String → ℕ → ℕ → Table → Outcome OutboxItem × Table
unfolding find_item fail_found
mark_failed tenant id worker attempt error next now table =
    fail_found tenant id worker attempt error next now (find_item tenant id table) table

-- A delivery that is acknowledged again.
unfoldable pub repeat_ack : OutboxItem → String → Table → Outcome OutboxItem × Table
repeat_ack r ack table =
    if elim r.external_delivery_id [ none ↦ false | some known ↦ str_eq known ack ]
    then (done r, table)
    else (raised OutboxError.different_ack, table)

abbrev pub is_delivered : OutboxStatus → Bool
is_delivered OutboxStatus.delivered = true
is_delivered _ = false

-- `mark_delivered` of the row that was found.
unfoldable pub deliver_found :
    String
    → String
    → String
    → ℕ
    → String
    → ℕ
    → Option OutboxItem
    → Table
    → Outcome OutboxItem × Table
unfolding with_lease delivered_row repeat_ack
deliver_found tenant id worker attempt ack at none table =
    (raised OutboxError.record_not_found, table)
deliver_found tenant id worker attempt ack at (some r) table =
    if is_delivered r.status
    then repeat_ack r ack table
    else with_lease tenant id worker attempt at r (delivered_row ack at r) table

unfoldable pub mark_delivered :
    String → String → String → ℕ → String → ℕ → Table → Outcome OutboxItem × Table
unfolding find_item deliver_found
mark_delivered tenant id worker attempt ack at table =
    deliver_found tenant id worker attempt ack at (find_item tenant id table) table
