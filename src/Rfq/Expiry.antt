-- ===== src/Rfq/Expiry.antt =====
-- modules/rfq/service.py: `_expire_quotes` and `get_quote_status`.
use hackathon_open_ai.Rfq.Actions.{each, Action, pure, reads, or_break, ◌>>=◌, ◌>>◌}
use hackathon_open_ai.Prelude.{
  ℕ, zero, suc, ◌+◌, ◌-◌, String, Bool, true, false, ◌&&◌, ◌||◌, some, List, [], ◌∷◌, ◌++◌, leb,
  if◌then◌else◌, length, string_eq, get,
}
use hackathon_open_ai.Value.{Fields}
use hackathon_open_ai.QuoteRules.Presence.{distinct}
use hackathon_open_ai.Rfq.Contracts.{
  Quote, QuoteStatus, quote_text, is_final, is_unclear, is_declined, QuoteCollection,
}
use hackathon_open_ai.Rfq.Attributes.{number}
use hackathon_open_ai.Rfq.Store.{RoundRecord}
use hackathon_open_ai.Rfq.Environment.{Environment}
use hackathon_open_ai.Rfq.Lookups.{the_round, put_round, put_quote, quotes_for_round}
use hackathon_open_ai.Rfq.Trail.{now, audit, Entry, system_context}

-- `quote.status in {FINAL, NEEDS_CLARIFICATION}`
unfoldable pub can_expire : QuoteStatus → Bool
unfolding is_final is_unclear
can_expire s = is_final s || is_unclear s

unfoldable pub expired : Quote → Quote
unfolding distinct
expired q = record q {
  status = QuoteStatus.expired;
  eligible = false;
  validation_errors = distinct (q.validation_errors ++ "QUOTE_EXPIRED" ∷ []);
}

unfoldable pub quote_expired : Quote → Entry
unfolding quote_text
quote_expired q = record {
  event_type = "QUOTE_EXPIRED";
  aggregate_type = "quote";
  aggregate_id = q.quote_id;
  payload = Fields.field "quote_version" (number q.quote_version) Fields.end;
  previous_state = some (quote_text q.status);
  new_state = some (quote_text QuoteStatus.expired);
  origin = "system_clock";
}

unfoldable pub sum : List ℕ → ℕ
sum [] = zero
sum (n ∷ ns) = n + sum ns

module _ {W : Type 0} (env : Environment W) where
  -- The record of a quote takes the changed quote; its hash stays.
  unfoldable pub replace_quote : Quote → Action W (Unit {0})
  unfolding ◌>>=◌ reads or_break get put_quote
  replace_quote q = do
    found ← reads (λ s. get s.quotes q.quote_id)
    entry ← or_break found
    put_quote q.quote_id (record entry { dto = q })

  unfoldable pub expire : String → Quote → Action W ℕ
  unfolding ◌>>=◌ ◌>>◌ pure replace_quote expired audit quote_expired system_context
  expire request q = do
    replace_quote (expired q)
    context ← system_context env request
    audit env (quote_expired q) context
    pure 1

  unfoldable pub expire_if : String → Quote → Bool → Action W ℕ
  unfolding pure expire
  expire_if request q true = expire request q
  expire_if request q false = pure 0

  -- The clock is read only for a quote that can expire.
  unfoldable pub expire_open : String → Quote → Bool → Action W ℕ
  unfolding ◌>>=◌ pure now expire_if
  expire_open request q false = pure 0
  expire_open request q true = do
    time ← now env
    expire_if request q (leb q.submission.valid_until time)

  unfoldable pub count_up : String → RoundRecord → ℕ → Action W RoundRecord
  unfolding ◌>>◌ pure put_round
  count_up id round zero = pure round
  count_up id round (suc n) =
      let counted = record round { collection_version = round.collection_version + suc n } in
      put_round id counted >> pure counted

  -- `_expire_quotes`, with the record of the round as it is afterwards.
  unfoldable pub expire_quotes : String → RoundRecord → Action W RoundRecord
  unfolding ◌>>=◌ quotes_for_round each expire_open can_expire sum count_up
  expire_quotes id round = do
    quotes ← quotes_for_round round.dto.rfq_round_id
    counts ← each (λ q. expire_open round.dto.procurement_request_id q (can_expire q.status)) quotes
    count_up id round (sum counts)

unfoldable pub count_if : (Quote → Bool) → List Quote → ℕ
count_if p [] = zero
count_if p (q ∷ qs) = let rest = count_if p qs in if p q then suc rest else rest

unfoldable pub is_valid : Quote → Bool
unfolding is_final
is_valid q = is_final q.status && q.eligible

-- `max(0, expected - submitted)` is subtraction on ℕ.
unfoldable pub collection_of : String → RoundRecord → List Quote → ℕ → QuoteCollection
unfolding count_if is_valid is_unclear is_declined
collection_of id round quotes time = record {
  rfq_round_id = id;
  collection_version = round.collection_version;
  response_deadline = round.dto.response_deadline;
  expected_count = length round.recipient_ids;
  submitted_count = length quotes;
  valid_count = count_if is_valid quotes;
  needs_clarification_count = count_if (λ q. is_unclear q.status) quotes;
  declined_count = count_if (λ q. is_declined q.status) quotes;
  pending_count = length round.recipient_ids - length quotes;
  ready_for_comparison = leb round.policy.minimum_valid_quotes (count_if is_valid quotes);
  updated_at = time;
}

module _ {W : Type 0} (env : Environment W) where
  unfoldable pub get_quote_status : String → Action W QuoteCollection
  unfolding ◌>>=◌ pure the_round expire_quotes quotes_for_round now collection_of
  get_quote_status id = do
    found ← the_round id
    round ← expire_quotes env id found
    quotes ← quotes_for_round id
    time ← now env
    pure (collection_of id round quotes time)
