-- ===== src/Rfq/Comparisons.antt =====
-- modules/rfq/service.py: `compare`.
use Prim.Native.Nat.{Ordering}
use Prim.Native.String.{compare}
use hackathon_open_ai.Prelude.{
  ℕ, String, Bool, true, false, Option, none, some, List, [], ◌∷◌, map, leb, ◌==◌, if◌then◌else◌,
  str_eq, string_eq,
}
use hackathon_open_ai.Value.{Value, Fields}
use hackathon_open_ai.Shared.{ExecutionCode}
use hackathon_open_ai.Scoring.Score.{ScoreResult}
use hackathon_open_ai.Scoring.Ranking.{score_quotes}
use hackathon_open_ai.Rfq.Contracts.{
  CompareQuotes, Comparison, ComparisonStatus, comparison_text, Quote, QuoteRef,
}
use hackathon_open_ai.Rfq.Attributes.{quote_fields, policy_fields}
use hackathon_open_ai.Rfq.Store.{RoundRecord, Result, Payload}
use hackathon_open_ai.Rfq.Environment.{Environment}
use hackathon_open_ai.Rfq.Actions.{Action, pure, guard, or_break, checked, ◌>>=◌, ◌>>◌}
use hackathon_open_ai.Rfq.Lookups.{the_round, put_comparison, put_status, quotes_for_round}
use hackathon_open_ai.Rfq.Trail.{now, new_id, audit}
use hackathon_open_ai.Rfq.Replay.{once, operation_of}
use hackathon_open_ai.Rfq.Expiry.{expire_quotes, count_if}

unfoldable pub ref_of : Quote → QuoteRef
ref_of q = record { quote_id = q.quote_id; quote_version = q.quote_version }

-- The order of pairs `(quote_id, quote_version)`.
unfoldable pub ref_leb : QuoteRef → QuoteRef → Bool
ref_leb a b = elim (compare a.quote_id b.quote_id) [
  | Ordering.lt ↦ true
  | Ordering.eq ↦ leb a.quote_version b.quote_version
  | Ordering.gt ↦ false
]

unfoldable pub insert_ref : QuoteRef → List QuoteRef → List QuoteRef
unfolding ref_leb
insert_ref a [] = a ∷ []
insert_ref a (b ∷ bs) = let rest = insert_ref a bs in if ref_leb a b then a ∷ b ∷ bs else b ∷ rest

-- `sorted((quote.quote_id, quote.quote_version) for quote in quotes)`
unfoldable pub sorted_refs : List Quote → List QuoteRef
unfolding insert_ref ref_of
sorted_refs [] = []
sorted_refs (q ∷ qs) = insert_ref (ref_of q) (sorted_refs qs)

-- `next(candidate for candidate in candidates if candidate.eligible)`
unfoldable pub first_eligible : List ScoreResult → Option ScoreResult
first_eligible [] = none
first_eligible (c ∷ cs) = let rest = first_eligible cs in if c.eligible then some c else rest

unfoldable pub new_comparison :
    (Payload → String)
    → CompareQuotes
    → RoundRecord
    → List Quote
    → List ScoreResult
    → ScoreResult
    → String
    → ℕ
    → Comparison
unfolding sorted_refs
new_comparison hash command round quotes candidates selected id time = record {
  comparison_id = id;
  comparison_version = 1;
  procurement_request_id = command.procurement_request_id;
  rfq_round_id = command.rfq_round_id;
  quote_collection_version = round.collection_version;
  status = ComparisonStatus.ready;
  candidates = candidates;
  recommended_quote =
      some (record { quote_id = selected.quote_id; quote_version = selected.quote_version });
  input_hash = hash (Payload.quotes (sorted_refs quotes));
  created_at = time;
  idempotent_replay = false;
}

module _ {W : Type 0} (env : Environment W) where
  -- `compare` after the replay.
  unfoldable pub compare_collected : CompareQuotes → Action W Result
  unfolding ◌>>=◌ ◌>>◌ pure the_round guard expire_quotes quotes_for_round count_if checked
      score_quotes quote_fields policy_fields new_id or_break first_eligible now new_comparison
      put_comparison put_status audit comparison_text
  compare_collected command = do
    found ← the_round command.rfq_round_id
    guard (str_eq found.tenant_id command.context.tenant_id) ExecutionCode.policy_denied
    round ← expire_quotes env command.rfq_round_id found
    guard (str_eq round.dto.procurement_request_id command.procurement_request_id)
        ExecutionCode.validation_error
    guard (round.collection_version == command.expected_quote_collection_version)
        ExecutionCode.stale_version
    quotes ← quotes_for_round command.rfq_round_id
    guard (leb round.policy.minimum_valid_quotes (count_if (λ q. q.eligible) quotes))
        ExecutionCode.invalid_state
    candidates ←
        checked (score_quotes env.str (map quote_fields quotes) (policy_fields round.policy))
    id ← new_id "comparison"
    selected ← or_break (first_eligible candidates)
    time ← now env
    let dto = new_comparison env.hash command round quotes candidates selected id time
    put_comparison id dto
    put_status command.procurement_request_id "AWAITING_APPROVAL"
    audit env
        (record {
          event_type = "QUOTE_COMPARISON_CREATED";
          aggregate_type = "comparison";
          aggregate_id = id;
          payload = Fields.field "recommended_quote_id" (Value.text selected.quote_id) Fields.end;
          previous_state = none;
          new_state = some (comparison_text dto.status);
          origin = "execution_command";
        })
        command.context
    pure (Result.comparison dto)

  unfoldable pub compare_quotes : CompareQuotes → Action W Result
  unfolding once operation_of compare_collected
  compare_quotes command =
      once env (operation_of command.context.tenant_id "quotes.compare")
        command.context.idempotency_key (Payload.comparing command) (compare_collected command)
