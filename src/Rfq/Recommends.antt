-- ===== src/Rfq/Recommends.antt =====
-- modules/rfq/service.py: what `compare` recommends.
use hackathon_open_ai.Rfq.Actions.{
  break, ◌>>=◌, continue, Action, or_break, returned, refuse, pure, checked, Session,
}
use hackathon_open_ai.Value.{Value}
use hackathon_open_ai.Rfq.Store.{Store, RoundRecord, Payload, Result}
use hackathon_open_ai.Prelude.{
  Option, arith, [], pair_eq, string_eq, ==_iff, map, inr, subst, ◌==◌, ap, inl, Bool-cases, refl,
  ℕ, true, some, none, ◌∷◌, All, ◌≡◌, List, get, String,
}
use hackathon_open_ai.Rfq.Returns.{gives_rules, Gives-eq, Gives-guard, Gives}
use hackathon_open_ai.Rfq.Attributes.{policy_fields, quote_fields}
use hackathon_open_ai.Scoring.Eligibility.{eligible_come_first, EligibleFirst}
use hackathon_open_ai.Scoring.Ranking.{score_quotes}
use hackathon_open_ai.Rfq.Remembers.{once-runs}
use hackathon_open_ai.Shared.{fail, pass, Checked}
use hackathon_open_ai.Rfq.Contracts.{Quote, Comparison, CompareQuotes}
use hackathon_open_ai.Rfq.Replay.{operation_of}
use hackathon_open_ai.Scoring.Score.{ScoreResult}
use hackathon_open_ai.Rfq.Comparisons.{
  new_comparison, first_eligible, compare_collected, compare_quotes,
}
use hackathon_open_ai.Rfq.Environment.{Environment}

-- What is eligible first in a list, if anything is, has what all in the list have.
first_eligible-All :
    (P : ScoreResult → Type 0) (cs : List ScoreResult) (b : ScoreResult)
    → All P cs
    → first_eligible cs ≡ some b
    → P b × (b.eligible ≡ true)
unfolding first_eligible
first_eligible-All P [] b all h = absurd cc
first_eligible-All P (c ∷ cs) b (p, ps) h = elim (Bool-cases c.eligible) [
  | inl e ↦
      let same : c ≡ b = ground arith in (subst P same p, subst (λ x. x.eligible ≡ true) same e)
  | inr e ↦ first_eligible-All P cs b ps (ground arith)
]

-- In a ranking the first eligible candidate is the first of all.
first_eligible-head :
    (cs : List ScoreResult) (b : ScoreResult)
    → EligibleFirst cs
    → first_eligible cs ≡ some b
    → (others : List ScoreResult) × ((cs ≡ b ∷ others) × (b.eligible ≡ true))
unfolding first_eligible
first_eligible-head [] b ranked h = absurd cc
first_eligible-head (c ∷ cs) b (before, _) h = elim (Bool-cases c.eligible) [
  | inl e ↦
      let same : c ≡ b = ground arith in
      (cs, (ap (λ x. x ∷ cs) same, subst (λ x. x.eligible ≡ true) same e))
  | inr e ↦
      let (first, eligible) =
        first_eligible-All (λ s. s.eligible ≡ true → c.eligible ≡ true) cs b before
          (ground arith) in
      absurd (cc (first eligible, e))
]

-- The comparison that is returned recommends the first candidate of its ranking, which is eligible.
pub record Recommends (command : CompareQuotes) (r : Result) : Type 0 where
  pub comparison : Comparison
  pub best : ScoreResult
  pub others : List ScoreResult
  pub answer : r ≡ Result.comparison comparison
  pub ranking : comparison.candidates ≡ best ∷ others
  pub eligible : best.eligible ≡ true
  pub recommended :
      comparison.recommended_quote
      ≡ some (record { quote_id = best.quote_id; quote_version = best.quote_version })
  pub request : comparison.procurement_request_id ≡ command.procurement_request_id
  pub version : comparison.quote_collection_version ≡ command.expected_quote_collection_version

module _ {κ} {W A B : Type 0} {Q : B → Store → Type κ} where
  Gives-checked :
      (c : Checked A) (k : A → Action W B) (s : Session W)
      → ((a : A) → c ≡ pass a → Gives Q (k a s))
      → Gives Q ((checked c >>= k) s)
  unfolding ◌>>=◌ continue checked pure refuse
  Gives-checked (pass a) k s h = h a refl
  Gives-checked (fail e) k s h = record { here = tt }

  Gives-or_break :
      (o : Option A) (k : A → Action W B) (s : Session W)
      → ((a : A) → o ≡ some a → Gives Q (k a s))
      → Gives Q ((or_break o >>= k) s)
  unfolding ◌>>=◌ continue or_break pure break
  Gives-or_break (some a) k s h = h a refl
  Gives-or_break none k s h = record { here = tt }

new_comparison-Recommends :
    (str : Value → String) (hash : Payload → String) (c : CompareQuotes) (round : RoundRecord)
    (quotes : List Quote) (candidates : List ScoreResult) (selected : ScoreResult) (id : String)
    (time : ℕ)
    → round.collection_version == c.expected_quote_collection_version ≡ true
    → score_quotes str (map quote_fields quotes) (policy_fields round.policy) ≡ pass candidates
    → first_eligible candidates ≡ some selected
    → Recommends c
        (Result.comparison (new_comparison hash c round quotes candidates selected id time))
unfolding new_comparison
new_comparison-Recommends str hash c round quotes candidates selected id time version scored h =
    let (others, (shape, eligible)) =
      first_eligible-head candidates selected (eligible_come_first str _ _ candidates scored) h in
    record {
      comparison = new_comparison hash c round quotes candidates selected id time;
      best = selected;
      others = others;
      answer = refl;
      ranking = shape;
      eligible = eligible;
      recommended = refl;
      request = refl;
      version = (==_iff _ _).0 version;
    }

module _ {W : Type 0} (env : Environment W) where
  compare_collected-Gives :
      (c : CompareQuotes) (s : Session W)
      → Gives (λ r _. Recommends c r) (compare_collected env c s)
  unfolding compare_collected
  compare_collected-Gives c s =
      search
        (
          Gives-guard,
          Gives-checked,
          Gives-or_break,
          gives_rules,
          new_comparison-Recommends env.str env.hash c,
        )
        depth 40 fits 20000

  -- A call of `compare` that returns, for a key that is not remembered, returns a comparison of the
  -- expected version of the quotes, for the request of the command. It recommends the first candidate
  -- of its ranking, and that candidate is eligible.
  pub compare_quotes-Recommends :
      (c : CompareQuotes) (s : Session W) (r : Result)
      → get s.store.idempotency
          (operation_of c.context.tenant_id "quotes.compare", c.context.idempotency_key)
        ≡ none
      → (compare_quotes env c s).0 ≡ returned r
      → Recommends c r
  unfolding compare_quotes
  compare_quotes-Recommends c s r fresh h =
      Gives-eq (λ a _. Recommends c a) (compare_collected env c s) r (compare_collected-Gives c s)
        (once-runs env _ _ (Payload.comparing c) (compare_collected env c) s r fresh h)
