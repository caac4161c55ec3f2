-- ===== src/Scoring/Criteria.antt =====
-- modules/comparison/scoring.py: `_normalized_score`, in basis points. The reason is a text that is
-- left out.
use hackathon_open_ai.Prelude.{
  ℕ, pos, ◌+◌, ◌-◌, ◌*◌, String, Bool, true, false, [], ◌∷◌, ◌==◌, min, if◌then◌else◌, str_append,
}
use hackathon_open_ai.Value.{Value, Values, Fields}
use hackathon_open_ai.Shared.{
  Checked, pass, ◌>>=◌, value, value_or, non_negative_integer, is_true, spells_any, reads, half_up,
}
use hackathon_open_ai.Scoring.Weights.{bounded_integer}

abbrev pub max_basis_points : ℕ
max_basis_points = 10000

unfoldable pub status_score : Value → ℕ
unfolding reads
status_score status =
    if reads status "confirmed" then 10000 else if reads status "partial" then 5000 else 0

abbrev pub all_or_nothing : Bool → ℕ
all_or_nothing b = if b then 10000 else 0

unfoldable pub price_score : ℕ → ℕ → ℕ
unfolding half_up
price_score total lowest =
    if total == 0 then all_or_nothing (lowest == 0) else min 10000 (half_up (lowest * 10000) total)

-- Linear decay over 24 hours: a difference below zero counts as zero.
unfoldable pub response_score : ℕ → ℕ
unfolding half_up
response_score minutes = 10000 - half_up (minutes * 10000) 1440

unfoldable pub restrictions_score : Fields → ℕ
unfolding status_score half_up value_or
restrictions_score quote =
    half_up
      (status_score (value_or quote "vegetarian_status" (Value.text "unknown"))
        + status_score (value_or quote "vegan_status" (Value.text "unknown"))
        + status_score (value_or quote "gluten_free_status" (Value.text "unknown")))
      3

-- `isinstance(items, (list, tuple)) and items`
unfoldable pub has_items : Value → Bool
has_items (Value.list (Values.cons v vs)) = true
has_items _ = false

unfoldable pub stars : Fields → String → Checked ℕ
unfolding bounded_integer value_or
stars quote name =
    bounded_integer (value_or quote name (Value.int (pos 0))) 0 5 >>= λ n. pass (n * 2000)

unfoldable pub price_criterion : Fields → ℕ → Checked ℕ
unfolding value non_negative_integer price_score
price_criterion quote lowest = value quote "total_cents" >>= λ v.
    non_negative_integer v >>= λ total. pass (price_score total lowest)

unfoldable pub response_criterion : Fields → Checked ℕ
unfolding value_or non_negative_integer response_score
response_criterion quote =
    non_negative_integer (value_or quote "response_time_minutes" (Value.int (pos 0))) >>= λ minutes.
    pass (response_score minutes)

-- The score of a criterion that the quote does not give itself.
unfoldable pub evaluate : String → Fields → ℕ → Checked ℕ
unfolding spells_any price_criterion restrictions_score has_items response_criterion stars value_or
evaluate criterion quote lowest =
    if spells_any criterion ("price" ∷ "preco" ∷ "preço" ∷ "total_price" ∷ [])
    then price_criterion quote lowest
    else if spells_any criterion ("restrictions" ∷ "restricoes" ∷ "restrições" ∷ [])
    then pass (restrictions_score quote)
    else if spells_any criterion ("adequacy" ∷ "adequacao" ∷ "adequação" ∷ "fit" ∷ [])
    then pass (all_or_nothing (has_items (value_or quote "included_items" (Value.list Values.nil))))
    else if spells_any criterion ("logistics" ∷ "logistica" ∷ "logística" ∷ [])
    then pass
        (all_or_nothing (is_true (value_or quote "availability_confirmed" (Value.bool false))))
    else if spells_any criterion ("response" ∷ "response_time" ∷ "resposta" ∷ [])
    then response_criterion quote
    else if spells_any criterion ("sustainability" ∷ "sustentabilidade" ∷ [])
    then stars quote "sustainability_score"
    else if spells_any criterion ("documentation" ∷ "documentacao" ∷ "documentação" ∷ [])
    then pass (all_or_nothing (is_true (value_or quote "invoice_available" Value.null)))
    else if spells_any criterion ("history" ∷ "historico" ∷ "histórico" ∷ [])
    then stars quote "history_score"
    else pass 0

-- An explicit score is taken before the criterion is looked at.
unfoldable pub override_or : Value → Checked ℕ → Checked ℕ
unfolding bounded_integer
override_or Value.null score = score
override_or v score = bounded_integer v 0 max_basis_points

unfoldable pub normalized_score : String → Fields → ℕ → Checked ℕ
unfolding override_or evaluate value_or
normalized_score criterion quote lowest =
    override_or (value_or quote (str_append criterion "_score_basis_points") Value.null)
      (evaluate criterion quote lowest)
