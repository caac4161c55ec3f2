-- ===== src/QuoteRules/Amounts.antt =====
-- modules/quotes/rules.py: the integer calculations and the expiration check.
use hackathon_open_ai.Prelude.{ℕ, suc, pos, ◌+◌, leb, if◌then◌else◌}
use hackathon_open_ai.Value.{Value, Moment}
use hackathon_open_ai.Shared.{
  Checked, pass, fail, ExecutionCode, ◌>>=◌, non_negative_integer, half_up,
}

unfoldable pub calculate_quote_total : Value → Value → Value → Checked ℕ
unfolding non_negative_integer
calculate_quote_total subtotal delivery other = non_negative_integer subtotal >>= λ s.
    non_negative_integer delivery >>= λ d. non_negative_integer other >>= λ o. pass (s + d + o)

-- `people_count` is an `int` above zero.
unfoldable pub require_people : Value → Checked ℕ
require_people (Value.int (pos (suc n))) = pass (suc n)
require_people _ = fail ExecutionCode.validation_error

-- The total is known to be an integer that is not negative.
unfoldable pub calculate_price_per_person : ℕ → Value → Checked ℕ
unfolding require_people half_up
calculate_price_per_person total people = require_people people >>= λ n. pass (half_up total n)

unfoldable pub validate_quote_expiration : Value → Value → Checked (Unit {0})
validate_quote_expiration (Value.datetime (Moment.aware until))
      (Value.datetime (Moment.aware now)) =
    if leb until now then fail ExecutionCode.quote_expired else pass tt
validate_quote_expiration _ _ = fail ExecutionCode.validation_error
