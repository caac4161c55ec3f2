-- ===== src/Domain/Common/Values.antt =====
-- domain/common/values.py: validated values. A parameter is any Python value; what comes back is
-- the value at its static type.
use Prim.Native.Char.{code}
use hackathon_open_ai.Prelude.{
  ltb, ◌&&◌, str_eq, Option, some, none, List, [], ◌∷◌, Bool, true, false, ℕ, suc, pos, String, not,
  ◌||◌, ◌==◌, if◌then◌else◌, is_blank, starts_with, count, str_append,
}
use hackathon_open_ai.Contracts.{ErrorCode}
use hackathon_open_ai.Value.{Value, Values, Moment}
use hackathon_open_ai.Domain.Common.Errors.{type_error, ◌>>=◌, Result, ok, err, domain_error}

pub record Money : Type 0 where
  pub cents : ℕ
  pub currency : String

-- `Money(cents, currency)` with its `__post_init__`.
unfoldable pub money : Value → String → Result Money
money (Value.int (pos cents)) currency =
    if is_blank currency
    then err (domain_error ErrorCode.validation_error "Money currency is required")
    else ok (record { cents = cents; currency = currency })
money _ currency =
    err (domain_error ErrorCode.validation_error "Money cents must be a non-negative integer")

unfoldable pub require_non_empty : Value → String → Result String
require_non_empty (Value.text value) field =
    if is_blank value
    then err (domain_error ErrorCode.validation_error (str_append field " is required"))
    else ok value
require_non_empty _ field =
    err (domain_error ErrorCode.validation_error (str_append field " is required"))

unfoldable pub require_positive_int : Value → String → Result ℕ
require_positive_int (Value.int (pos (suc n))) field = ok (suc n)
require_positive_int _ field =
    err (domain_error ErrorCode.validation_error (str_append field " must be a positive integer"))

-- The tests behind `require_non_empty` in `require_prefixed_id`.
unfoldable pub check_prefix : String → String → String → Result String
check_prefix normalized field prefix =
    if not (starts_with normalized prefix) || count normalized == count prefix
    then err (
        domain_error ErrorCode.validation_error
          (str_append field (str_append " must start with " prefix)))
    else ok normalized

unfoldable pub require_prefixed_id : Value → String → String → Result String
unfolding require_non_empty check_prefix
require_prefixed_id value field prefix = elim (require_non_empty value field) [
  | ok normalized ↦ check_prefix normalized field prefix
  | err e ↦ err e
]

-- The instant in UTC.
unfoldable pub require_utc : Value → String → Result ℕ
require_utc (Value.datetime (Moment.aware instant)) field = ok instant
require_utc _ field =
    err (domain_error ErrorCode.validation_error (str_append field " must be timezone-aware"))

is_ascii : String → Bool
is_ascii String.[] = true
is_ascii (String.◌∷◌ c s) = ltb (code c) 128 && is_ascii s

-- `hmac.compare_digest` on two texts.
unfoldable pub compare_digest : String → String → Result Bool
unfolding is_ascii
compare_digest s t = if is_ascii s && is_ascii t then ok (str_eq s t) else err type_error

-- A comparison with an attribute that may still be `None`.
unfoldable pub is_text : Option String → String → Bool
is_text none s = false
is_text (some t) s = str_eq t s

unfoldable pub is_number : Option ℕ → ℕ → Bool
is_number none n = false
is_number (some m) n = m == n

-- `{require_non_empty(item, field=field) for item in items}`, with the items in order.
unfoldable pub require_each : List Value → String → Result (List String)
unfolding require_non_empty
require_each [] field = ok []
require_each (v ∷ vs) field = do
  let rest = require_each vs field
  s ← require_non_empty v field
  ss ← rest
  ok (s ∷ ss)

-- A list of texts as a value.
unfoldable pub texts : List String → Values
texts [] = Values.nil
texts (s ∷ ss) = Values.cons (Value.text s) (texts ss)
