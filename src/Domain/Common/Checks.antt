-- ===== src/Domain/Common/Checks.antt =====
-- domain/common/values.py: what a validation that returned has found.
use hackathon_open_ai.Domain.Common.Values.{
  require_positive_int, require_prefixed_id, require_non_empty, is_text, is_number, compare_digest,
}
use hackathon_open_ai.Domain.Common.Errors.{ok}
use hackathon_open_ai.Prelude.{ℕ, pos, String, true, Option, none, some, ◌≡◌, arith, str_eq_iff}
use hackathon_open_ai.Value.{Value}

pub require_prefixed_id-ok :
    (v : Value) (field prefix s : String)
    → require_prefixed_id v field prefix ≡ ok s
    → v ≡ Value.text s
unfolding require_prefixed_id
require_prefixed_id-ok v field prefix s h = ground arith

pub require_non_empty-ok :
    (v : Value) (field s : String) → require_non_empty v field ≡ ok s → v ≡ Value.text s
unfolding require_non_empty
require_non_empty-ok v field s h = ground arith

pub require_positive_int-ok :
    (v : Value) (field : String) (n : ℕ)
    → require_positive_int v field ≡ ok n
    → v ≡ Value.int (pos n)
unfolding require_positive_int
require_positive_int-ok v field n h = ground arith

pub is_text-eq : (o : Option String) (s : String) → is_text o s ≡ true → o ≡ some s
unfolding is_text
is_text-eq none s h = cc
is_text-eq (some t) s h = ground (arith, str_eq_iff t s)

pub is_number-eq : (o : Option ℕ) (n : ℕ) → is_number o n ≡ true → o ≡ some n
unfolding is_number
is_number-eq o n h = ground arith

pub compare_digest-eq : (s t : String) → compare_digest s t ≡ ok true → s ≡ t
unfolding compare_digest
compare_digest-eq s t h = ground (arith, str_eq_iff s t)
