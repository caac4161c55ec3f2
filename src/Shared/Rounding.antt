-- ===== src/Shared/Rounding.antt =====
-- `_divide_half_up` of modules/comparison/scoring.py: division rounded half up, and what it means.
use hackathon_open_ai.Prelude.{ℕ, ◌+◌, ◌*◌, ◌/◌, ◌%◌, ◌≤◌, ◌<◌, ◌≡◌, leb, if◌then◌else◌, arith}
use native.Mathlib.Nat.{mod-lt, div-add-mod}

-- `quotient + int(remainder * 2 >= denominator)`. Every caller divides by a number above zero, so
-- the error of `_divide_half_up` is left out.
unfoldable pub half_up : ℕ → ℕ → ℕ
half_up numerator denominator =
    numerator / denominator + (if leb denominator (numerator % denominator * 2) then 1 else 0)

nearest :
    (q r b a : ℕ)
    → b * q + r ≡ a
    → r < b
    → (2 * ((q + (if leb b (r * 2) then 1 else 0)) * b) ≤ 2 * a + b)
      × (2 * a < 2 * ((q + (if leb b (r * 2) then 1 else 0)) * b) + b)
nearest q r b a e l = ground arith

-- The result is the integer nearest to the quotient, the larger one of two.
pub half_up_nearest :
    (a b : ℕ) → 0 < b → (2 * (half_up a b * b) ≤ 2 * a + b) × (2 * a < 2 * (half_up a b * b) + b)
unfolding half_up
half_up_nearest a b h = nearest (a / b) (a % b) b a (div-add-mod a b) (mod-lt a h)
