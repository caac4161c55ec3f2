-- ===== src/Prelude/Sets.antt =====
-- Python's `set` and `frozenset` of texts, kept as their sorted list, and `sorted`.
use mathlib.Core.Bool.{Bool, true, false, not, ◌||◌}
use Prim.Native.Nat.{Ordering}
use Prim.Native.String.{String, compare}
use text.Mathlib.Text.{◌==◌}
use text.Mathlib.TextEquality.{eq_iff}
use mathlib.Core.Path.{◌≡◌, refl}
use mathlib.Core.Logic.{◌≢◌}
use mathlib.Core.List.{List, [], ◌∷◌}
use native.Mathlib.Omega.{arith}
use hackathon_open_ai.Prelude.Tests.{if◌then◌else◌}
use hackathon_open_ai.Prelude.Text.{member}
use hackathon_open_ai.Prelude.Lists.{All}

-- One text put into a sorted list without repetition.
unfoldable pub add_sorted : String → List String → List String
add_sorted s [] = s ∷ []
add_sorted s (t ∷ ts) =
    let rest = add_sorted s ts in
    elim (compare s t) [ Ordering.lt ↦ s ∷ t ∷ ts | Ordering.eq ↦ t ∷ ts | Ordering.gt ↦ t ∷ rest ]

-- `frozenset(items)`, and `sorted({...})`.
unfoldable pub sorted_set : List String → List String
unfolding add_sorted
sorted_set [] = []
sorted_set (s ∷ ss) = add_sorted s (sorted_set ss)

-- `sorted(left - right)` of a sorted `left`.
unfoldable pub difference : List String → List String → List String
unfolding member
difference [] right = []
difference (s ∷ ss) right =
    let rest = difference ss right in if member s right then rest else s ∷ rest

pub difference-nil :
    (left right : List String) → difference left right ≡ [] → All (λ s. member s right ≡ true) left
unfolding difference
difference-nil [] right h = tt
difference-nil (s ∷ ss) right h = ground (arith, difference-nil ss right)

add_sorted-ne-nil : (s : String) (ts : List String) → add_sorted s ts ≢ []
unfolding add_sorted
add_sorted-ne-nil s [] h = cc
add_sorted-ne-nil s (t ∷ ts) h = ground arith

member-add_sorted :
    (s t : String) (ts : List String) → member t (add_sorted s ts) ≡ (t == s || member t ts)
unfolding add_sorted member
member-add_sorted s t [] = ground arith
member-add_sorted s t (x ∷ xs) =
    ground (arith, member-add_sorted s t xs, eq_iff s x, eq_iff t s, eq_iff t x)

-- A set has the items that it was made of.
pub member-sorted_set : (t : String) (ss : List String) → member t (sorted_set ss) ≡ member t ss
unfolding sorted_set member
member-sorted_set t [] = refl
member-sorted_set t (s ∷ ss) =
    ground (arith, member-add_sorted s t (sorted_set ss), member-sorted_set t ss)

pub sorted_set-nil : (ss : List String) → sorted_set ss ≡ [] → ss ≡ []
unfolding sorted_set
sorted_set-nil [] h = refl
sorted_set-nil (s ∷ ss) h = absurd (add_sorted-ne-nil s (sorted_set ss) h)

abbrev pub is_empty : List String → Bool
is_empty [] = true
is_empty (s ∷ ss) = false

eq_nil_of_is_empty : (ss : List String) → not (is_empty ss) ≡ false → ss ≡ []
eq_nil_of_is_empty ss h = ground arith

-- Nothing is missing: every item on the left is on the right.
pub All-present :
    (left right : List String)
    → not (is_empty (difference left right)) ≡ false
    → All (λ s. member s right ≡ true) left
All-present left right h = difference-nil left right (eq_nil_of_is_empty _ h)
