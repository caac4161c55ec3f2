-- ===== src/Scoring/Keys.antt =====
-- modules/comparison/scoring.py: the sort key of `score_quotes`, compared like a Python tuple.
use Prim.Native.Nat.{compare as compare_ℕ, Ordering}
use Prim.Native.Char.{code}
use hackathon_open_ai.Prelude.{ℕ, ◌≡◌, refl, String, Bool, true, false, arith}

-- `(not eligible, -score, total, response time, supplier, quote)`
pub record Key : Type 0 where
  pub eligible : Bool
  pub score : ℕ
  pub total : ℕ
  pub minutes : ℕ
  pub supplier : String
  pub quote : String

infixr 5 ◌then◌
abbrev pub ◌then◌ : Ordering → Ordering → Ordering
Ordering.lt then o = Ordering.lt
Ordering.eq then o = o
Ordering.gt then o = Ordering.gt

-- Python compares texts by their code points.
unfoldable pub compare_text : String → String → Ordering
compare_text String.[] String.[] = Ordering.eq
compare_text String.[] (String.◌∷◌ d t) = Ordering.lt
compare_text (String.◌∷◌ c s) String.[] = Ordering.gt
compare_text (String.◌∷◌ c s) (String.◌∷◌ d t) = compare_ℕ (code c) (code d) then compare_text s t

-- An eligible quote comes before one that is not.
abbrev pub compare_eligible : Bool → Bool → Ordering
compare_eligible true true = Ordering.eq
compare_eligible true false = Ordering.lt
compare_eligible false true = Ordering.gt
compare_eligible false false = Ordering.eq

unfoldable pub compare_key : Key → Key → Ordering
unfolding compare_text
compare_key a b =
    compare_eligible a.eligible b.eligible
    then compare_ℕ b.score a.score
    then compare_ℕ a.total b.total
    then compare_ℕ a.minutes b.minutes
    then compare_text a.supplier b.supplier
    then compare_text a.quote b.quote

abbrev pub not_after : Ordering → Bool
not_after Ordering.gt = false
not_after _ = true

abbrev flip : Ordering → Ordering
flip Ordering.lt = Ordering.gt
flip Ordering.eq = Ordering.eq
flip Ordering.gt = Ordering.lt

flip_then : (a b : Ordering) → flip (a then b) ≡ (flip a then flip b)
flip_then Ordering.lt b = refl
flip_then Ordering.eq b = refl
flip_then Ordering.gt b = refl

flip_compare_ℕ : (m n : ℕ) → flip (compare_ℕ m n) ≡ compare_ℕ n m
flip_compare_ℕ m n = ground arith

flip-compare_text : (s t : String) → flip (compare_text s t) ≡ compare_text t s
unfolding compare_text
flip-compare_text String.[] String.[] = refl
flip-compare_text String.[] (String.◌∷◌ d t) = refl
flip-compare_text (String.◌∷◌ c s) String.[] = refl
flip-compare_text (String.◌∷◌ c s) (String.◌∷◌ d t) =
    rw
      (
        flip_then (compare_ℕ (code c) (code d)) (compare_text s t),
        flip_compare_ℕ (code c) (code d),
        flip-compare_text s t,
      )
      refl

flip-compare_eligible : (a b : Bool) → flip (compare_eligible a b) ≡ compare_eligible b a
flip-compare_eligible a b = ground arith

-- The order of two keys is turned around with them.
flip-compare_key : (a b : Key) → flip (compare_key a b) ≡ compare_key b a
unfolding compare_key
flip-compare_key a b = simp (flip_then, flip_compare_ℕ, flip-compare_text, flip-compare_eligible)

pub total_order :
    (a b : Key) → not_after (compare_key a b) ≡ false → not_after (compare_key b a) ≡ true
total_order a b h = ground (arith, flip-compare_key a b)

pub eligible_first :
    (a b : Key) → not_after (compare_key a b) ≡ true → b.eligible ≡ true → a.eligible ≡ true
unfolding compare_key
eligible_first a b h e = ground arith
