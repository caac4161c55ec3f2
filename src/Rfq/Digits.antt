-- ===== src/Rfq/Digits.antt =====
-- modules/rfq/service.py: the numbers in ids, and the fuel of `digits`.
use hackathon_open_ai.Prelude.{
  inr, inl, ◌≤◌, ℕ, zero, suc, ◌/◌, ◌%◌, ltb, false, str_append, ◌≡◌, refl, Bool-cases, arith,
}
use hackathon_open_ai.Rfq.Numerals.{digit, digits, numeral}

-- With as much fuel as the number, more makes no difference.
digits-same : (f g n : ℕ) → n ≤ f → n ≤ g → digits f n ≡ digits g n
unfolding digits
digits-same zero zero n p q = refl
digits-same zero (suc g) n p q = let e : n ≡ 0 = omega arith in cc e
digits-same (suc f) zero n p q = let e : n ≡ 0 = omega arith in cc e
digits-same (suc f) (suc g) n p q = elim (Bool-cases (ltb n 10)) [
  | inl e ↦ cc e
  | inr e ↦
      let same : digits f (n / 10) ≡ digits g (n / 10) =
        digits-same f g (n / 10) (ground arith) (ground arith) in
      cc (e, same)
]

-- A number of several digits is written as all but its last digit, then the last.
numeral-step :
    (n : ℕ) → ltb n 10 ≡ false → numeral n ≡ str_append (numeral (n / 10)) (digit (n % 10))
unfolding numeral digits
numeral-step zero e = absurd cc
numeral-step (suc n) e =
    let same : digits n (suc n / 10) ≡ digits (suc n / 10) (suc n / 10) =
      digits-same n (suc n / 10) (suc n / 10) (ground arith) (ground arith) in
    cc (e, same)
