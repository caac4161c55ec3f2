-- ===== src/QuoteRules/Accepted.antt =====
-- modules/quotes/rules.py: what holds of the values of a submission that is accepted.
use hackathon_open_ai.Prelude.{
  ap, ◌∙◌, ◌==◌, if◌then◌else◌, ℕ, suc, pos, ◌+◌, ◌*◌, ◌≤◌, ◌<◌, ◌≡◌, refl, arith, sym, ==_iff,
}
use hackathon_open_ai.Shared.{
  OnPass-if, ExecutionCode, OnPass-map, pass, fail, OnPass, OnPass-bind, OnPass-eq, value, value_or,
  non_negative_integer, half_up_nearest,
}
use hackathon_open_ai.QuoteRules.Requirements.{
  validate_dietary_requirements, validate_invoice_requirement, validate_budget_limit,
}
use hackathon_open_ai.Value.{Value, Fields, Moment}
use hackathon_open_ai.QuoteRules.Amounts.{
  calculate_quote_total, calculate_price_per_person, validate_quote_expiration, require_people,
}
use hackathon_open_ai.QuoteRules.Submission.{
  QuoteValidationResult, require_complete, agreed_total, decide, validate_quote_submission,
}

pub non_negative_integer-pass :
    (v : Value) (n : ℕ) → non_negative_integer v ≡ pass n → v ≡ Value.int (pos n)
unfolding non_negative_integer
non_negative_integer-pass (Value.int (pos m)) n h = cc
non_negative_integer-pass _ n h = cc

require_people-pass :
    (v : Value) (n : ℕ) → require_people v ≡ pass n → (v ≡ Value.int (pos n)) × (0 < n)
unfolding require_people
require_people-pass (Value.int (pos (suc m))) n h = ground arith
require_people-pass _ n h = cc

-- The charges that add up to the total, which the supplier declared as well.
pub record Charges (submission : Fields) (total : ℕ) : Type 0 where
  pub subtotal : ℕ
  pub delivery : ℕ
  pub other : ℕ
  pub subtotal_cents : value submission "subtotal_cents" ≡ pass (Value.int (pos subtotal))
  pub delivery_fee_cents :
      value_or submission "delivery_fee_cents" (Value.int (pos 0)) ≡ Value.int (pos delivery)
  pub other_fee_cents :
      value_or submission "other_fee_cents" (Value.int (pos 0)) ≡ Value.int (pos other)
  pub total_cents : value submission "total_cents" ≡ pass (Value.int (pos total))
  pub adds_up : total ≡ subtotal + delivery + other

-- The price is the share of one person, to the nearest cent.
pub record Share (requirements : Fields) (total price : ℕ) : Type 0 where
  pub people : ℕ
  pub some_people : 0 < people
  pub people_count : value requirements "people_count" ≡ pass (Value.int (pos people))
  pub not_above : 2 * (price * people) ≤ 2 * total + people
  pub not_below : 2 * total < 2 * (price * people) + people

-- The quote is valid for longer than the present.
pub record Lasts (submission : Fields) (now : Value) : Type 0 where
  pub until : ℕ
  pub present : ℕ
  pub valid_until : value submission "valid_until" ≡ pass (Value.datetime (Moment.aware until))
  pub is_now : now ≡ Value.datetime (Moment.aware present)
  pub later : present < until

pub record Accepted (submission requirements : Fields) (now : Value) (r : QuoteValidationResult)
    : Type 0 where
  pub charges : Charges submission r.total_cents
  pub share : Share requirements r.total_cents r.price_per_person_cents
  pub lasts : Lasts submission now

-- Three amounts, and their total.
record Sum (a b c : Value) (total : ℕ) : Type 0 where
  pub x : ℕ
  pub y : ℕ
  pub z : ℕ
  pub first : a ≡ Value.int (pos x)
  pub second : b ≡ Value.int (pos y)
  pub third : c ≡ Value.int (pos z)
  pub adds_up : total ≡ x + y + z

calculate_quote_total-Sum : (a b c : Value) → OnPass (Sum a b c) (calculate_quote_total a b c)
unfolding calculate_quote_total
calculate_quote_total-Sum a b c = OnPass-bind _ (non_negative_integer a) _ λ x ha.
    OnPass-bind _ (non_negative_integer b) _ λ y hb.
      OnPass-bind _ (non_negative_integer c) _ λ z hc. record {
        x = x;
        y = y;
        z = z;
        first = non_negative_integer-pass a x ha;
        second = non_negative_integer-pass b y hb;
        third = non_negative_integer-pass c z hc;
        adds_up = refl;
      }

calculate_quote_total-ok :
    (a b c : Value) (total : ℕ) → calculate_quote_total a b c ≡ pass total → Sum a b c total
calculate_quote_total-ok a b c total e =
    OnPass-eq (Sum a b c) _ total e (calculate_quote_total-Sum a b c)

agree :
    (submission : Fields) (v total : Value) (declared calculated : ℕ)
    → value submission "subtotal_cents" ≡ pass v
    → value submission "total_cents" ≡ pass total
    → non_negative_integer total ≡ pass declared
    → Sum v
        (value_or submission "delivery_fee_cents" (Value.int (pos 0)))
        (value_or submission "other_fee_cents" (Value.int (pos 0)))
        calculated
    → OnPass (Charges submission) (
        if declared == calculated then pass calculated else fail ExecutionCode.quote_total_mismatch)
agree submission v total declared calculated hv ht hd sum =
    OnPass-if (Charges submission) (declared == calculated) calculated _ λ same. record {
      subtotal = sum.x;
      delivery = sum.y;
      other = sum.z;
      subtotal_cents = hv ∙ ap pass sum.first;
      delivery_fee_cents = sum.second;
      other_fee_cents = sum.third;
      total_cents =
          ht
          ∙ ap pass (non_negative_integer-pass total declared hd)
          ∙ ap (λ n. pass (Value.int (pos n))) ((==_iff declared calculated).0 same);
      adds_up = sum.adds_up;
    }

agreed_total-Charges : (submission : Fields) → OnPass (Charges submission) (agreed_total submission)
unfolding agreed_total
agreed_total-Charges submission = OnPass-bind _ (value submission "subtotal_cents") _ λ v given.
    OnPass-bind _ (calculate_quote_total v _ _) _ λ calculated summed.
      OnPass-bind _ (value submission "total_cents") _ λ total ht.
        OnPass-bind _ (non_negative_integer total) _ λ declared hd.
          agree submission v total declared calculated given ht hd
            (calculate_quote_total-ok v _ _ calculated summed)

agreed_total-ok :
    (submission : Fields) (total : ℕ)
    → agreed_total submission ≡ pass total
    → Charges submission total
agreed_total-ok submission total e =
    OnPass-eq (Charges submission) _ total e (agreed_total-Charges submission)

calculate_price_per_person-Share :
    (requirements : Fields) (people : Value) (total : ℕ)
    → value requirements "people_count" ≡ pass people
    → OnPass (Share requirements total) (calculate_price_per_person total people)
unfolding calculate_price_per_person
calculate_price_per_person-Share requirements people total given =
    OnPass-bind _ (require_people people) _ λ n counted.
      let is_count = require_people-pass people n counted in
      let nearest = half_up_nearest total n is_count.1 in
      record {
        people = n;
        some_people = is_count.1;
        people_count = rw (sym is_count.0) given;
        not_above = nearest.0;
        not_below = nearest.1;
      }

price-ok :
    (requirements : Fields) (people : Value) (total price : ℕ)
    → value requirements "people_count" ≡ pass people
    → calculate_price_per_person total people ≡ pass price
    → Share requirements total price
price-ok requirements people total price given e =
    OnPass-eq (Share requirements total) _ price e
      (calculate_price_per_person-Share requirements people total given)

expiration-Lasts :
    (submission : Fields) (until now : Value) (u : Unit {0})
    → value submission "valid_until" ≡ pass until
    → validate_quote_expiration until now ≡ pass u
    → Lasts submission now
unfolding validate_quote_expiration
expiration-Lasts submission (Value.datetime (Moment.aware until))
      (Value.datetime (Moment.aware present)) u given valid =
    record {
      until = until;
      present = present;
      valid_until = given;
      is_now = refl;
      later = ground arith;
    }
expiration-Lasts submission _ _ u given valid = absurd cc

pub decide-keeps :
    (submission requirements : Fields) (total price : ℕ)
    → OnPass
        (λ r. (r.total_cents ≡ total) × (r.price_per_person_cents ≡ price))
        (decide submission requirements total price)
unfolding decide
decide-keeps submission requirements total price =
    OnPass-bind _ (validate_budget_limit total requirements) _ λ budget _.
      OnPass-bind _ (validate_invoice_requirement submission requirements) _ λ invoice _.
        OnPass-bind _ (validate_dietary_requirements submission requirements) _
          λ dietary _. (refl, refl)

submission-Accepted :
    (submission requirements : Fields) (now : Value)
    → OnPass
        (Accepted submission requirements now)
        (validate_quote_submission submission requirements now)
unfolding validate_quote_submission
submission-Accepted submission requirements now =
    OnPass-bind _ (require_complete submission) _ λ _ _.
      OnPass-bind _ (agreed_total submission) _ λ total agreed.
        OnPass-bind _ (value submission "valid_until") _ λ until ends.
          OnPass-bind _ (validate_quote_expiration until now) _ λ u valid.
            OnPass-bind _ (value requirements "people_count") _ λ people counted.
              OnPass-bind _ (calculate_price_per_person total people) _ λ price priced.
                OnPass-map (Accepted submission requirements now)
                  (decide submission requirements total price)
                  (decide-keeps submission requirements total price)
                  λ r kept. record {
                    charges = rw kept.0 (agreed_total-ok submission total agreed);
                    share =
                        rw (kept.0, kept.1)
                          (price-ok requirements people total price counted priced);
                    lasts = expiration-Lasts submission until now u ends valid;
                  }

-- A submission that is accepted declares the total that its subtotal and its fees add up to, its
-- price is that total's share of one person to the nearest cent (a half goes up), and it is valid
-- until after the present.
pub quote-Accepted :
    (submission requirements : Fields) (now : Value) (r : QuoteValidationResult)
    → validate_quote_submission submission requirements now ≡ pass r
    → Accepted submission requirements now r
quote-Accepted submission requirements now r e =
    OnPass-eq (Accepted submission requirements now) _ r e
      (submission-Accepted submission requirements now)
