-- ===== src/QuoteRules/Decision.antt =====
-- modules/quotes/rules.py: the decision on an accepted quote, and the risks that explain it.
use hackathon_open_ai.QuoteRules.Risks.{Told-left, Told-right, Told-distinct, Told-later}
use hackathon_open_ai.QuoteRules.Accepted.{decide-keeps}
use hackathon_open_ai.Shared.{
  OnPass-both, is_true, pass, OnPass, OnPass-bind, OnPass-eq, value_or, value,
}
use hackathon_open_ai.Prelude.{ℕ, String, true, false, ◌≡◌, ◌↔◌, List, ◌++◌}
use hackathon_open_ai.Value.{Value, Fields}
use hackathon_open_ai.QuoteRules.Amounts.{calculate_price_per_person, validate_quote_expiration}
use hackathon_open_ai.QuoteRules.Presence.{distinct}
use hackathon_open_ai.QuoteRules.Requirements.{
  Check, check, both, validate_budget_limit, validate_invoice_requirement,
  validate_dietary_requirements,
}
use hackathon_open_ai.QuoteRules.Submission.{
  QuoteValidationResult, agreed_total, decide, contamination_risks, plastic_check, require_complete,
  validate_quote_submission,
}
use hackathon_open_ai.QuoteRules.Eligible.{
  Explains, Meets, Decides, WithinBudget, InvoiceMet, PlasticMet, check-Decides, budget-Decides,
  invoice-Decides, plastic-Decides, is_true_iff,
}
use hackathon_open_ai.QuoteRules.Diets.{both_iff, DietsMet, DecidesDiets, diets-ok}

budget-ok :
    (requirements : Fields) (total : ℕ) (c : Check)
    → validate_budget_limit total requirements ≡ pass c
    → Decides (WithinBudget requirements total) "BUDGET_LIMIT_EXCEEDED" c
budget-ok requirements total c e =
    OnPass-eq (Decides (WithinBudget requirements total) "BUDGET_LIMIT_EXCEEDED") _ c e
      (budget-Decides requirements total)

invoice-ok :
    (submission requirements : Fields) (c : Check)
    → validate_invoice_requirement submission requirements ≡ pass c
    → Decides (InvoiceMet submission requirements) "INVOICE_REQUIREMENT_NOT_MET" c
invoice-ok submission requirements c e =
    OnPass-eq (Decides (InvoiceMet submission requirements) "INVOICE_REQUIREMENT_NOT_MET") _ c e
      (invoice-Decides submission requirements)

-- Eligible exactly if the requirements are met, with a risk for each that is not.
abbrev Decided : Fields → Fields → ℕ → QuoteValidationResult → Type 0
Decided submission requirements total r =
    ((r.eligible ≡ true) ↔ Meets submission requirements total)
    × Explains submission requirements total r.risks

abbrev MeetsAll : Fields → Fields → ℕ → Type 0
MeetsAll submission requirements total =
    (value_or submission "availability_confirmed" (Value.bool false) ≡ Value.bool true)
    × (WithinBudget requirements total
        × (InvoiceMet submission requirements
            × (DietsMet submission requirements × PlasticMet submission requirements)))

meets :
    (submission requirements : Fields) (total : ℕ)
    → MeetsAll submission requirements total ↔ Meets submission requirements total
meets submission requirements total = (
  λ h. record {
    available = h.0;
    budget = h.1.0;
    invoice = h.1.1.0;
    vegetarian = h.1.1.1.0.0;
    vegan = h.1.1.1.0.1.0;
    gluten_free = h.1.1.1.0.1.1;
    plastic = h.1.1.1.1;
  },
  λ m.
      (m.available, (m.budget, (m.invoice, ((m.vegetarian, (m.vegan, m.gluten_free)), m.plastic)))),
)

module _ (submission requirements : Fields) (total : ℕ) (a b i d p : Check) (warnings : List String)
    (ha : Decides
      (value_or submission "availability_confirmed" (Value.bool false) ≡ Value.bool true)
      "AVAILABILITY_NOT_CONFIRMED"
      a)
    (hb : Decides (WithinBudget requirements total) "BUDGET_LIMIT_EXCEEDED" b)
    (hi : Decides (InvoiceMet submission requirements) "INVOICE_REQUIREMENT_NOT_MET" i)
    (hd : DecidesDiets submission requirements d)
    (hp : Decides
      (PlasticMet submission requirements)
      "NO_SINGLE_USE_PLASTIC_REQUIREMENT_NOT_MET"
      p) where
  all_iff :
      ((both a (both b (both i (both d p)))).passed ≡ true) ↔ MeetsAll submission requirements total
  all_iff =
      both_iff _ _ a _ ha.0
        (both_iff _ _ b _ hb.0 (both_iff _ _ i _ hi.0 (both_iff _ _ d p hd.decided hp.0)))

  all_told :
      Explains submission requirements total
        (distinct (a.risks ++ (b.risks ++ (i.risks ++ (d.risks ++ (warnings ++ p.risks))))))
  all_told =
      let on_p = warnings ++ p.risks in
      let on_d = d.risks ++ on_p in
      let on_i = i.risks ++ on_d in
      let on_b = b.risks ++ on_i in
      record {
        available = Told-distinct _ (Told-left a.risks on_b ha.1);
        budget = Told-later a.risks on_b (Told-left b.risks on_i hb.1);
        invoice = Told-later a.risks on_b (Told-right b.risks on_i (Told-left i.risks on_d hi.1));
        vegetarian = Told-later a.risks on_b (
            Told-right b.risks on_i
              (Told-right i.risks on_d (Told-left d.risks on_p hd.vegetarian)));
        vegan =
            Told-later a.risks on_b
              (Told-right b.risks on_i (Told-right i.risks on_d (Told-left d.risks on_p hd.vegan)));
        gluten_free = Told-later a.risks on_b (
            Told-right b.risks on_i
              (Told-right i.risks on_d (Told-left d.risks on_p hd.gluten_free)));
        plastic = Told-later a.risks on_b (
            Told-right b.risks on_i (
              Told-right i.risks on_d
                (Told-right d.risks on_p (Told-right warnings p.risks hp.1))));
      }

decide-Decided :
    (submission requirements : Fields) (total price : ℕ)
    → OnPass (Decided submission requirements total) (decide submission requirements total price)
unfolding decide both
decide-Decided submission requirements total price =
    let R = Decided submission requirements total in
    let available = value_or submission "availability_confirmed" (Value.bool false) in
    let a = check (is_true available) "AVAILABILITY_NOT_CONFIRMED" in
    let p = plastic_check submission requirements in
    let warnings = contamination_risks submission requirements in
    let ha = check-Decides _ _ _ (is_true_iff available) in
    let hp = plastic-Decides submission requirements in
    OnPass-bind R (validate_budget_limit total requirements) _ λ b eb.
      OnPass-bind R (validate_invoice_requirement submission requirements) _ λ i ei.
        OnPass-bind R (validate_dietary_requirements submission requirements) _ λ d ed.
          let hb = budget-ok requirements total b eb in
          let hi = invoice-ok submission requirements i ei in
          let hd = diets-ok submission requirements d ed in
          let whole = all_iff submission requirements total a b i d p warnings ha hb hi hd hp in
          (
            (λ h. (meets _ _ _).0 (whole.0 h), λ m. whole.1 ((meets _ _ _).1 m)),
            all_told submission requirements total a b i d p warnings ha hb hi hd hp,
          )

submission-Decided :
    (submission requirements : Fields) (now : Value)
    → OnPass
        (λ r. Decided submission requirements r.total_cents r)
        (validate_quote_submission submission requirements now)
unfolding validate_quote_submission
submission-Decided submission requirements now =
    OnPass-bind _ (require_complete submission) _ λ _ _.
      OnPass-bind _ (agreed_total submission) _ λ total _.
        OnPass-bind _ (value submission "valid_until") _ λ until _.
          OnPass-bind _ (validate_quote_expiration until now) _ λ _ _.
            OnPass-bind _ (value requirements "people_count") _ λ people _.
              OnPass-bind _ (calculate_price_per_person total people) _ λ price _.
                OnPass-both (λ r. Decided submission requirements r.total_cents r)
                  (decide submission requirements total price)
                  (decide-Decided submission requirements total price)
                  (decide-keeps submission requirements total price)
                  λ r decided kept. rw kept.0 decided

-- A quote that is accepted is eligible exactly if the supplier is available, the total is within the
-- budget, the invoice, the diets and the plastic rule are met as required; and for each of these that
-- is not met the risks hold the text that stands for it.
pub eligible_iff :
    (submission requirements : Fields) (now : Value) (r : QuoteValidationResult)
    → validate_quote_submission submission requirements now ≡ pass r
    → ((r.eligible ≡ true) ↔ Meets submission requirements r.total_cents)
      × Explains submission requirements r.total_cents r.risks
eligible_iff submission requirements now r e =
    OnPass-eq (λ r. Decided submission requirements r.total_cents r) _ r e
      (submission-Decided submission requirements now)
