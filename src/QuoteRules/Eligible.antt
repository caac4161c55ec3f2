-- ===== src/QuoteRules/Eligible.antt =====
-- modules/quotes/rules.py: what makes an accepted quote eligible, and what an ineligible one tells.
use hackathon_open_ai.QuoteRules.Accepted.{non_negative_integer-pass}
use hackathon_open_ai.Prelude.{
  ℕ, pos, String, Bool, true, false, ◌≤◌, ◌≡◌, refl, leb, arith, ◌↔◌, ◌⊎◌, inl, inr, List, [], ◌∷◌,
  member, str_eq_iff, not, ◌||◌,
}
use hackathon_open_ai.Value.{Value, Values, Fields}
use hackathon_open_ai.Shared.{
  Checked, pass, OnPass, OnPass-bind, OnPass-if, value_or, non_negative_integer, is_true, reads,
}
use hackathon_open_ai.QuoteRules.Requirements.{
  Check, check, budget_check, validate_budget_limit, names_mandatory, validate_invoice_requirement,
  dietary_check, is_zero,
}
use hackathon_open_ai.QuoteRules.Submission.{plastic_check}

-- The buyer's maximum, if there is one, is an amount that the total does not exceed.
abbrev pub WithinBudget : Fields → ℕ → Type 0
WithinBudget requirements total =
    (value_or requirements "maximum_total_cents" Value.null ≡ Value.null)
    ⊎ ((m : ℕ) × (value_or requirements "maximum_total_cents" Value.null ≡ Value.int (pos m))
        × (total ≤ m))

-- An invoice is available if it is required, by the flag or by the list of mandatory requirements.
abbrev pub InvoiceMet : Fields → Fields → Type 0
InvoiceMet submission requirements =
    ((value_or requirements "invoice_required" Value.null ≡ Value.bool true)
      ⊎ (names_mandatory "invoice"
            (value_or requirements "mandatory_requirements" (Value.list Values.nil))
          ≡ pass true))
    → value_or submission "invoice_available" Value.null ≡ Value.bool true

-- Either nobody needs it, or the supplier confirms it.
abbrev pub DietMet : Fields → Fields → String → String → Type 0
DietMet submission requirements count_field status_field =
    (value_or requirements count_field (Value.int (pos 0)) ≡ Value.int (pos 0))
    ⊎ (reads (value_or submission status_field (Value.text "unknown")) "confirmed" ≡ true)

abbrev pub PlasticMet : Fields → Fields → Type 0
PlasticMet submission requirements =
    value_or requirements "no_single_use_plastic" Value.null ≡ Value.bool true
    → value_or submission "no_single_use_plastic_confirmed" Value.null ≡ Value.bool true

pub record Meets (submission requirements : Fields) (total : ℕ) : Type 0 where
  pub available : value_or submission "availability_confirmed" (Value.bool false) ≡ Value.bool true
  pub budget : WithinBudget requirements total
  pub invoice : InvoiceMet submission requirements
  pub vegetarian : DietMet submission requirements "vegetarian_count" "vegetarian_status"
  pub vegan : DietMet submission requirements "vegan_count" "vegan_status"
  pub gluten_free : DietMet submission requirements "gluten_free_count" "gluten_free_status"
  pub plastic : PlasticMet submission requirements

-- `P` holds, or its risk is among the risks.
pub data Told (P : Type 0) (risk : String) (risks : List String) : Type 0 where
  met : P → Told P risk risks
  named : member risk risks ≡ true → Told P risk risks

-- Whichever requirement is not met has its risk among the risks.
pub record Explains (submission requirements : Fields) (total : ℕ) (risks : List String)
    : Type 0 where
  pub available :
      Told
        (value_or submission "availability_confirmed" (Value.bool false) ≡ Value.bool true)
        "AVAILABILITY_NOT_CONFIRMED"
        risks
  pub budget : Told (WithinBudget requirements total) "BUDGET_LIMIT_EXCEEDED" risks
  pub invoice : Told (InvoiceMet submission requirements) "INVOICE_REQUIREMENT_NOT_MET" risks
  pub vegetarian :
      Told
        (DietMet submission requirements "vegetarian_count" "vegetarian_status")
        "VEGETARIAN_REQUIREMENT_NOT_CONFIRMED"
        risks
  pub vegan :
      Told
        (DietMet submission requirements "vegan_count" "vegan_status")
        "VEGAN_REQUIREMENT_NOT_CONFIRMED"
        risks
  pub gluten_free :
      Told
        (DietMet submission requirements "gluten_free_count" "gluten_free_status")
        "GLUTEN_FREE_REQUIREMENT_NOT_CONFIRMED"
        risks
  pub plastic :
      Told (PlasticMet submission requirements) "NO_SINGLE_USE_PLASTIC_REQUIREMENT_NOT_MET" risks

-- A check stands for `P` when it is passed exactly if `P` holds, and tells its risk otherwise.
abbrev pub Decides : Type 0 → String → Check → Type 0
Decides P risk c = ((c.passed ≡ true) ↔ P) × Told P risk c.risks

member_here : (s : String) → member s (s ∷ []) ≡ true
unfolding member
member_here s = ground (arith, str_eq_iff s s)

pub is_true_iff : (v : Value) → (is_true v ≡ true) ↔ (v ≡ Value.bool true)
is_true_iff v = ground arith

pub check-Decides :
    (b : Bool) (risk : String) (P : Type 0) → (b ≡ true) ↔ P → Decides P risk (check b risk)
unfolding check
check-Decides true risk P h = (h, Told.met (h.0 refl))
check-Decides false risk P h = (h, Told.named (member_here risk))

within_budget :
    (total m : ℕ)
    → (Value.int (pos m) ≡ Value.null)
      ⊎ ((n : ℕ) × (Value.int (pos m) ≡ Value.int (pos n)) × (total ≤ n))
    → leb total m ≡ true
within_budget total m (inl e) = absurd cc
within_budget total m (inr (n, e, h)) = ground arith

budget_check-Decides :
    (total : ℕ) (maximum : Value)
    → OnPass
        (Decides
          ((maximum ≡ Value.null) ⊎ ((m : ℕ) × (maximum ≡ Value.int (pos m)) × (total ≤ m)))
          "BUDGET_LIMIT_EXCEEDED")
        (budget_check total maximum)
unfolding budget_check check non_negative_integer
budget_check-Decides total Value.null = ((λ _. inl refl, λ _. refl), Told.met (inl refl))
budget_check-Decides total (Value.int (pos m)) =
    check-Decides (leb total m) _ _ (λ h. inr (m, refl, ground arith), within_budget total m)
budget_check-Decides total _ = tt

pub budget-Decides :
    (requirements : Fields) (total : ℕ)
    → OnPass
        (Decides (WithinBudget requirements total) "BUDGET_LIMIT_EXCEEDED")
        (validate_budget_limit total requirements)
unfolding validate_budget_limit
budget-Decides requirements total = budget_check-Decides total _

flag_iff :
    (v w : Value)
    → ((not (is_true v) || is_true w) ≡ true) ↔ (v ≡ Value.bool true → w ≡ Value.bool true)
flag_iff v w = ground (arith, is_true_iff v, is_true_iff w)

demand_iff :
    (v w : Value) (q : Checked Bool) (mandatory : Bool)
    → q ≡ pass mandatory
    → ((not (is_true v || mandatory) || is_true w) ≡ true)
      ↔ ((v ≡ Value.bool true) ⊎ (q ≡ pass true) → w ≡ Value.bool true)
demand_iff v w q mandatory e = ground (arith, is_true_iff v, is_true_iff w)

need_iff :
    (v : Value) (count : ℕ) (answer : Bool)
    → v ≡ Value.int (pos count)
    → ((is_zero count || answer) ≡ true) ↔ ((v ≡ Value.int (pos 0)) ⊎ (answer ≡ true))
need_iff v count answer e = ground arith

pub invoice-Decides :
    (submission requirements : Fields)
    → OnPass
        (Decides (InvoiceMet submission requirements) "INVOICE_REQUIREMENT_NOT_MET")
        (validate_invoice_requirement submission requirements)
unfolding validate_invoice_requirement
invoice-Decides submission requirements =
    let listed = value_or requirements "mandatory_requirements" (Value.list Values.nil) in
    OnPass-bind (Decides (InvoiceMet submission requirements) "INVOICE_REQUIREMENT_NOT_MET")
      (names_mandatory "invoice" listed) _
      λ mandatory e.
        check-Decides _ _ _ (demand_iff _ _ (names_mandatory "invoice" listed) mandatory e)

pub plastic-Decides :
    (submission requirements : Fields)
    → Decides
        (PlasticMet submission requirements)
        "NO_SINGLE_USE_PLASTIC_REQUIREMENT_NOT_MET"
        (plastic_check submission requirements)
unfolding plastic_check
plastic-Decides submission requirements = check-Decides _ _ _ (flag_iff _ _)

pub dietary_check-Decides :
    (submission requirements : Fields) (count_field status_field risk : String)
    → OnPass
        (Decides (DietMet submission requirements count_field status_field) risk)
        (dietary_check submission requirements count_field status_field risk)
unfolding dietary_check
dietary_check-Decides submission requirements count_field status_field risk =
    let needed = value_or requirements count_field (Value.int (pos 0)) in
    let status = value_or submission status_field (Value.text "unknown") in
    OnPass-bind (Decides (DietMet submission requirements count_field status_field) risk)
      (non_negative_integer needed) _
      λ count e.
        OnPass-if (Decides (DietMet submission requirements count_field status_field) risk) _ _ _
          λ known. check-Decides _ _ _ (
            need_iff needed count (reads status "confirmed")
              (non_negative_integer-pass needed count e))
