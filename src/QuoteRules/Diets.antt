-- ===== src/QuoteRules/Diets.antt =====
-- modules/quotes/rules.py: what the checks of the diets decide together.
use hackathon_open_ai.QuoteRules.Risks.{Told-left, Told-right}
use hackathon_open_ai.Shared.{pass, OnPass, OnPass-bind, OnPass-eq}
use hackathon_open_ai.Prelude.{String, Bool, true, ◌≡◌, arith, ◌↔◌, ◌++◌, ◌&&◌}
use hackathon_open_ai.Value.{Fields}
use hackathon_open_ai.QuoteRules.Requirements.{
  Check, both, dietary_check, validate_dietary_requirements,
}
use hackathon_open_ai.QuoteRules.Eligible.{Told, Decides, DietMet, dietary_check-Decides}

and_left : (a b : Bool) → (a && b) ≡ true → a ≡ true
and_left a b h = ground arith

and_right : (a b : Bool) → (a && b) ≡ true → b ≡ true
and_right a b h = ground arith

and_intro : (a b : Bool) → a ≡ true → b ≡ true → (a && b) ≡ true
and_intro a b h k = ground arith

pub both_iff :
    (P Q : Type 0) (a b : Check)
    → (a.passed ≡ true) ↔ P
    → (b.passed ≡ true) ↔ Q
    → ((both a b).passed ≡ true) ↔ (P × Q)
unfolding both
both_iff P Q a b ha hb = (
  λ h. (ha.0 (and_left a.passed b.passed h), hb.0 (and_right a.passed b.passed h)),
  λ h. and_intro a.passed b.passed (ha.1 h.0) (hb.1 h.1),
)

abbrev pub DietsMet : Fields → Fields → Type 0
DietsMet submission requirements =
    DietMet submission requirements "vegetarian_count" "vegetarian_status"
    × (DietMet submission requirements "vegan_count" "vegan_status"
        × DietMet submission requirements "gluten_free_count" "gluten_free_status")

-- The three diets are decided, and each that is not met has its risk.
pub record DecidesDiets (submission requirements : Fields) (c : Check) : Type 0 where
  pub decided : (c.passed ≡ true) ↔ DietsMet submission requirements
  pub vegetarian :
      Told
        (DietMet submission requirements "vegetarian_count" "vegetarian_status")
        "VEGETARIAN_REQUIREMENT_NOT_CONFIRMED"
        c.risks
  pub vegan :
      Told
        (DietMet submission requirements "vegan_count" "vegan_status")
        "VEGAN_REQUIREMENT_NOT_CONFIRMED"
        c.risks
  pub gluten_free :
      Told
        (DietMet submission requirements "gluten_free_count" "gluten_free_status")
        "GLUTEN_FREE_REQUIREMENT_NOT_CONFIRMED"
        c.risks

diet-ok :
    (submission requirements : Fields) (count_field status_field risk : String) (c : Check)
    → dietary_check submission requirements count_field status_field risk ≡ pass c
    → Decides (DietMet submission requirements count_field status_field) risk c
diet-ok submission requirements count_field status_field risk c e =
    OnPass-eq (Decides (DietMet submission requirements count_field status_field) risk) _ c e
      (dietary_check-Decides submission requirements count_field status_field risk)

diets-Decides :
    (submission requirements : Fields)
    → OnPass
        (DecidesDiets submission requirements)
        (validate_dietary_requirements submission requirements)
unfolding validate_dietary_requirements both
diets-Decides submission requirements =
    let R = DecidesDiets submission requirements in
    OnPass-bind R (dietary_check submission requirements "vegetarian_count" "vegetarian_status" _) _
      λ a ha.
        OnPass-bind R (dietary_check submission requirements "vegan_count" "vegan_status" _) _
          λ b hb.
            OnPass-bind R
              (dietary_check submission requirements "gluten_free_count" "gluten_free_status" _) _
              λ c hc.
                let v = diet-ok submission requirements _ _ _ a ha in
                let g = diet-ok submission requirements _ _ _ b hb in
                let f = diet-ok submission requirements _ _ _ c hc in
                record {
                  decided = both_iff _ _ a (both b c) v.0 (both_iff _ _ b c g.0 f.0);
                  vegetarian = Told-left a.risks (b.risks ++ c.risks) v.1;
                  vegan = Told-right a.risks (b.risks ++ c.risks) (Told-left b.risks c.risks g.1);
                  gluten_free =
                      Told-right a.risks (b.risks ++ c.risks) (Told-right b.risks c.risks f.1);
                }

pub diets-ok :
    (submission requirements : Fields) (c : Check)
    → validate_dietary_requirements submission requirements ≡ pass c
    → DecidesDiets submission requirements c
diets-ok submission requirements c e =
    OnPass-eq (DecidesDiets submission requirements) _ c e (diets-Decides submission requirements)
