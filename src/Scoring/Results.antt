-- ===== src/Scoring/Results.antt =====
-- modules/comparison/scoring.py: a score is explained by its components.
use hackathon_open_ai.Prelude.{
  ℕ, ◌≡◌, ◌≢◌, refl, String, Bool, true, false, Option, List, [], ◌∷◌, arith, ◌≤◌, ◌<◌, ◌+◌, ◌*◌,
  ◌⊎◌, inl, inr, ap, ◌∙◌,
}
use hackathon_open_ai.Value.{Value, Fields}
use hackathon_open_ai.Shared.{
  half_up_nearest, pass, OnPass, OnPass-bind, OnPass-eq, value, non_negative_integer,
}
use hackathon_open_ai.Scoring.Weights.{Weight, weighted_points}
use hackathon_open_ai.Scoring.Criteria.{normalized_score}
use hackathon_open_ai.Scoring.Score.{
  ScoreComponent, ScoreResult, score_components, evidence_refs, points, sum_points, total_score,
  errors_of, risks_of, version_of, reasons, or_else, score_result, score_quote, weights_of,
  money_of, floor_of, is_eligible,
}

-- The points are the weight's share, in percent, of the normalized score, rounded half up.
pub record IsShare (weight normalized points : ℕ) : Type 0 where
  pub not_above : 100 * points ≤ weight * normalized + 50
  pub not_below : weight * normalized < 100 * points + 50

-- The component of one weight.
pub record IsComponent (quote : Fields) (floor : ℕ) (eligible : Bool) (w : Weight)
    (c : ScoreComponent) : Type 0 where
  pub same_criterion : c.criterion ≡ w.criterion
  pub same_weight : c.weight ≡ w.weight
  pub normalized : normalized_score w.criterion quote floor ≡ pass c.normalized_score_basis_points
  pub share :
      ((eligible ≡ true) × IsShare w.weight c.normalized_score_basis_points c.points_basis_points)
      ⊎ ((eligible ≡ false) × (c.points_basis_points ≡ 0))

-- The components are those of the weights, in their order.
abbrev pub AreComponents : Fields → ℕ → Bool → List Weight → List ScoreComponent → Type 0
AreComponents quote floor eligible [] [] = Unit
AreComponents quote floor eligible [] (c ∷ cs) = ⊥
AreComponents quote floor eligible (w ∷ ws) [] = ⊥
AreComponents quote floor eligible (w ∷ ws) (c ∷ cs) =
    IsComponent quote floor eligible w c × AreComponents quote floor eligible ws cs

-- The sum of the points.
abbrev pub all_points : List ScoreComponent → ℕ
all_points [] = 0
all_points (c ∷ cs) = c.points_basis_points + all_points cs

points-IsShare :
    (eligible : Bool) (weight normalized : ℕ)
    → ((eligible ≡ true) × IsShare weight normalized (points eligible weight normalized))
      ⊎ ((eligible ≡ false) × (points eligible weight normalized ≡ 0))
unfolding points weighted_points
points-IsShare true weight normalized =
    let (above, below) = half_up_nearest (weight * normalized) 100 (omega arith) in
    inl (refl, record { not_above = omega arith; not_below = omega arith })
points-IsShare false weight normalized = inr (refl, refl)

score_components-AreComponents :
    (str : Value → String) (quote : Fields) (floor : ℕ) (eligible : Bool) (ws : List Weight)
    → OnPass (AreComponents quote floor eligible ws) (score_components str quote floor eligible ws)
unfolding score_components
score_components-AreComponents str quote floor eligible [] = tt
score_components-AreComponents str quote floor eligible (w ∷ ws) =
    let P = AreComponents quote floor eligible (w ∷ ws) in
    OnPass-bind P (normalized_score w.criterion quote floor) _ λ normalized scored.
      OnPass-bind P (evidence_refs str quote w.criterion) _ λ refs _.
        OnPass-bind P (score_components str quote floor eligible ws) _ λ rest e. (
          record {
            same_criterion = refl;
            same_weight = refl;
            normalized = scored;
            share = points-IsShare eligible w.weight normalized;
          },
          OnPass-eq (AreComponents quote floor eligible ws) _ rest e
              (score_components-AreComponents str quote floor eligible ws),
        )

sum_points-all : (cs : List ScoreComponent) → sum_points cs ≡ all_points cs
unfolding sum_points
sum_points-all [] = refl
sum_points-all (c ∷ cs) = ap (λ n. c.points_basis_points + n) (sum_points-all cs)

total_score-ok :
    (cs : List ScoreComponent) (n : ℕ) → total_score cs ≡ pass n → (n ≡ sum_points cs) × (n ≤ 10000)
unfolding total_score
total_score-ok cs n h = ground arith

no_points :
    (quote : Fields) (floor : ℕ) (ws : List Weight) (cs : List ScoreComponent)
    → AreComponents quote floor false ws cs
    → all_points cs ≡ 0
no_points quote floor [] [] h = refl
no_points quote floor [] (c ∷ cs) h = absurd h
no_points quote floor (w ∷ ws) [] h = absurd h
no_points quote floor (w ∷ ws) (c ∷ cs) h =
    let rest = no_points quote floor ws cs h.1 in
    elim h.0.share [ inl (e, k) ↦ absurd cc | inr (e, k) ↦ omega (arith, k, rest) ]

or_else-ne-nil :
    (risks : List String) (s : String) (errors : List String)
    → or_else errors (or_else risks (s ∷ [])) ≢ []
or_else-ne-nil risks s (e ∷ es) h = cc
or_else-ne-nil (r ∷ rs) s [] h = cc
or_else-ne-nil [] s [] h = cc

reasons-ne-nil :
    (eligible : Bool) (errors risks : List String)
    → eligible ≡ false
    → reasons eligible errors risks ≢ []
unfolding reasons
reasons-ne-nil true errors risks h = absurd cc
reasons-ne-nil false errors risks h = or_else-ne-nil risks _ errors

-- What `score_quote` says of a quote: `floor` is the total that prices are compared with.
pub record Explained (quote policy : Fields) (lowest : Option ℕ) (validated : Option (List Weight))
    (r : ScoreResult) : Type 0 where
  pub weights : List Weight
  pub weighed : weights_of policy validated ≡ pass weights
  pub total : money_of quote "total_cents" ≡ pass r.total_cents
  pub same_eligibility : r.eligible ≡ is_eligible quote
  pub explained :
      AreComponents quote (floor_of r.total_cents lowest) r.eligible weights r.components
  pub sums_up : r.score_basis_points ≡ all_points r.components
  pub in_range : r.score_basis_points ≤ 10000
  pub no_score : (r.eligible ≡ true) ⊎ (r.score_basis_points ≡ 0)
  pub has_reason : (r.eligible ≡ true) ⊎ (r.disqualification_reasons ≢ [])

no_score_of :
    (quote : Fields) (floor : ℕ) (eligible : Bool) (ws : List Weight) (cs : List ScoreComponent)
    (score : ℕ)
    → AreComponents quote floor eligible ws cs
    → score ≡ all_points cs
    → (eligible ≡ true) ⊎ (score ≡ 0)
no_score_of quote floor true ws cs score h e = inl refl
no_score_of quote floor false ws cs score h e = inr (e ∙ no_points quote floor ws cs h)

has_reason_of :
    (eligible : Bool) (errors risks : List String)
    → (eligible ≡ true) ⊎ (reasons eligible errors risks ≢ [])
has_reason_of true errors risks = inl refl
has_reason_of false errors risks = inr (reasons-ne-nil false errors risks refl)

module _ (str : Value → String) (quote policy : Fields) (lowest : Option ℕ)
    (validated : Option (List Weight)) where
  score_result-Explained :
      (weights : List Weight) (total price : ℕ) (cs : List ScoreComponent) (score : ℕ)
      → weights_of policy validated ≡ pass weights
      → money_of quote "total_cents" ≡ pass total
      → AreComponents quote (floor_of total lowest) (is_eligible quote) weights cs
      → (score ≡ all_points cs) × (score ≤ 10000)
      → OnPass
          (Explained quote policy lowest validated)
          (score_result str quote total price (is_eligible quote) cs score)
  unfolding score_result
  score_result-Explained weights total price cs score weighed priced h e =
      let P = Explained quote policy lowest validated in
      OnPass-bind P (errors_of str quote) _ λ errors _.
        OnPass-bind P (risks_of str quote) _ λ risks _.
          OnPass-bind P (value quote "quote_id") _ λ id _.
            OnPass-bind P (version_of quote) _ λ version _.
              OnPass-bind P (value quote "supplier_id") _ λ supplier _. record {
                weights = weights;
                weighed = weighed;
                total = priced;
                same_eligibility = refl;
                explained = h;
                sums_up = e.0;
                in_range = e.1;
                no_score = no_score_of quote _ (is_eligible quote) weights cs score h e.0;
                has_reason = has_reason_of (is_eligible quote) errors risks;
              }

  score_quote-Explained :
      OnPass
        (Explained quote policy lowest validated)
        (score_quote str quote policy lowest validated)
  unfolding score_quote
  score_quote-Explained =
      let P = Explained quote policy lowest validated in
      OnPass-bind P (weights_of policy validated) _ λ weights weighed.
        OnPass-bind P (money_of quote "total_cents") _ λ total priced.
          OnPass-bind P (non_negative_integer _) _ λ price _.
            OnPass-bind P
              (score_components str quote (floor_of total lowest) (is_eligible quote) weights) _
              λ cs scored. OnPass-bind P (total_score cs) _ λ score summed.
                let (sum, range) = total_score-ok cs score summed in
                score_result-Explained weights total price cs score weighed priced
                  (OnPass-eq
                    (AreComponents quote (floor_of total lowest) (is_eligible quote) weights) _ cs
                    scored (score_components-AreComponents str quote _ (is_eligible quote) weights))
                  (sum ∙ sum_points-all cs, range)

-- The components of a score are those of the weights that are passed, or else of the policy's, in their
-- order: each has the criterion, its weight and the normalized score of the quote, and the points are the weight's share of it in
-- percent, rounded half up, or none where the quote is not eligible. The score is the sum of the
-- points, at most 10000; a quote that is not eligible has the score 0 and at least one reason.
pub score-Explained :
    (str : Value → String) (quote policy : Fields) (lowest : Option ℕ)
    (validated : Option (List Weight)) (r : ScoreResult)
    → score_quote str quote policy lowest validated ≡ pass r
    → Explained quote policy lowest validated r
score-Explained str quote policy lowest validated r e =
    OnPass-eq (Explained quote policy lowest validated) _ r e
      (score_quote-Explained str quote policy lowest validated)
