-- ===== src/Scoring/Lowest.antt =====
-- modules/comparison/scoring.py: the lowest total that the prices of a ranking are compared with.
use hackathon_open_ai.Prelude.{
  sym, subst, ℕ, ◌≡◌, ◌≤◌, ◌⊎◌, inl, inr, Bool, true, false, List, [], ◌∷◌, All, arith,
  if◌then◌else◌, min,
}
use hackathon_open_ai.Value.{Fields}
use hackathon_open_ai.Shared.{ExecutionCode, fail, ◌>>=◌, pass, OnPass, OnPass-bind, OnPass-eq}
use hackathon_open_ai.Scoring.Score.{money_of, is_eligible}
use hackathon_open_ai.Scoring.Ranking.{totals, eligible_totals, lowest, lowest_total}

abbrev pub eligible_of : List Fields → List Fields
eligible_of [] = []
eligible_of (q ∷ qs) = if is_eligible q then q ∷ eligible_of qs else eligible_of qs

abbrev or_all : List Fields → List Fields → List Fields
or_all [] all = all
or_all (q ∷ qs) all = q ∷ qs

-- The eligible quotes, or all where none is eligible.
abbrev pub considered : List Fields → List Fields
considered qs = or_all (eligible_of qs) qs

-- Some quote of the list has the total.
abbrev pub HasTotal : ℕ → List Fields → Type 0
HasTotal n [] = ⊥
HasTotal n (q ∷ qs) = (money_of q "total_cents" ≡ pass n) ⊎ HasTotal n qs

-- The least of the totals of the quotes.
pub record IsLowest (floor : ℕ) (qs : List Fields) : Type 0 where
  pub below : All (λ q. (n : ℕ) × (money_of q "total_cents" ≡ pass n) × (floor ≤ n)) qs
  pub reached : HasTotal floor qs

-- The numbers are the totals of the quotes.
abbrev Priced : List Fields → List ℕ → Type 0
Priced [] [] = Unit
Priced [] (n ∷ ns) = ⊥
Priced (q ∷ qs) [] = ⊥
Priced (q ∷ qs) (n ∷ ns) = (money_of q "total_cents" ≡ pass n) × Priced qs ns

totals-Priced : (qs : List Fields) → OnPass (Priced qs) (totals qs)
unfolding totals
totals-Priced [] = tt
totals-Priced (q ∷ qs) = OnPass-bind (Priced (q ∷ qs)) (money_of q "total_cents") _ λ n e.
    OnPass-bind (Priced (q ∷ qs)) (totals qs) _
      λ ns k. (e, OnPass-eq (Priced qs) _ ns k (totals-Priced qs))

eligible_totals-Priced : (qs : List Fields) → OnPass (Priced (eligible_of qs)) (eligible_totals qs)
unfolding eligible_totals
eligible_totals-Priced [] = tt
eligible_totals-Priced (q ∷ qs) = branch (is_eligible q) (eligible_totals-Priced qs)
  where
    branch :
        (b : Bool)
        → OnPass (Priced (eligible_of qs)) (eligible_totals qs)
        → OnPass (Priced (if b then q ∷ eligible_of qs else eligible_of qs)) (
            if b
            then (money_of q "total_cents" >>= λ n. eligible_totals qs >>= λ ns. pass (n ∷ ns))
            else eligible_totals qs)
    branch true rest = OnPass-bind (Priced (q ∷ eligible_of qs)) (money_of q "total_cents") _ λ n e.
        OnPass-bind (Priced (q ∷ eligible_of qs)) (eligible_totals qs) _
          λ ns k. (e, OnPass-eq (Priced (eligible_of qs)) _ ns k rest)
    branch false rest = rest

lower :
    (a b : ℕ) (qs : List Fields)
    → a ≤ b
    → All (λ q. (n : ℕ) × (money_of q "total_cents" ≡ pass n) × (b ≤ n)) qs
    → All (λ q. (n : ℕ) × (money_of q "total_cents" ≡ pass n) × (a ≤ n)) qs
lower a b [] h g = tt
lower a b (q ∷ qs) h ((n, e, l), rest) = ((n, e, omega arith), lower a b qs h rest)

min_cases : (a b : ℕ) → (min a b ≤ a) × (min a b ≤ b) × ((min a b ≡ a) ⊎ (min a b ≡ b))
min_cases a b = ground arith

Priced-IsLowest :
    (qs : List Fields) (n : ℕ) (ns : List ℕ) → Priced qs (n ∷ ns) → IsLowest (lowest n ns) qs
unfolding lowest
Priced-IsLowest [] n ns h = absurd h
Priced-IsLowest (q ∷ []) n [] h = record { below = ((n, h.0, omega arith), tt); reached = inl h.0 }
Priced-IsLowest (q ∷ p ∷ qs) n [] h = absurd h.1
Priced-IsLowest (q ∷ qs) n (m ∷ ms) h =
    let rest = Priced-IsLowest qs m ms h.1 in
    let (left, right, which) = min_cases n (lowest m ms) in
    record {
      below = ((n, h.0, left), lower _ _ qs right rest.below);
      reached = elim which [
        | inl e ↦ inl (subst (λ x. money_of q "total_cents" ≡ pass x) (sym e) h.0)
        | inr e ↦ inr (subst (λ x. HasTotal x qs) (sym e) rest.reached)
      ];
    }

pub lowest_total-IsLowest :
    (qs : List Fields) (ns : List ℕ)
    → eligible_totals qs ≡ pass ns
    → OnPass (λ floor. IsLowest floor (considered qs)) (lowest_total qs ns)
unfolding lowest_total
lowest_total-IsLowest qs ns e =
    chosen (eligible_of qs) ns
      (OnPass-eq (Priced (eligible_of qs)) _ ns e (eligible_totals-Priced qs))
  where
    chosen :
        (es : List Fields) (ns : List ℕ)
        → Priced es ns
        → OnPass (λ floor. IsLowest floor (or_all es qs)) (lowest_total qs ns)
    chosen [] [] h =
        OnPass-bind (λ floor. IsLowest floor qs) (totals qs) _
          λ all k. some_total all (OnPass-eq (Priced qs) _ all k (totals-Priced qs))
      where
        some_total :
            (all : List ℕ)
            → Priced qs all
            → OnPass
                (λ floor. IsLowest floor qs)
                (elim all [
                  | [] ↦ fail ExecutionCode.validation_error
                  | n ∷ ns ↦ pass (lowest n ns)
                ])
        some_total [] h = tt
        some_total (n ∷ ns) h = Priced-IsLowest qs n ns h
    chosen [] (n ∷ ns) h = absurd h
    chosen (e ∷ es) [] h = absurd h
    chosen (e ∷ es) (n ∷ ns) h = Priced-IsLowest (e ∷ es) n ns h
