-- ===== src/QuoteRules/Risks.antt =====
-- modules/quotes/rules.py: a risk stays among the risks when they are joined and made distinct.
use hackathon_open_ai.Prelude.{
  String, true, ◌≡◌, List, [], ◌∷◌, ◌++◌, ◌⊎◌, inl, inr, member, str_eq_iff, arith,
}
use hackathon_open_ai.QuoteRules.Presence.{distinct, distinct_after}
use hackathon_open_ai.QuoteRules.Eligible.{Told}

member_left : (s : String) (xs ys : List String) → member s xs ≡ true → member s (xs ++ ys) ≡ true
unfolding member
member_left s [] ys h = absurd cc
member_left s (x ∷ xs) ys h = ground (arith, member_left s xs ys)

member_right : (s : String) (xs ys : List String) → member s ys ≡ true → member s (xs ++ ys) ≡ true
unfolding member
member_right s [] ys h = h
member_right s (x ∷ xs) ys h = ground (arith, member_right s xs ys h)

-- A text of the list was seen before, or is kept.
member-distinct_after :
    (s : String) (seen xs : List String)
    → member s xs ≡ true
    → (member s seen ≡ true) ⊎ (member s (distinct_after seen xs) ≡ true)
unfolding member distinct_after
member-distinct_after s seen [] h = absurd cc
member-distinct_after s seen (x ∷ xs) h =
    ground (
      arith,
      str_eq_iff s x,
      member-distinct_after s seen xs,
      member-distinct_after s (x ∷ seen) xs,
    )

member-distinct :
    (s : String) (xs : List String) → member s xs ≡ true → member s (distinct xs) ≡ true
unfolding distinct member
member-distinct s xs h = elim (member-distinct_after s [] xs h) [ inl e ↦ absurd cc | inr e ↦ e ]

module _ {P : Type 0} {risk : String} where
  pub Told-left : (xs ys : List String) → Told P risk xs → Told P risk (xs ++ ys)
  Told-left xs ys (Told.met p) = Told.met p
  Told-left xs ys (Told.named h) = Told.named (member_left risk xs ys h)

  pub Told-right : (xs ys : List String) → Told P risk ys → Told P risk (xs ++ ys)
  Told-right xs ys (Told.met p) = Told.met p
  Told-right xs ys (Told.named h) = Told.named (member_right risk xs ys h)

  pub Told-distinct : (xs : List String) → Told P risk xs → Told P risk (distinct xs)
  Told-distinct xs (Told.met p) = Told.met p
  Told-distinct xs (Told.named h) = Told.named (member-distinct risk xs h)

  pub Told-later : (xs ys : List String) → Told P risk ys → Told P risk (distinct (xs ++ ys))
  Told-later xs ys h = Told-distinct (xs ++ ys) (Told-right xs ys h)
