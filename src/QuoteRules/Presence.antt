-- ===== src/QuoteRules/Presence.antt =====
-- modules/quotes/rules.py: `validate_required_quote_fields`.
use hackathon_open_ai.Prelude.{
  none, some, Bool, true, false, String, List, [], ◌∷◌, ◌++◌, if◌then◌else◌, ◌||◌, is_blank, member,
}
use hackathon_open_ai.Value.{Value, Values, Fields}
use hackathon_open_ai.Shared.{field?}

-- `not isinstance(value, str) or not value.strip()`
unfoldable pub is_blank_value : Value → Bool
unfolding is_blank
is_blank_value (Value.text s) = is_blank s
is_blank_value _ = true

unfoldable pub lacks : Fields → String → Bool
unfolding field?
lacks submission name = elim (field? name submission) [ none ↦ true | some v ↦ false ]

unfoldable pub lacks_text : Fields → String → Bool
unfolding field? is_blank_value
lacks_text submission name = elim (field? name submission) [
  | none ↦ true
  | some v ↦ is_blank_value v
]

unfoldable pub any_blank : Values → Bool
unfolding is_blank_value
any_blank Values.nil = false
any_blank (Values.cons v vs) = is_blank_value v || any_blank vs

-- `not isinstance(items, (list, tuple)) or not items or any(...)`
unfoldable pub bad_items : Value → Bool
unfolding any_blank
bad_items (Value.list Values.nil) = true
bad_items (Value.list (Values.cons v vs)) = any_blank (Values.cons v vs)
bad_items _ = true

-- A list that is there, but is not one of texts.
unfoldable pub lacks_items : Fields → Bool
unfolding field? bad_items
lacks_items submission = elim (field? "included_items" submission) [
  | none ↦ false
  | some v ↦ bad_items v
]

unfoldable pub select : (String → Bool) → List String → List String
select p [] = []
select p (s ∷ ss) = let rest = select p ss in if p s then s ∷ rest else rest

-- `dict.fromkeys`: the first of equal texts is kept.
unfoldable pub distinct_after : List String → List String → List String
unfolding member
distinct_after seen [] = []
distinct_after seen (s ∷ ss) =
    let rest = distinct_after seen ss in
    let more = distinct_after (s ∷ seen) ss in if member s seen then rest else s ∷ more

unfoldable pub distinct : List String → List String
unfolding distinct_after
distinct = distinct_after []

abbrev pub required_fields : List String
required_fields =
    "availability_confirmed" ∷ "subtotal_cents" ∷ "delivery_fee_cents" ∷ "other_fee_cents"
    ∷ "total_cents" ∷ "included_items" ∷ "invoice_available" ∷ "vegetarian_status" ∷ "vegan_status"
    ∷ "gluten_free_status" ∷ "valid_until" ∷ "supplier_confirmation" ∷ []

abbrev pub required_text_fields : List String
required_text_fields = "respondent_name" ∷ "respondent_contact" ∷ "cancellation_terms" ∷ []

unfoldable pub validate_required_quote_fields : Fields → List String
unfolding select lacks lacks_text lacks_items distinct
validate_required_quote_fields submission = distinct (
    select (lacks submission) required_fields
    ++ select (lacks_text submission) required_text_fields
    ++ (if lacks_items submission then "included_items" ∷ [] else []))
