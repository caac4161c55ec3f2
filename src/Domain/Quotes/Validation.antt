-- ===== src/Domain/Quotes/Validation.antt =====
-- domain/quotes/aggregate.py: what `_validated_facts` has checked when it returns.
use hackathon_open_ai.Prelude.{
  ℕ, ◌<◌, String, Option, none, some, List, [], ◌∷◌, ◌≡◌, ◌≢◌, ◌⊎◌, inl, refl, arith, str_eq_iff,
}
use hackathon_open_ai.Value.{Value}
use hackathon_open_ai.Domain.Common.{
  ok, OnOk, OnOk-bind, OnOk-eq, money, require_each, require_non_empty, require_utc,
}
use hackathon_open_ai.Domain.Quotes.Facts.{
  QuoteFacts, QuoteValidationFacts, ValidationInput, require_bool, require_some, require_pairs,
  require_same_respondent, require_later, validated_facts,
}
use hackathon_open_ai.Domain.Quotes.Route.{IsChecked}

require_some-ok {ℓ} : {A : Type ℓ} (xs : List A) (m : String) → require_some xs m ≡ ok tt → xs ≢ []
unfolding require_some
require_some-ok [] m h = cc
require_some-ok (x ∷ xs) m h = cc

require_later-ok : (a b : ℕ) → require_later a b ≡ ok tt → b < a
unfolding require_later
require_later-ok a b h = ground arith

require_same_respondent-ok :
    (o : Option String) (s : String)
    → require_same_respondent o s ≡ ok tt
    → (o ≡ none) ⊎ (o ≡ some s)
unfolding require_same_respondent
require_same_respondent-ok none s h = inl refl
require_same_respondent-ok (some t) s h = ground (arith, str_eq_iff s t)

require_pairs-ne-nil :
    (x : Value × Value) (xs : List (Value × Value)) → OnOk (λ ps. ps ≢ []) (require_pairs (x ∷ xs))
unfolding require_pairs
require_pairs-ne-nil (k, v) xs = OnOk-bind _ (require_non_empty k "requirements") _ λ _ _.
    OnOk-bind _ (require_non_empty v "requirements") _
      λ _ _. OnOk-bind _ (require_pairs xs) _ λ _ _. λ e. cc

pairs_kept : (xs : List (Value × Value)) → xs ≢ [] → OnOk (λ ps. ps ≢ []) (require_pairs xs)
pairs_kept [] h = absurd (h refl)
pairs_kept (x ∷ xs) h = require_pairs-ne-nil x xs

validated_facts-OnOk :
    (self : QuoteFacts) (input : ValidationInput)
    → OnOk (IsChecked self) (validated_facts self input)
unfolding validated_facts
validated_facts-OnOk self input = OnOk-bind _ (money input.total_cents "BRL") _ λ total _.
    OnOk-bind _ (require_bool input.availability) _ λ availability _.
      OnOk-bind _ (require_each input.items "items") _ λ items _.
        OnOk-bind _ (require_some items _) _ λ _ some_items.
          OnOk-bind _ (require_some input.requirements _) _ λ _ some_outcomes.
            OnOk-bind _ (require_pairs input.requirements) _ λ outcomes paired.
              OnOk-bind _ (require_non_empty input.respondent_id "respondent_id") _ λ respondent _.
                OnOk-bind _ (require_same_respondent self.respondent_id respondent) _ λ _ same.
                  OnOk-bind _ (require_utc input.validated_at "validated_at") _ λ at _.
                    OnOk-bind _ (require_utc input.valid_until "valid_until") _ λ until _.
                      OnOk-bind _ (require_later until at) _ λ _ later. record {
                        items = require_some-ok items _ some_items;
                        requirements =
                            OnOk-eq (λ ps. ps ≢ []) _ outcomes paired
                              (pairs_kept input.requirements (require_some-ok _ _ some_outcomes));
                        later = require_later-ok until at later;
                        respondent = require_same_respondent-ok self.respondent_id respondent same;
                      }

pub validated_facts-IsChecked :
    (self : QuoteFacts) (input : ValidationInput) (v : QuoteValidationFacts)
    → validated_facts self input ≡ ok v
    → IsChecked self v
validated_facts-IsChecked self input v e =
    OnOk-eq (IsChecked self) _ v e (validated_facts-OnOk self input)
