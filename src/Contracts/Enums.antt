-- ===== src/Contracts/Enums.antt =====
-- contracts/common.py: what `StrEnum` gives its members, as an interface, and the two plain
-- enumerations.
use hackathon_open_ai.Prelude.{
  ℕ, String, Bool, false, Option, some, List, [], ◌∷◌, ◌≡◌, ap, sym, ◌∙◌, ◌||◌, ◌==◌,
}

-- `value` is the text of a member; `index` numbers the members, and tells them apart.
pub record StrEnum (S : Type 0) : Type 0 where
  pub value : S → String
  pub index : S → ℕ
  pub index_injective : (s t : S) → index s ≡ index t → s ≡ t

some_injective {ℓ} : {A : Type ℓ} (a b : A) → some a ≡ some b → a ≡ b
some_injective a b h = cc

-- A numbering with an inverse tells the members apart.
pub injective_of_inverse :
    {S : Type 0} (index : S → ℕ) (of : ℕ → Option S)
    → ((s : S) → of (index s) ≡ some s)
    → (s t : S) → index s ≡ index t
    → s ≡ t
injective_of_inverse index of inverse s t h =
    some_injective s t (sym (inverse s) ∙ (ap of h ∙ inverse t))

module _ {S : Type 0} ⦃e : StrEnum S⦄ where
  -- `state in frozenset(allowed)`
  unfoldable pub contains : List S → S → Bool
  contains [] s = false
  contains (t ∷ ts) s = e.index s == e.index t || contains ts s

pub data ActorType : Type 0 where
  human supplier agent system external_service : ActorType

pub data ErrorCode : Type 0 where
  validation_error not_found conflict invalid_state_transition policy_denied : ErrorCode
  link_expired link_invalid idempotency_conflict optimistic_lock_conflict : ErrorCode
  external_delivery_not_confirmed : ErrorCode
