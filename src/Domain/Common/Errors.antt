-- ===== src/Domain/Common/Errors.antt =====
-- domain/common/errors.py and events.py. An error is its code and message; the `details`, which
-- repeat the arguments for display, are left out.
use hackathon_open_ai.Prelude.{◌≡◌, refl, subst, ℕ, String, Option, List, str_append}
use hackathon_open_ai.Contracts.{ErrorCode}
use hackathon_open_ai.Value.{Value}

pub record DomainError : Type 0 where
  pub code : ErrorCode
  pub message : String

-- What a method can raise: `hmac.compare_digest` rejects a text that is not ASCII with `TypeError`.
pub data Exception : Type 0 where
  raised : DomainError → Exception
  type_error : Exception

abbrev pub domain_error : ErrorCode → String → Exception
domain_error code message = raised (record { code = code; message = message })

infixr 60 ◌⁀◌
abbrev ◌⁀◌ : String → String → String
s ⁀ t = str_append s t

abbrev pub invalid_transition : String → String → String → Exception
invalid_transition aggregate_type previous_state requested_state =
    domain_error ErrorCode.invalid_state_transition
      (aggregate_type ⁀ " cannot move from " ⁀ previous_state ⁀ " to " ⁀ requested_state)

-- A payload is a dictionary with literal keys, in the order in which the code writes them.
abbrev pub Payload : Type 0
Payload = List (String × Value)

pub record DomainEvent : Type 0 where
  pub event_type : String
  pub aggregate_type : String
  pub aggregate_id : String
  pub previous_state : Option String
  pub new_state : Option String
  pub aggregate_version : ℕ
  pub payload : Payload

pub data Result {ℓ} (A : Type ℓ) : Type ℓ where
  ok : A → Result A
  err : Exception → Result A

-- For code that raises or returns, and leaves no object behind.
infixl 5 ◌>>=◌ ◌>>◌
abbrev pub ◌>>=◌ {ℓ κ} : {A : Type ℓ} {B : Type κ} → Result A → (A → Result B) → Result B
ok a >>= f = f a
err e >>= f = err e

abbrev pub ◌>>◌ {ℓ κ} : {A : Type ℓ} {B : Type κ} → Result A → Result B → Result B
m >> k = m >>= λ _. k

-- `P` holds of what is returned, if anything is.
abbrev pub OnOk {ℓ κ} : {A : Type ℓ} → (A → Type κ) → Result A → Type κ
OnOk P (ok a) = P a
OnOk P (err e) = Unit

pub OnOk-bind {ℓ κ μ} :
    {A : Type ℓ} {B : Type κ} (P : B → Type μ) (r : Result A) (k : A → Result B)
    → ((x : A) → r ≡ ok x → OnOk P (k x))
    → OnOk P (r >>= k)
OnOk-bind P (ok x) k h = h x refl
OnOk-bind P (err e) k h = tt

pub OnOk-eq {ℓ κ} : {A : Type ℓ} (P : A → Type κ) (r : Result A) (a : A) → r ≡ ok a → OnOk P r → P a
OnOk-eq P r a e h = subst (OnOk P) e h
