-- ===== src/Shared/Errors.antt =====
-- shared/errors.py: an error is its code; messages and details are left out.
use hackathon_open_ai.Prelude.{if◌then◌else◌, Bool, true, false, ◌≡◌, refl, subst}

pub data ExecutionCode : Type 0 where
  validation_error not_found invalid_state stale_version idempotency_conflict : ExecutionCode
  policy_denied dependency_unavailable quote_total_mismatch quote_expired : ExecutionCode
  invalid_response_token : ExecutionCode

pub data Checked {ℓ} (A : Type ℓ) : Type ℓ where
  pass : A → Checked A
  fail : ExecutionCode → Checked A

infixl 5 ◌>>=◌ ◌>>◌
abbrev pub ◌>>=◌ {ℓ κ} : {A : Type ℓ} {B : Type κ} → Checked A → (A → Checked B) → Checked B
pass a >>= f = f a
fail e >>= f = fail e

abbrev pub ◌>>◌ {ℓ κ} : {A : Type ℓ} {B : Type κ} → Checked A → Checked B → Checked B
m >> k = m >>= λ _. k

-- `require(condition, code)`
unfoldable pub require : Bool → ExecutionCode → Checked (Unit {0})
require true code = pass tt
require false code = fail code

-- `P` holds of what is returned, if anything is.
abbrev pub OnPass {ℓ κ} : {A : Type ℓ} → (A → Type κ) → Checked A → Type κ
OnPass P (pass a) = P a
OnPass P (fail e) = Unit

pub OnPass-bind {ℓ κ μ} :
    {A : Type ℓ} {B : Type κ} (P : B → Type μ) (r : Checked A) (k : A → Checked B)
    → ((x : A) → r ≡ pass x → OnPass P (k x))
    → OnPass P (r >>= k)
OnPass-bind P (pass x) k h = h x refl
OnPass-bind P (fail e) k h = tt

pub OnPass-eq {ℓ κ} :
    {A : Type ℓ} (P : A → Type κ) (r : Checked A) (a : A) → r ≡ pass a → OnPass P r → P a
OnPass-eq P r a e h = subst (OnPass P) e h

pub OnPass-map {ℓ κ μ} :
    {A : Type ℓ} {P : A → Type κ} (Q : A → Type μ) (r : Checked A)
    → OnPass P r
    → ((a : A) → P a → Q a)
    → OnPass Q r
OnPass-map Q (pass a) h f = f a h
OnPass-map Q (fail e) h f = tt

pub OnPass-if {ℓ κ} :
    {A : Type ℓ} (P : A → Type κ) (b : Bool) (a : A) (e : ExecutionCode)
    → (b ≡ true → P a)
    → OnPass P (if b then pass a else fail e)
OnPass-if P true a e h = h refl
OnPass-if P false a e h = tt

pub OnPass-both {ℓ κ μ ν} :
    {A : Type ℓ} {P : A → Type κ} {Q : A → Type μ} (R : A → Type ν) (r : Checked A)
    → OnPass P r
    → OnPass Q r
    → ((a : A) → P a → Q a → R a)
    → OnPass R r
OnPass-both R (pass a) h k f = f a h k
OnPass-both R (fail e) h k f = tt
