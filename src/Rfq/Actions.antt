-- ===== src/Rfq/Actions.antt =====
-- Methods of service.py: a store, a world, and exceptions that keep what was written before them.
use hackathon_open_ai.Prelude.{List, [], ◌∷◌, Bool, true, false, Option, none, some}
use hackathon_open_ai.Shared.{Checked, pass, fail, ExecutionCode}
use hackathon_open_ai.Rfq.Store.{Store}

-- How a call ends: `refused` is a `DomainError`, `broken` any other exception.
pub data Ending {ℓ} (A : Type ℓ) : Type ℓ where
  returned : A → Ending A
  refused : ExecutionCode → Ending A
  broken : Ending A

pub record Session (W : Type 0) : Type 0 where
  pub store : Store
  pub world : W

abbrev pub Action : Type 0 → Type 0 → Type 0
Action W A = Session W → Ending A × Session W

module _ {W A : Type 0} where
  unfoldable pub pure : A → Action W A
  pure a s = (returned a, s)

  unfoldable pub refuse : ExecutionCode → Action W A
  refuse e s = (refused e, s)

  unfoldable pub break : Action W A
  break s = (broken, s)

  unfoldable pub reads : (Store → A) → Action W A
  reads f s = (returned (f s.store), s)

  -- `raise DomainError(code)` on a missing value
  unfoldable pub or_refuse : ExecutionCode → Option A → Action W A
  unfolding pure refuse
  or_refuse e none = refuse e
  or_refuse e (some a) = pure a

  unfoldable pub or_break : Option A → Action W A
  unfolding pure break
  or_break none = break
  or_break (some a) = pure a

  unfoldable pub checked : Checked A → Action W A
  unfolding pure refuse
  checked (pass a) = pure a
  checked (fail e) = refuse e

  -- A call of what the environment provides.
  unfoldable pub calls : (W → A × W) → Action W A
  calls f s = let (a, w) = f s.world in (returned a, record s { world = w })

  unfoldable pub asks : (W → A) → Action W A
  asks f s = (returned (f s.world), s)

module _ {W A B : Type 0} where
  unfoldable pub continue : Ending A → (A → Action W B) → Action W B
  continue (returned a) k s = k a s
  continue (refused e) k s = (refused e, s)
  continue broken k s = (broken, s)

  infixl 5 ◌>>=◌ ◌>>◌
  unfoldable pub ◌>>=◌ : Action W A → (A → Action W B) → Action W B
  unfolding continue
  ◌>>=◌ m k s = continue (m s).0 k (m s).1

  unfoldable pub ◌>>◌ : Action W A → Action W B → Action W B
  unfolding ◌>>=◌
  m >> k = m >>= λ _. k

module _ {W : Type 0} where
  unfoldable pub guard : Bool → ExecutionCode → Action W (Unit {0})
  unfolding pure refuse
  guard true e = pure tt
  guard false e = refuse e

  unfoldable pub writes : (Store → Store) → Action W (Unit {0})
  writes f s = (returned tt, record s { store = f s.store })

  -- `if condition: action`
  unfoldable pub when : Bool → Action W (Unit {0}) → Action W (Unit {0})
  unfolding pure
  when true m = m
  when false m = pure tt

module _ {W A B : Type 0} where
  -- A loop over a list, with what each round of it gives.
  unfoldable pub each : (A → Action W B) → List A → Action W (List B)
  unfolding ◌>>=◌ pure
  each f [] = pure []
  each f (a ∷ more) = f a >>= λ b. each f more >>= λ bs. pure (b ∷ bs)
