-- ===== src/Rfq/Returns.antt =====
-- modules/rfq/service.py: what holds where a call returns; one rule for each way to build a call.
use hackathon_open_ai.Prelude.{Bool, true, false, Option, none, some, ◌≡◌, refl, subst}
use hackathon_open_ai.Shared.{ExecutionCode}
use hackathon_open_ai.Rfq.Store.{Store}
use hackathon_open_ai.Rfq.Actions.{
  Action, Ending, returned, refused, broken, Session, pure, refuse, break, reads, or_refuse,
  or_break, calls, guard, continue, ◌>>=◌, ◌>>◌,
}

-- `Q` holds of what is returned, if anything is, and of the store then.
abbrev OnReturn {κ} : {W A : Type 0} → (A → Store → Type κ) → Ending A × Session W → Type κ
OnReturn Q (returned a, s) = Q a s.store
OnReturn Q (refused e, s) = Unit
OnReturn Q (broken, s) = Unit

pub record Gives {κ} {W A : Type 0} (Q : A → Store → Type κ) (o : Ending A × Session W)
    : Type κ where
  pub here : OnReturn Q o

pub Gives-eq {κ} :
    {W A : Type 0} (Q : A → Store → Type κ) (o : Ending A × Session W) (a : A)
    → Gives Q o
    → o.0 ≡ returned a
    → Q a o.1.store
Gives-eq Q o a h e = subst (λ r. OnReturn Q (r, o.1)) e h.here

module _ {κ} {W A B : Type 0} {Q : B → Store → Type κ} where
  continue-Gives {μ} :
      {P : A → Store → Type μ} (o : Ending A × Session W) (k : A → Action W B)
      → Gives P o
      → ((a : A) (t : Session W) → P a t.store → Gives Q (k a t))
      → Gives Q (continue o.0 k o.1)
  unfolding continue
  continue-Gives (returned a, s) k p h = h a s p.here
  continue-Gives (refused e, s) k p h = record { here = tt }
  continue-Gives (broken, s) k p h = record { here = tt }

  pub Gives-bind {μ} :
      {P : A → Store → Type μ} (m : Action W A) (k : A → Action W B) (s : Session W)
      → Gives P (m s)
      → ((a : A) (t : Session W) → P a t.store → Gives Q (k a t))
      → Gives Q ((m >>= k) s)
  unfolding ◌>>=◌
  Gives-bind m k s p h = continue-Gives (m s) k p h

  pub Gives-then {μ} :
      {P : A → Store → Type μ} (m : Action W A) (n : Action W B) (s : Session W)
      → Gives P (m s)
      → ((a : A) (t : Session W) → P a t.store → Gives Q (n t))
      → Gives Q ((m >> n) s)
  unfolding ◌>>◌
  Gives-then m n s p h = Gives-bind m (λ _. n) s p h

module _ {W A : Type 0} where
  pub anything : (o : Ending A × Session W) → Gives (λ a s. Unit {0}) o
  anything (returned a, s) = record { here = tt }
  anything (refused e, s) = record { here = tt }
  anything (broken, s) = record { here = tt }

module _ {κ} {W A B : Type 0} {Q : B → Store → Type κ} where
  -- A step of which nothing needs to be known.
  pub Gives-skip :
      (m : Action W A) (k : A → Action W B) (s : Session W)
      → ((a : A) (t : Session W) → Gives Q (k a t))
      → Gives Q ((m >>= k) s)
  Gives-skip m k s h = Gives-bind m k s (anything (m s)) λ a t _. h a t

  pub Gives-skip_then :
      (m : Action W A) (n : Action W B) (s : Session W)
      → ((t : Session W) → Gives Q (n t))
      → Gives Q ((m >> n) s)
  Gives-skip_then m n s h = Gives-then m n s (anything (m s)) λ _ t _. h t

module _ {κ} {W B : Type 0} {Q : B → Store → Type κ} where
  pub Gives-guard :
      (b : Bool) (e : ExecutionCode) (m : Action W B) (s : Session W)
      → (b ≡ true → Gives Q (m s))
      → Gives Q ((guard b e >> m) s)
  unfolding ◌>>◌ ◌>>=◌ continue guard pure refuse
  Gives-guard true e m s h = h refl
  Gives-guard false e m s h = record { here = tt }

module _ {W A : Type 0} (s : Session W) where
  -- The store is as before, and `R` holds of what is returned.
  abbrev pub Finds : (A → Type 0) → A → Store → Type 0
  Finds R a t = (t ≡ s.store) × R a

  pub pure-Finds : (a : A) → Gives (Finds λ b. b ≡ a) (pure a s)
  unfolding pure
  pure-Finds a = record { here = (refl, refl) }

  pub reads-Finds : (f : Store → A) → Gives (Finds λ a. a ≡ f s.store) (reads f s)
  unfolding reads
  reads-Finds f = record { here = (refl, refl) }

  pub or_refuse-Finds :
      (e : ExecutionCode) (o : Option A) → Gives (Finds λ a. o ≡ some a) (or_refuse e o s)
  unfolding or_refuse pure refuse
  or_refuse-Finds e none = record { here = tt }
  or_refuse-Finds e (some a) = record { here = (refl, refl) }

  pub or_break-Finds : (o : Option A) → Gives (Finds λ a. o ≡ some a) (or_break o s)
  unfolding or_break pure break
  or_break-Finds none = record { here = tt }
  or_break-Finds (some a) = record { here = (refl, refl) }

  pub calls-Finds : (f : W → A × W) → Gives (Finds λ a. a ≡ (f s.world).0) (calls f s)
  unfolding calls
  calls-Finds f = record { here = (refl, refl) }

module _ {W A : Type 0} where
  pub guard-returns :
      (b : Bool) (e : ExecutionCode) (m : Action W A) (s : Session W) (r : A)
      → ((guard b e >> m) s).0 ≡ returned r
      → (b ≡ true) × ((guard b e >> m) s ≡ m s)
  unfolding ◌>>◌ ◌>>=◌ continue guard pure refuse
  guard-returns true e m s r h = (refl, refl)
  guard-returns false e m s r h = absurd cc

  pub guard-passes :
      (b : Bool) (e : ExecutionCode) (m : Action W A) (s : Session W)
      → b ≡ true
      → (guard b e >> m) s ≡ m s
  unfolding ◌>>◌ ◌>>=◌ continue guard pure
  guard-passes true e m s h = refl
  guard-passes false e m s h = absurd cc

  pub guard-refuses :
      (b : Bool) (e : ExecutionCode) (m : Action W A) (s : Session W)
      → b ≡ false
      → (guard b e >> m) s ≡ (refused e, s)
  unfolding ◌>>◌ ◌>>=◌ continue guard refuse
  guard-refuses true e m s h = absurd cc
  guard-refuses false e m s h = refl

module _ {κ} {W A : Type 0} {Q : A → Store → Type κ} where
  pub Gives-pure : (a : A) (s : Session W) → Q a s.store → Gives Q (pure a s)
  unfolding pure
  Gives-pure a s h = record { here = h }

module _ {W A : Type 0} (s : Session W) where
  pub lookup-Finds :
      (f : Store → Option A) (e : ExecutionCode)
      → Gives (Finds s λ a. f s.store ≡ some a) ((reads f >>= or_refuse e) s)
  unfolding reads ◌>>=◌ continue
  lookup-Finds f e = or_refuse-Finds s e (f s.store)

pub Gives-map {κ μ} :
    {W A : Type 0} {P : A → Store → Type κ} (Q : A → Store → Type μ) (o : Ending A × Session W)
    → Gives P o
    → ((a : A) (s : Store) → P a s → Q a s)
    → Gives Q o
Gives-map Q (returned a, s) h f = record { here = f a s.store h.here }
Gives-map Q (refused e, s) h f = record { here = tt }
Gives-map Q (broken, s) h f = record { here = tt }

pub ruleset gives_rules = (Gives-skip, Gives-skip_then, Gives-pure)
