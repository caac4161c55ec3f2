-- ===== src/Rfq/Keeps.antt =====
-- modules/rfq/service.py: what a call keeps in the store, whether it returns or raises; one rule for
-- each way to build a call.
use hackathon_open_ai.Prelude.{List, [], ◌∷◌, ◌≡◌, refl, Bool, true, false, Option, none, some}
use hackathon_open_ai.Rfq.Actions.{
  each, Action, Ending, returned, refused, broken, Session, pure, refuse, break, reads, or_refuse,
  or_break, checked, calls, asks, guard, when, writes, continue, ◌>>=◌, ◌>>◌,
}
use hackathon_open_ai.Shared.{Checked, pass, fail, ExecutionCode}
use hackathon_open_ai.Rfq.Store.{Store}

-- `m` keeps `P` of the store, whether it returns or raises.
pub record Keeps {W A : Type 0} (P : Store → Type 0) (m : Action W A) : Type 0 where
  pub at : (s : Session W) → P s.store → P (m s).1.store

module _ {W A : Type 0} {P : Store → Type 0} where
  pub Keeps-pure : (a : A) → Keeps {W = W} P (pure a)
  unfolding pure
  Keeps-pure a = record { at = λ s h. h }

  pub Keeps-refuse : (e : ExecutionCode) → Keeps {W = W} {A = A} P (refuse e)
  unfolding refuse
  Keeps-refuse e = record { at = λ s h. h }

  pub Keeps-break : Keeps {W = W} {A = A} P break
  unfolding break
  Keeps-break = record { at = λ s h. h }

  pub Keeps-reads : (f : Store → A) → Keeps {W = W} P (reads f)
  unfolding reads
  Keeps-reads f = record { at = λ s h. h }

  pub Keeps-or_refuse : (e : ExecutionCode) (o : Option A) → Keeps {W = W} P (or_refuse e o)
  unfolding or_refuse
  Keeps-or_refuse e none = Keeps-refuse e
  Keeps-or_refuse e (some a) = Keeps-pure a

  pub Keeps-or_break : (o : Option A) → Keeps {W = W} P (or_break o)
  unfolding or_break
  Keeps-or_break none = Keeps-break
  Keeps-or_break (some a) = Keeps-pure a

  pub Keeps-checked : (r : Checked A) → Keeps {W = W} P (checked r)
  unfolding checked
  Keeps-checked (pass a) = Keeps-pure a
  Keeps-checked (fail e) = Keeps-refuse e

  pub Keeps-calls : (f : W → A × W) → Keeps P (calls f)
  unfolding calls
  Keeps-calls f = record { at = λ s h. h }

  pub Keeps-asks : (f : W → A) → Keeps P (asks f)
  unfolding asks
  Keeps-asks f = record { at = λ s h. h }

module _ {W A B : Type 0} {P : Store → Type 0} where
  Keeps-continue :
      (r : Ending A) (k : A → Action W B)
      → ((a : A) → r ≡ returned a → Keeps P (k a))
      → Keeps P (continue r k)
  unfolding continue
  Keeps-continue (returned a) k h = h a refl
  Keeps-continue (refused e) k h = record { at = λ s p. p }
  Keeps-continue broken k h = record { at = λ s p. p }

  pub Keeps-bind :
      (m : Action W A) (k : A → Action W B)
      → Keeps P m
      → ((a : A) → Keeps P (k a))
      → Keeps P (m >>= k)
  unfolding ◌>>=◌
  Keeps-bind m k hm hk = record {
    at = λ s p. (Keeps-continue (m s).0 k (λ a _. hk a)).at (m s).1 (hm.at s p);
  }

  pub Keeps-then : (m : Action W A) (n : Action W B) → Keeps P m → Keeps P n → Keeps P (m >> n)
  unfolding ◌>>◌
  Keeps-then m n hm hn = Keeps-bind m (λ _. n) hm λ _. hn

module _ {W : Type 0} {P : Store → Type 0} where
  pub Keeps-guard : (b : Bool) (e : ExecutionCode) → Keeps {W = W} P (guard b e)
  unfolding guard
  Keeps-guard true e = Keeps-pure tt
  Keeps-guard false e = Keeps-refuse e

  pub Keeps-when :
      (b : Bool) (m : Action W (Unit {0})) → (b ≡ true → Keeps P m) → Keeps P (when b m)
  unfolding when
  Keeps-when true m h = h refl
  Keeps-when false m h = Keeps-pure tt

  pub Keeps-writes :
      (f : Store → Store) → ((s : Store) → P s → P (f s)) → Keeps {W = W} P (writes f)
  unfolding writes
  Keeps-writes f h = record { at = λ s p. h s.store p }

  -- What follows a guard may use that it held.
  pub Keeps-guarded :
      {B : Type 0} (b : Bool) (e : ExecutionCode) (m : Action W B)
      → (b ≡ true → Keeps P m)
      → Keeps P (guard b e >> m)
  unfolding ◌>>◌ ◌>>=◌ continue guard
  Keeps-guarded true e m h = record { at = λ s p. (h refl).at s p }
  Keeps-guarded false e m h = record { at = λ s p. p }

module _ {W A B : Type 0} {P : Store → Type 0} where
  pub Keeps-each :
      (f : A → Action W B) (xs : List A) → ((a : A) → Keeps P (f a)) → Keeps P (each f xs)
  unfolding each
  Keeps-each f [] h = Keeps-pure []
  Keeps-each f (a ∷ more) h = record {
    at = λ s p.
        (Keeps-bind (f a) (λ b. each f more >>= λ bs. pure (b ∷ bs)) (h a)
            λ b.
              Keeps-bind (each f more) (λ bs. pure (b ∷ bs)) (Keeps-each f more h)
                λ bs. Keeps-pure (b ∷ bs)).at
          s p;
  }

pub ruleset keeps_rules = (
  Keeps-pure, Keeps-refuse, Keeps-break, Keeps-reads, Keeps-or_refuse, Keeps-or_break,
  Keeps-checked, Keeps-calls, Keeps-asks, Keeps-bind, Keeps-then, Keeps-guard, Keeps-when,
  Keeps-each,
)
