-- ===== src/Rfq/Leaves.antt =====
-- modules/rfq/service.py: calls that keep a property of the store and say something of what they
-- return, on which the rest may rely.
use hackathon_open_ai.Prelude.{Option, none, some, ◌≡◌, refl, Bool, true, false}
use hackathon_open_ai.Rfq.Keeps.{Keeps}
use hackathon_open_ai.Shared.{ExecutionCode}
use hackathon_open_ai.Rfq.Store.{Store}
use hackathon_open_ai.Rfq.Actions.{
  guard, Action, Ending, returned, refused, broken, Session, pure, refuse, reads, or_refuse,
  continue, ◌>>=◌, ◌>>◌,
}

abbrev After :
    {W A : Type 0} → (Store → Type 0) → (A → Store → Type 0) → Ending A × Session W → Type 0
After P R (returned a, s) = P s.store × R a s.store
After P R (refused e, s) = P s.store
After P R (broken, s) = P s.store

-- `P` is kept, and what is returned is so that `R`.
pub record Leaves {W A : Type 0} (P : Store → Type 0) (R : A → Store → Type 0) (m : Action W A)
    : Type 0 where
  pub at : (s : Session W) → P s.store → After P R (m s)

module _ {W A : Type 0} (P : Store → Type 0) (R : A → Store → Type 0) where
  kept : (o : Ending A × Session W) → After P R o → P o.1.store
  kept (returned a, s) h = h.0
  kept (refused e, s) h = h
  kept (broken, s) h = h

  forget :
      (F : Store → Type 0) (o : Ending A × Session W) → After (λ s. P s × F s) R o → After P R o
  forget F (returned b, s) h = (h.0.0, h.1)
  forget F (refused e, s) h = h.0
  forget F (broken, s) h = h.0

module _ {W A : Type 0} {P : Store → Type 0} {R : A → Store → Type 0} where
  pub Leaves-pure : (a : A) → ((s : Store) → P s → R a s) → Leaves {W = W} P R (pure a)
  unfolding pure
  Leaves-pure a h = record { at = λ s p. (p, h s.store p) }

  pub Keeps-of : (m : Action W A) → Leaves P R m → Keeps P m
  Keeps-of m h = record { at = λ s p. kept P R (m s) (h.at s p) }

module _ {W A B : Type 0} {P : Store → Type 0} {R : A → Store → Type 0} where
  continue-Keeps :
      (o : Ending A × Session W) (k : A → Action W B)
      → After P R o
      → ((a : A) → Keeps (λ s. P s × R a s) (k a))
      → P (continue o.0 k o.1).1.store
  unfolding continue
  continue-Keeps (returned a, s) k p h = ((h a).at s p).0
  continue-Keeps (refused e, s) k p h = p
  continue-Keeps (broken, s) k p h = p

  pub Keeps-from :
      (m : Action W A) (k : A → Action W B)
      → Leaves P R m
      → ((a : A) → Keeps (λ s. P s × R a s) (k a))
      → Keeps P (m >>= k)
  unfolding ◌>>=◌
  Keeps-from m k hm hk = record { at = λ s p. continue-Keeps (m s) k (hm.at s p) hk }

  module _ {Q : B → Store → Type 0} where
    continue-Leaves :
        (o : Ending A × Session W) (k : A → Action W B)
        → After P R o
        → ((a : A) → Leaves (λ s. P s × R a s) Q (k a))
        → After P Q (continue o.0 k o.1)
    unfolding continue
    continue-Leaves (returned a, s) k p h = forget P Q (R a) (k a s) ((h a).at s p)
    continue-Leaves (refused e, s) k p h = p
    continue-Leaves (broken, s) k p h = p

    pub Leaves-from :
        (m : Action W A) (k : A → Action W B)
        → Leaves P R m
        → ((a : A) → Leaves (λ s. P s × R a s) Q (k a))
        → Leaves P Q (m >>= k)
    unfolding ◌>>=◌
    Leaves-from m k hm hk = record { at = λ s p. continue-Leaves (m s) k (hm.at s p) hk }

module _ {W A B : Type 0} {P : Store → Type 0} {Q : B → Store → Type 0} where
  continue-Leaves-After :
      (o : Ending A × Session W) (k : A → Action W B)
      → P o.1.store
      → ((a : A) → Leaves P Q (k a))
      → After P Q (continue o.0 k o.1)
  unfolding continue
  continue-Leaves-After (returned a, s) k p h = (h a).at s p
  continue-Leaves-After (refused e, s) k p h = p
  continue-Leaves-After (broken, s) k p h = p

  pub Leaves-bind :
      (m : Action W A) (k : A → Action W B)
      → Keeps P m
      → ((a : A) → Leaves P Q (k a))
      → Leaves P Q (m >>= k)
  unfolding ◌>>=◌
  Leaves-bind m k hm hk = record { at = λ s p. continue-Leaves-After (m s) k (hm.at s p) hk }

  pub Leaves-then :
      (m : Action W A) (n : Action W B) → Keeps P m → Leaves P Q n → Leaves P Q (m >> n)
  unfolding ◌>>◌
  Leaves-then m n hm hn = Leaves-bind m (λ _. n) hm λ _. hn

pub ruleset leaves_rules = (Leaves-pure, Leaves-bind, Leaves-then)

module _ {W A : Type 0} {P : Store → Type 0} where
  pub Leaves-reads : (f : Store → A) → Leaves {W = W} P (λ a s. f s ≡ a) (reads f)
  unfolding reads
  Leaves-reads f = record { at = λ s p. (p, refl) }

  -- A lookup finds what the store holds.
  pub Leaves-found :
      (f : Store → Option A) (e : ExecutionCode)
      → Leaves {W = W} P (λ a s. f s ≡ some a) (reads f >>= or_refuse e)
  unfolding reads ◌>>=◌ continue or_refuse pure refuse
  Leaves-found f e = record { at = λ s p. found (f s.store) s p refl }
    where
      found :
          (o : Option A) (s : Session W)
          → P s.store
          → f s.store ≡ o
          → After P (λ a t. f t ≡ some a) (or_refuse e o s)
      found none s p h = p
      found (some a) s p h = (p, h)

module _ {W A : Type 0} (P : Store → Type 0) (R : A → Store → Type 0) where
  weaken :
      (Q : A → Store → Type 0) (o : Ending A × Session W)
      → After P R o
      → ((a : A) (s : Store) → P s → R a s → Q a s)
      → After P Q o
  weaken Q (returned a, s) h f = (h.0, f a s.store h.0 h.1)
  weaken Q (refused e, s) h f = h
  weaken Q (broken, s) h f = h

module _ {W A : Type 0} {P : Store → Type 0} {R : A → Store → Type 0} where
  pub Leaves-weaken :
      {Q : A → Store → Type 0} (m : Action W A)
      → Leaves P R m
      → ((a : A) (s : Store) → P s → R a s → Q a s)
      → Leaves P Q m
  Leaves-weaken {Q} m h f = record { at = λ s p. weaken P R Q (m s) (h.at s p) f }

-- Where `P` holds before, `Q` holds after, whether the call returns or raises.
pub record Leads {W A : Type 0} (P Q : Store → Type 0) (m : Action W A) : Type 0 where
  pub at : (s : Session W) → P s.store → Q (m s).1.store

module _ {W A B : Type 0} {P Q : Store → Type 0} (weaker : (s : Store) → P s → Q s) where
  continue-Leads :
      (o : Ending A × Session W) (k : A → Action W B)
      → P o.1.store
      → ((a : A) → Leads P Q (k a))
      → Q (continue o.0 k o.1).1.store
  unfolding continue
  continue-Leads (returned a, s) k p h = (h a).at s p
  continue-Leads (refused e, s) k p h = weaker s.store p
  continue-Leads (broken, s) k p h = weaker s.store p

  pub Leads-bind :
      (m : Action W A) (k : A → Action W B)
      → Keeps P m
      → ((a : A) → Leads P Q (k a))
      → Leads P Q (m >>= k)
  unfolding ◌>>=◌
  Leads-bind m k hm hk = record { at = λ s p. continue-Leads (m s) k (hm.at s p) hk }

  pub Leads-then : (m : Action W A) (n : Action W B) → Keeps P m → Leads P Q n → Leads P Q (m >> n)
  unfolding ◌>>◌
  Leads-then m n hm hn = Leads-bind m (λ _. n) hm λ _. hn

module _ {W A B : Type 0} {P : Store → Type 0} {R : A → Store → Type 0} where
  continue-kept :
      (o : Ending A × Session W) (k : A → Action W B)
      → After P R o
      → ((a : A) → Leads (λ s. P s × R a s) P (k a))
      → P (continue o.0 k o.1).1.store
  unfolding continue
  continue-kept (returned a, s) k p h = (h a).at s p
  continue-kept (refused e, s) k p h = p
  continue-kept (broken, s) k p h = p

  -- What is found is used up by the rest, which keeps `P` alone.
  pub Keeps-using :
      (m : Action W A) (k : A → Action W B)
      → Leaves P R m
      → ((a : A) → Leads (λ s. P s × R a s) P (k a))
      → Keeps P (m >>= k)
  unfolding ◌>>=◌
  Keeps-using m k hm hk = record { at = λ s p. continue-kept (m s) k (hm.at s p) hk }

module _ {W A B : Type 0} {P : Store → Type 0} {F : A → Type 0} where
  continue-with :
      (o : Ending A × Session W) (k : A → Action W B)
      → After P (λ a _. F a) o
      → ((a : A) → F a → Keeps P (k a))
      → P (continue o.0 k o.1).1.store
  unfolding continue
  continue-with (returned a, s) k p h = (h a p.1).at s p.0
  continue-with (refused e, s) k p h = p
  continue-with (broken, s) k p h = p

  -- What is known of the value that is returned, apart from the store, the rest may use.
  pub Keeps-with :
      (m : Action W A) (k : A → Action W B)
      → Leaves P (λ a _. F a) m
      → ((a : A) → F a → Keeps P (k a))
      → Keeps P (m >>= k)
  unfolding ◌>>=◌
  Keeps-with m k hm hk = record { at = λ s p. continue-with (m s) k (hm.at s p) hk }

  module _ {Q : B → Store → Type 0} where
    continue-Leaves_with :
        (o : Ending A × Session W) (k : A → Action W B)
        → After P (λ a _. F a) o
        → ((a : A) → F a → Leaves P Q (k a))
        → After P Q (continue o.0 k o.1)
    unfolding continue
    continue-Leaves_with (returned a, s) k p h = (h a p.1).at s p.0
    continue-Leaves_with (refused e, s) k p h = p
    continue-Leaves_with (broken, s) k p h = p

    pub Leaves-with :
        (m : Action W A) (k : A → Action W B)
        → Leaves P (λ a _. F a) m
        → ((a : A) → F a → Leaves P Q (k a))
        → Leaves P Q (m >>= k)
    unfolding ◌>>=◌
    Leaves-with m k hm hk = record { at = λ s p. continue-Leaves_with (m s) k (hm.at s p) hk }

module _ {W B : Type 0} {P : Store → Type 0} {Q : B → Store → Type 0} where
  pub Leaves-guarded :
      (b : Bool) (e : ExecutionCode) (m : Action W B)
      → (b ≡ true → Leaves P Q m)
      → Leaves P Q (guard b e >> m)
  unfolding ◌>>◌ ◌>>=◌ continue guard pure refuse
  Leaves-guarded true e m h = h refl
  Leaves-guarded false e m h = record { at = λ s p. p }
