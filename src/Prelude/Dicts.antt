-- ===== src/Prelude/Dicts.antt =====
-- Python's dict, in insertion order, over any keys with a Boolean equality.
use mathlib.Core.Path.{◌≡◌, ap, sym, ◌∙◌}
use mathlib.Core.Logic.{◌↔◌, ◌≢◌, ◌⊎◌, inl, inr}
use mathlib.Core.Bool.{Bool, true, false, ◌&&◌}
use mathlib.Core.Option.{Option, none, some}
use mathlib.Core.List.{List, [], ◌∷◌}
use native.Mathlib.Omega.{arith}
use Prim.Native.Nat.{ℕ}
use Prim.Native.String.{String}
use text.Mathlib.Text.{◌==◌ as str_eq}
use text.Mathlib.TextEquality.{eq_iff as str_eq_iff}
use hackathon_open_ai.Prelude.Tests.{if◌then◌else◌, ◌==◌, ==_iff, Bool-cases}

pub record Eq (K : Type 0) : Type 0 where
  pub same : K → K → Bool
  pub same_iff : (j k : K) → (same j k ≡ true) ↔ (j ≡ k)

instance unfoldable pub string_eq : Eq String
string_eq = record { same = str_eq; same_iff = str_eq_iff }

instance unfoldable pub nat_eq : Eq ℕ
nat_eq = record { same = ◌==◌; same_iff = ==_iff }

instance unfoldable pub pair_eq : {J K : Type 0} → ⦃d : Eq J⦄ → ⦃e : Eq K⦄ → Eq (J × K)
pair_eq ⦃d⦄ ⦃e⦄ = record {
  same = λ p q. d.same p.0 q.0 && e.same p.1 q.1;
  same_iff = λ (a, b) (c, f). ground (arith, d.same_iff a c, e.same_iff b f);
}

abbrev pub Dict : Type 0 → Type 0 → Type 0
Dict K V = List (K × V)

module _ {K V : Type 0} ⦃e : Eq K⦄ where
  -- `d.get(k)`
  unfoldable pub get : Dict K V → K → Option V
  get [] k = none
  get ((j, v) ∷ d) k = let rest = get d k in if e.same j k then some v else rest

  -- `d[k] = v`
  unfoldable pub set : Dict K V → K → V → Dict K V
  set [] k v = (k, v) ∷ []
  set ((j, w) ∷ d) k v = let rest = set d k v in if e.same j k then (j, v) ∷ d else (j, w) ∷ rest

  pub get-empty : (d : Dict K V) (k : K) (v : V) → d ≡ [] → get d k ≢ some v
  unfolding get
  get-empty [] k v e = λ h. absurd cc
  get-empty (x ∷ d) k v e = λ h. absurd cc

  pub get-set_self : (d : Dict K V) (k : K) (v : V) → get (set d k v) k ≡ some v
  unfolding get set
  get-set_self [] k v = ground (arith, e.same_iff k k)
  get-set_self ((j, w) ∷ d) k v = ground (arith, get-set_self d k v)

  pub get-set_other :
      (d : Dict K V) (j k : K) (v : V) → e.same k j ≡ false → get (set d k v) j ≡ get d j
  unfolding get set
  get-set_other [] j k v h = ground arith
  get-set_other ((i, w) ∷ d) j k v h =
      ground (arith, get-set_other d j k v h, e.same_iff i j, e.same_iff i k, e.same_iff k j)

  pub same-ne :
      (d : Dict K V) (j k : K) (v : V) → get d j ≡ some v → get d k ≡ none → e.same k j ≡ false
  same-ne d j k v h fresh = elim (Bool-cases (e.same k j)) [
    | inl same ↦ absurd cc (ap (get d) ((e.same_iff k j).0 same))
    | inr other ↦ other
  ]

  -- What is found after a write is what was written, or was there before.
  pub set-cases :
      (d : Dict K V) (j k : K) (v w : V)
      → get (set d k v) j ≡ some w
      → ((k ≡ j) × (v ≡ w)) ⊎ ((e.same k j ≡ false) × (get d j ≡ some w))
  set-cases d j k v w h = elim (Bool-cases (e.same k j)) [
    | inl same ↦
        let p = (e.same_iff k j).0 same in
        inl (p, cc (ap (get (set d k v)) p, get-set_self d k v, h))
    | inr other ↦ inr (other, sym (get-set_other d j k v other) ∙ h)
  ]

-- `d.values()`
unfoldable pub values : {K V : Type 0} → Dict K V → List V
values [] = []
values ((k, v) ∷ d) = v ∷ values d
