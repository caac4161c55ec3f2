-- ===== src/Scoring/Sorting.antt =====
-- modules/comparison/scoring.py: the sort of `score_quotes` orders the keys and keeps the results.
use hackathon_open_ai.Prelude.{All, ◌≡◌, refl, Bool, true, false, List, [], ◌∷◌, map, if◌then◌else◌}
use mathlib.Core.List.{Perm}
use mathlib.Core.List.Perm
use hackathon_open_ai.Scoring.Score.{ScoreResult}
use hackathon_open_ai.Scoring.Keys.{compare_key, not_after, total_order}
use hackathon_open_ai.Scoring.Ranking.{Keyed, insert, sort}

abbrev pub IsBefore : Keyed → Keyed → Type 0
IsBefore k l = not_after (compare_key k.key l.key) ≡ true

abbrev pub StartsAfter : Keyed → List Keyed → Type 0
StartsAfter k [] = Unit
StartsAfter k (l ∷ ls) = IsBefore k l

-- Each item goes before the next.
abbrev pub IsSorted : List Keyed → Type 0
IsSorted [] = Unit
IsSorted (k ∷ ks) = StartsAfter k ks × IsSorted ks

insert_place :
    (b : Bool) (k l : Keyed) (ls : List Keyed)
    → (b ≡ true → IsBefore k l)
    → (b ≡ false → IsBefore l k)
    → IsSorted (l ∷ ls)
    → IsSorted (insert k ls)
    → ((m : Keyed) → StartsAfter m ls → IsBefore m k → StartsAfter m (insert k ls))
    → IsSorted (if b then k ∷ l ∷ ls else l ∷ insert k ls)
insert_place true k l ls h g s t u = (h refl, s)
insert_place false k l ls h g s t u = (u l s.0 (g refl), t)

starts_branch :
    (b : Bool) (m k l : Keyed) (ls rest : List Keyed)
    → IsBefore m k
    → IsBefore m l
    → StartsAfter m (if b then k ∷ l ∷ ls else l ∷ rest)
starts_branch true m k l ls rest h g = h
starts_branch false m k l ls rest h g = g

insert-StartsAfter :
    (k m : Keyed) (ls : List Keyed) → StartsAfter m ls → IsBefore m k → StartsAfter m (insert k ls)
unfolding insert
insert-StartsAfter k m [] h g = g
insert-StartsAfter k m (l ∷ ls) h g = starts_branch _ m k l ls (insert k ls) g h

insert-IsSorted : (k : Keyed) (ls : List Keyed) → IsSorted ls → IsSorted (insert k ls)
unfolding insert
insert-IsSorted k [] h = (tt, tt)
insert-IsSorted k (l ∷ ls) h =
    insert_place (not_after (compare_key k.key l.key)) k l ls (λ e. e) (total_order k.key l.key) h
      (insert-IsSorted k ls h.1) (λ m. insert-StartsAfter k m ls)

pub sort-IsSorted : (ks : List Keyed) → IsSorted (sort ks)
unfolding sort
sort-IsSorted [] = tt
sort-IsSorted (k ∷ ks) = insert-IsSorted k (sort ks) (sort-IsSorted ks)

module _ (P : Keyed → Type 0) where
  branch-All :
      (b : Bool) (k l : Keyed) (ls rest : List Keyed)
      → P k
      → All P (l ∷ ls)
      → All P rest
      → All P (if b then k ∷ l ∷ ls else l ∷ rest)
  branch-All true k l ls rest h g r = (h, g)
  branch-All false k l ls rest h g r = (g.0, r)

  insert-All : (k : Keyed) (ls : List Keyed) → P k → All P ls → All P (insert k ls)
  unfolding insert
  insert-All k [] h g = (h, tt)
  insert-All k (l ∷ ls) h g = branch-All _ k l ls (insert k ls) h g (insert-All k ls h g.1)

  pub sort-All : (ks : List Keyed) → All P ks → All P (sort ks)
  unfolding sort
  sort-All [] h = tt
  sort-All (k ∷ ks) h = insert-All k (sort ks) h.0 (sort-All ks h.1)

abbrev pub results : List Keyed → List ScoreResult
results ks = map (λ k. k.result) ks

insert_branch :
    (b : Bool) (k l : Keyed) (ls rest : List Keyed)
    → Perm (results rest) (k.result ∷ results ls)
    → Perm (results (if b then k ∷ l ∷ ls else l ∷ rest)) (k.result ∷ l.result ∷ results ls)
insert_branch true k l ls rest h = Perm.refl _
insert_branch false k l ls rest h =
    Perm.trans (Perm.cons l.result h) (Perm.swap k.result l.result (results ls))

insert-Perm : (k : Keyed) (ls : List Keyed) → Perm (results (insert k ls)) (k.result ∷ results ls)
unfolding insert
insert-Perm k [] = Perm.refl _
insert-Perm k (l ∷ ls) = insert_branch _ k l ls (insert k ls) (insert-Perm k ls)

pub sort-Perm : (ks : List Keyed) → Perm (results (sort ks)) (results ks)
unfolding sort
sort-Perm [] = Perm.nil
sort-Perm (k ∷ ks) = Perm.trans (insert-Perm k (sort ks)) (Perm.cons k.result (sort-Perm ks))
