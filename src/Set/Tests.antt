-- ===== src/Set/Tests.antt =====
-- The theorems about set.go at concrete sets, and runs of the code.
use mappo.Prelude.{
  ℕ, ◌≡◌, refl, none, some, List, [], ◌∷◌, Bool, true, false, ◌&&◌, ◌||◌, not, nat_comparable,
  nat_beq,
}
use native.Mathlib.Omega.{arith}
use mappo.Set
use mappo.Set.{Set, content}
use mappo.Set.Elements.{Distinct}
use mappo.Set.Kept
use mappo.Set.Laws

-- The order of an iteration: the second element comes first.
abbrev swapped : List ℕ → List ℕ
swapped [] = []
swapped (x ∷ []) = x ∷ []
swapped (x ∷ y ∷ l) = y ∷ x ∷ l

swapped-Visits : Laws.Visits swapped
unfolding Set.member
swapped-Visits y [] = refl
swapped-Visits y (x ∷ []) = refl
swapped-Visits y (x ∷ z ∷ l) = ground arith

program : Unit {0}
unfolding Set.new_set Set.union Set.symmetric_difference Set.equal Set.is_subset
program = tt

abbrev small : Set ℕ
small = Set.new_set (1 ∷ 2 ∷ [])

abbrev other : Set ℕ
other = Set.new_set (2 ∷ 3 ∷ 2 ∷ [])

-- The zero value, with a nil map.
abbrev nil : Set ℕ
nil = record { m = none }

small-Distinct : Distinct (content small)
small-Distinct = (Kept.remove-Distinct swapped 1 1 (λ x. true) (1 ∷ 2 ∷ []) nil nil tt).0

other-Distinct : Distinct (content other)
other-Distinct =
    (Kept.remove-Distinct swapped 1 1 (λ x. true) (2 ∷ 3 ∷ 2 ∷ []) small small small-Distinct).0

union_run :
    (Set.union swapped small other ≡ record { m = some (1 ∷ 3 ∷ 2 ∷ []) })
    × (Set.equal swapped small other ≡ false)
    × (Set.is_subset swapped small (Set.union swapped small other) ≡ true)
unfolding program
union_run = (refl, refl, refl)

abbrev is_two : ℕ → Bool
is_two x = nat_beq x 2

has-symmetric_difference_example :
    (Set.has 2 (Set.union swapped small other) ≡ (Set.has 2 small || Set.has 2 other))
    × (Set.has 2 (Set.intersection swapped small other) ≡ (Set.has 2 small && Set.has 2 other))
    × (Set.has 2 (Set.difference swapped small other) ≡ (Set.has 2 small && not (Set.has 2 other)))
    × (Set.has 2 (Set.symmetric_difference swapped small other) ≡ (
        (Set.has 2 small && not (Set.has 2 other)) || (Set.has 2 other && not (Set.has 2 small))))
    × (Set.has 2 (Set.filter swapped is_two small) ≡ (Set.has 2 small && is_two 2))
    × (Set.has 2 (Set.clone swapped small) ≡ Set.has 2 small)
has-symmetric_difference_example =
    Laws.has-symmetric_difference swapped 2 is_two small other swapped-Visits

equal-has_example :
    (Set.equal swapped small other ≡ true → (x : ℕ) → Set.has x small ≡ Set.has x other)
    × (((x : ℕ) → Set.has x small ≡ Set.has x other) → Set.equal swapped small other ≡ true)
equal-has_example = Laws.equal-has swapped small other swapped-Visits small-Distinct other-Distinct
