-- ===== src/Mapper/Tests.antt =====
-- The theorems about mapper.go at concrete maps, and runs of the code.
use mappo.Prelude.{
  ltb, ◌/◌, ◌%◌, ◌⊎◌, if◌then◌else◌, true, false, ℕ, ◌+◌, ◌≤◌, ◌≡◌, refl, none, some, List, [], ◌∷◌,
  arith, nat_comparable, ◌==◌,
}
use mappo.Mapper
use mappo.Mapper.{Mapper, nil, content}
use mappo.Mapper.Combine
use mappo.Mapper.Renamed
use mappo.Mapper.Renamed.{renamed, swapped}
use mappo.Mapper.Sorted.{AnyKey, other, text_lt, less}
use mappo.Time.{signed_gt}
use mappo.Mapper.Combine.{latest, Visits, AllOnce}
use mappo.Pairs.{lookup, remove, assign, count, to_nat, Once}
use mappo.Run.{ok, panic}

program : Unit {0}
unfolding lookup remove assign count Mapper.len Mapper.is_empty Mapper.ok_get Mapper.pop
    Mapper.update Mapper.assign_all Mapper.merge_all Mapper.assign_new Mapper.clone
    Mapper.merge_loop Mapper.merge Mapper.merge_with_loop Mapper.merge_with Mapper.map_keys
    Mapper.invert
program = tt

abbrev in_order : List (ℕ × ℕ) → List (ℕ × ℕ)
in_order l = l

in_order-Visits : Visits in_order
in_order-Visits l once = (once, λ k. refl)

abbrev first : Mapper ℕ ℕ
first = record { m = some ((1, 10) ∷ (2, 20) ∷ []) }

abbrev second : Mapper ℕ ℕ
second = record { m = some ((2, 21) ∷ (3, 20) ∷ []) }

-- An update of a nil map returns a value that is then not there.
nil_run : Mapper.update 1 (λ o. 5) (nil {K = ℕ} {V = ℕ}) ≡ (5, nil)
unfolding Mapper.update
nil_run = refl

merge_run :
    Mapper.merge_with in_order (λ k a b. a + b) (first ∷ second ∷ [])
    ≡ ok (record { m = some ((1, 10) ∷ (2, 41) ∷ (3, 20) ∷ []) })
unfolding program
merge_run = refl

invert_runs :
    (Mapper.invert in_order first ≡ ok (record { m = some ((10, 1) ∷ (20, 2) ∷ []) }))
    × (Mapper.map_keys in_order (λ k. 7) second ≡ panic)
unfolding program
invert_runs = (refl, refl)

pair_Once :
    (a b v w : ℕ) → ((k : ℕ) → to_nat (a == k) + to_nat (b == k) ≤ 1) → Once ((a, v) ∷ (b, w) ∷ [])
unfolding count
pair_Once a b v w h k = omega (arith, h k)

ok_get-merge_example :
    Mapper.ok_get 2 (Mapper.merge in_order (first ∷ second ∷ []))
    ≡ latest 2 none (first ∷ second ∷ [])
ok_get-merge_example =
    Combine.ok_get-merge in_order 2 (first ∷ second ∷ []) in_order-Visits
      (pair_Once 1 2 10 20 (λ k. ground arith), (pair_Once 2 3 21 20 (λ k. ground arith), tt))

-- Decimal digits of small numbers.
abbrev digits : ℕ → List ℕ
digits n = if ltb n 10 then (48 + n) ∷ [] else (48 + n / 10) ∷ (48 + n % 10) ∷ []

-- Keys of a named integer type go by their digits: 10 is less than 9. Of two keys of different types
-- neither is less.
less_runs :
    (less {F = ℕ} {O = ℕ} ltb (λ k. elim k [ other n ↦ digits n | _ ↦ [] ]) (other 10) (other 9)
      ≡ true)
    × (less {F = ℕ} {O = ℕ} ltb (λ k. []) (AnyKey.int 10) (AnyKey.int 9) ≡ false)
    × (less {F = ℕ} {O = ℕ} ltb (λ k. []) (AnyKey.int 9) (AnyKey.text []) ≡ false)
unfolding less text_lt signed_gt
less_runs = (refl, refl, refl)

invert_lem_example :
    (((k : ℕ) × (2 ≤ count k (renamed in_order (λ k. 7) first))
        × (Mapper.map_keys in_order (λ k. 7) first ≡ panic))
      ⊎ (Once (renamed in_order (λ k. 7) first)
          × (m : Mapper ℕ ℕ) × (Mapper.map_keys in_order (λ k. 7) first ≡ ok m)
          × ((k : ℕ) → Mapper.ok_get k m ≡ lookup k (renamed in_order (λ k. 7) first))))
    × (((v : ℕ) × (2 ≤ count v (swapped in_order first)) × (Mapper.invert in_order first ≡ panic))
        ⊎ (Once (swapped in_order first)
            × (m : Mapper ℕ ℕ) × (Mapper.invert in_order first ≡ ok m)
            × ((v : ℕ) → Mapper.ok_get v m ≡ lookup v (swapped in_order first))))
invert_lem_example = Renamed.invert_lem in_order (λ k. 7) first (unfold program in refl)
