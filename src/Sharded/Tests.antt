-- ===== src/Sharded/Tests.antt =====
-- The theorems about sharded.go at concrete maps, and runs of the code.
use mappo.Prelude.{
  ◌⊎◌, ◌<◌, ℕ, ◌+◌, ◌*◌, ◌≤◌, ◌^◌, ◌≡◌, refl, none, some, List, [], ◌∷◌, map, Bool, true, false,
  Option, arith, nat_comparable, if◌then◌else◌, value_or, ◌∙◌, sym, ap, length, nat_beq, ◌==◌,
}
use mathlib.Core.Path.{subst}
use mappo.MapOf.{MapOf}
use mappo.MapOf.Assoc.{assoc}
use mappo.Pairs.{lookup, Once}
use mappo.Run.{Run, ok, panic, out_of_fuel}
use mappo.Time.{is_positive}
use mappo.Visit.{visit}
use mappo.Sharded
use mappo.Sharded.{Sharded}
use mappo.Sharded.Bits
use mappo.Sharded.Fresh
use mappo.Sharded.Route
use mappo.Sharded.Route.{WellFormed, view}
use mappo.Sharded.Sweep
use mappo.Sharded.Whole

abbrev xsync : MapOf ℕ ℕ
xsync = assoc ℕ ℕ

abbrev hash : ℕ → ℕ
hash k = k * 5

program : Unit {0}
unfolding assoc is_positive lookup Sharded.and_bits Sharded.bit_length Sharded.shard_count
    Sharded.new_sharded_with_config Sharded.shard_index Sharded.get_shard Sharded.write_shard
    Sharded.get Sharded.store
program = tt

abbrev result_or : {A : Type 0} → A → Run A → A
result_or a (ok b) = b
result_or a panic = a
result_or a out_of_fuel = a

abbrev new : Sharded xsync
new = Sharded.new_sharded_with_config xsync 8 3

abbrev sample : Sharded xsync
sample = result_or new (Sharded.store xsync hash 6 60 new)

-- Three shards are asked for, and four are made.
new_run : (length new.shards ≡ 4) × (new.mask ≡ 3)
unfolding program
new_run = (refl, refl)

sample_run : Sharded.store xsync hash 6 60 new ≡ ok sample
unfolding program
sample_run = refl

sample_reads :
    (Sharded.get xsync hash 6 sample ≡ ok (some 60)) × (Sharded.get xsync hash 2 sample ≡ ok none)
unfolding program
sample_reads = (refl, refl)

new-WellFormed : WellFormed hash new
new-WellFormed =
    (Fresh.new_sharded-WellFormed hash 8 3 3 (unfold program in refl) (omega arith) (omega arith)).0

sample-WellFormed : WellFormed hash sample
sample-WellFormed =
    let (sm, run, well, _) = Route.store-view hash 6 60 new new-WellFormed in
    subst (λ x. WellFormed hash x) (ap (result_or new) (sym run ∙ sample_run)) well

shard_count-power_example :
    (j : ℕ) × (Sharded.shard_count 6 0 ≡ 2 ^ j)
    × (1 ≤ j)
    × (6 ≤ 2 ^ j)
    × (2 ^ j ≤ 2 * 6)
    × (((◌≡◌ {A = ℕ} 6 1) × (j ≡ 1)) ⊎ (2 ^ j < 2 * 6))
shard_count-power_example =
    Bits.shard_count-power 6 0 6 (unfold program in refl) (omega arith) (omega arith)

store-view_example :
    (sm' : Sharded xsync) × (Sharded.store xsync hash 2 20 sample ≡ ok sm')
    × WellFormed hash sm'
    × ((j : ℕ) → Sharded.get xsync hash j sm' ≡ ok (if 2 == j then some 20 else view hash j sample))
store-view_example = Route.store-view hash 2 20 sample sample-WellFormed

abbrev drop : Option ℕ → ℕ × Bool
drop old = (value_or old 0 + 1, false)

-- A comparison of values that cannot be compared.
abbrev uncomparable : ℕ → ℕ → Run Bool
uncomparable x y = panic

sample_holds : view hash 6 sample ≡ some 60
unfolding program
sample_holds = refl

abbrev collect : ℕ → ℕ → List ℕ → List ℕ × Bool
collect k v seen = (v ∷ seen, true)

range-view_example :
    (l : List (ℕ × ℕ)) × Once l
    × ((j : ℕ) → Sharded.get xsync hash j sample ≡ ok (lookup j l))
    × (Whole.range xsync collect [] sample ≡ visit collect l [])
    × (Whole.keys xsync sample ≡ map (λ e. e.0) l)
    × (Whole.values xsync sample ≡ map (λ e. e.1) l)
    × (Whole.len xsync sample ≡ length l)
range-view_example = Sweep.range-view hash collect [] sample sample-WellFormed

abbrev is_sixty : ℕ → ℕ → Bool
is_sixty k v = nat_beq v 60
