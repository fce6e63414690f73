-- ===== src/Cache/Tests.antt =====
-- The theorems about cache.go at a concrete cache, and runs of the code.
use mappo.Prelude.{
  ℕ, suc, ◌+◌, ◌≡◌, refl, ◌*◌, none, some, List, [], ◌∷◌, map, Bool, true, false, ◌||◌, ◌⊎◌, ◌&&◌,
  arith, nat_comparable, ◌==◌, if◌then◌else◌, ltb,
}
use mappo.Cache
use mappo.Cache.{
  Cache, Item, has_expired, is_zero, unix_nano, exp_after, modify, take_current, replace_expired,
}
use mappo.Cache.Combined
use mappo.Cache.Computed
use mappo.Cache.Fresh.{Puts}
use mappo.Cache.Entries.{HasItems}
use mappo.Cache.Shown
use mappo.Cache.Steps
use mappo.Cache.Steps.{Reach, Step}
use mappo.Cache.Stored
use mappo.Cache.Stored.{has_item}
use mappo.Cache.View
use mappo.Cache.View.{view, marked_heap}
use mappo.Cache.Whole
use mappo.Otter.{Otter}
use mappo.Otter.Assoc.{assoc_otter}
use mappo.Pairs.{lookup, remove, assign, count, Once}
use mappo.Run.{ok}
use mappo.Time.{is_positive}
use mappo.Visit.{visit}

abbrev otter : Otter ℕ
otter = assoc_otter ℕ

program : Unit {0}
unfolding assoc_otter lookup remove assign count is_zero has_expired is_positive exp_after unix_nano
    modify take_current replace_expired view Combined.live Combined.kept Combined.compute_op
    Combined.update_op Combined.value_of Cache.new_cache Cache.new_item Cache.load Cache.store_ttl
    Cache.load_or_store Cache.load_and_delete Combined.get_or_set Combined.get_or_compute
    Combined.update_item Combined.refresh_ttl Whole.range_loop Whole.range Whole.keys Whole.close
program = tt

abbrev heap : ℕ → Item ℕ
heap a = record { value = some (10 * a); last_accessed = 0; exp = 0 }

-- Key 7 has item 1, for 50 nanoseconds from time 100 on.
abbrev fresh : Cache otter ℕ
fresh = Cache.new_cache 10 heap 2

abbrev sample : Cache otter ℕ
sample = Cache.store_ttl 100 7 (some 1) 50 fresh

-- At the deadline the item is there; then it is gone.
sample_runs :
    ((Cache.load 150 7 sample).0 ≡ some 1)
    × ((Cache.load 151 7 sample).0 ≡ none)
    × (Whole.keys 150 sample ≡ ok (7 ∷ []))
    × (Whole.keys 151 sample ≡ ok [])
unfolding program
sample_runs = (refl, refl, refl, refl)

-- The item is computed anew when its time is over.
compute_runs :
    ((Combined.get_or_compute 150 150 7 (λ (n : ℕ). (suc n, (some 5, 0))) 0 sample).0
      ≡ (0, some 10))
    × ((Combined.get_or_compute 151 151 7 (λ (n : ℕ). (suc n, (some 5, 0))) 0 sample).0
        ≡ (1, some 5))
unfolding program
compute_runs = (refl, refl)

sample-opened : sample.closed ≡ false
unfolding program
sample-opened = refl

sample_reached : Reach fresh sample
sample_reached =
    Reach.next {d = fresh} Reach.here (Step.store_ttl 100 7 1 50 (unfold program in omega arith))

sample-HasItems : HasItems sample
sample-HasItems =
    Steps.Reach-HasItems fresh sample (Steps.new_cache-HasItems 10 heap 2) sample_reached

load-view_example :
    ((Cache.load 120 7 sample).0 ≡ view 120 7 sample)
    × ((Cache.load 120 7 sample).1.heap ≡ marked_heap 120 (view 120 7 sample) sample.heap)
    × (view 140 7 (Cache.load 120 7 sample).1 ≡ view 140 7 sample)
load-view_example = View.load-view 120 140 7 7 sample (omega arith)

view-store_ttl_example : view 160 7 (Cache.store_ttl 110 8 (some 1) 50 sample) ≡ (
    if ◌==◌ {K = ℕ} 8 7 || has_item 1 (otter.get_if_present 7 sample.inner)
    then (if is_positive 50 && ltb (110 + 50) 160 then none else some 1)
    else view 160 7 sample)
view-store_ttl_example = Stored.view-store_ttl 110 160 8 7 1 50 sample sample-opened

load_or_store-view_example :
    ((b : ℕ) × (view 160 7 sample ≡ some b)
      × (Cache.load_or_store 160 7 (some 0) sample ≡ ((some b, true), sample)))
    ⊎ ((view 160 7 sample ≡ none)
        × (Cache.load_or_store 160 7 (some 0) sample
            ≡ ((some 0, false), record sample { inner = otter.set 7 (some 0) sample.inner })))
load_or_store-view_example = Stored.load_or_store-view 160 7 0 sample sample-opened

refresh_ttl-view_example :
    ((view 120 7 sample ≡ none)
      × ((Combined.refresh_ttl 120 7 50 sample).0 ≡ false)
      × (view 160 7 (Combined.refresh_ttl 120 7 50 sample).1 ≡ view 160 7 sample))
    ⊎ ((a : ℕ) × (view 120 7 sample ≡ some a)
        × ((Combined.refresh_ttl 120 7 50 sample).0 ≡ true)
        × (view 160 7 (Combined.refresh_ttl 120 7 50 sample).1 ≡ (
            if has_item a (otter.get_if_present 7 sample.inner)
            then (if is_positive 50 && ltb (120 + 50) 160 then none else some a)
            else view 160 7 sample)))
refresh_ttl-view_example = Stored.refresh_ttl-view 120 160 7 7 50 sample sample-opened (omega arith)

get_or_compute-view_example :
    ((a : ℕ) × (view 160 7 sample ≡ some a)
      × (Combined.get_or_compute 160 161 7 (λ (n : ℕ). (suc n, (some 5, 9))) 0 sample
          ≡ ((0, (sample.heap a).value), (Cache.load 160 7 sample).1)))
    ⊎ ((view 160 7 sample ≡ none)
        × (d : Cache otter ℕ) × (Combined.get_or_compute 160 161 7
              (λ (n : ℕ). (suc n, (some 5, 9)))
              0
              sample
            ≡ ((1, some 5), d))
        × Puts 7 (some 5) 161 9 165 7 sample d)
get_or_compute-view_example =
    Computed.get_or_compute-view 160 161 165 7 7 (λ (n : ℕ). (suc n, (some 5, 9))) 0 sample
      sample-opened sample-HasItems (omega arith) (omega arith)

-- A callback that stops after the first key.
abbrev first_key : ℕ → ℕ → List ℕ → List ℕ × Bool
first_key k a seen = (k ∷ seen, false)

range-Shown_example :
    (l : List (ℕ × ℕ)) × Once l
    × ((k : ℕ) → lookup k l ≡ view 120 k sample)
    × (Whole.range 120 first_key [] sample ≡ ok (visit first_key l []))
    × (Whole.keys 120 sample ≡ ok (map (λ e. e.0) l))
range-Shown_example = Shown.range-Shown 120 10 heap 2 first_key [] sample sample_reached

load-close_example :
    (Cache.load 130 7 (Cache.store_ttl 120 7 (some 1) 50 (Whole.close sample))
      ≡ (none, Cache.store_ttl 120 7 (some 1) 50 (Whole.close sample)))
    × (Whole.len (Cache.store_ttl 120 7 (some 1) 50 (Whole.close sample)) ≡ 0)
    × (Whole.keys 130 (Cache.store_ttl 120 7 (some 1) 50 (Whole.close sample)) ≡ ok [])
load-close_example =
    Steps.load-close 130 7 sample (Cache.store_ttl 120 7 (some 1) 50 (Whole.close sample)) (
      Reach.next {d = Whole.close sample} Reach.here
        (Step.store_ttl 120 7 1 50 (unfold program in omega arith)))
