-- ===== src/Lru/Tests.antt =====
-- The theorems about lru.go at concrete maps, and runs of the code.
use mappo.Prelude.{
  ℕ, ◌-◌, ◌≤◌, ◌≡◌, refl, none, some, ltb, List, [], ◌∷◌, ◌++◌, map, Bool, true, is_some, ◌⊎◌,
  arith, nat_comparable, if◌then◌else◌, ◌∙◌, sym, ap, length, take,
}
use mathlib.Core.Path.{subst}
use mappo.MapOf.{MapOf}
use mappo.MapOf.Assoc.{assoc}
use mappo.Pairs.{lookup, remove, count, Once}
use mappo.Run.{Run, ok, panic, out_of_fuel}
use mappo.Time.{deadline, is_expired}
use mappo.Visit.{visit}
use mappo.Lru
use mappo.Lru.{Lru}
use mappo.Lru.Aging
use mappo.Lru.Aging.{set_calls}
use mappo.Lru.Combined
use mappo.Lru.Combined.{negate}
use mappo.Lru.Evict.{told}
use mappo.Lru.Lost
use mappo.Lru.Methods
use mappo.Lru.Methods.{live_value, touched}
use mappo.Lru.Models.{Models, Same, Stored}
use mappo.Lru.Purges
use mappo.Lru.Purges.{alive, dead}
use mappo.Lru.Resets
use mappo.Lru.Script
use mappo.Lru.Script.{Call, set_call, get_call, resize_call, perform_all, expect_all}
use mappo.Lru.Stores
use mappo.Lru.Stores.{put}
use mappo.Lru.Walks
use mappo.Lru.Walks.{shown}
use mappo.Lru.Whole
use mappo.Lru.Whole.{bound_of, is_shown}

abbrev xsync : MapOf ℕ ℕ
xsync = assoc ℕ ℕ

program : Unit {0}
unfolding assoc deadline is_expired bound_of is_shown Lru.set_with_ttl Lru.get Lru.delete
    Whole.new_lru_with_config Whole.resize Whole.clear Whole.purge_expired Combined.get_or_set
    Whole.range lookup remove visit
program = tt

abbrev result_or : {A : Type 0} → A → Run A → A
result_or a (ok b) = b
result_or a panic = a
result_or a out_of_fuel = a

-- A map with room for three entries.
abbrev new : Lru xsync ℕ
new = Whole.new_lru_with_config 3 0 true

abbrev entry : ℕ → ℕ → Stored ℕ
entry v x = record { value = v; expiration = x }

-- Key 1 for ever, key 2 until 150, key 3 until 200; then key 1 is read.
abbrev script : List (Call ℕ ℕ)
script = set_call 1 10 100 0 ∷ set_call 2 20 100 50 ∷ set_call 3 30 100 100 ∷ get_call 1 110 ∷ []

abbrev sample_entries : List (ℕ × Stored ℕ)
sample_entries = (1, entry 10 0) ∷ (3, entry 30 200) ∷ (2, entry 20 150) ∷ []

abbrev sample : Lru xsync ℕ
sample = result_or new (perform_all 0 0 script new)

sample_run : perform_all 0 0 script new ≡ ok sample
unfolding program
sample_run = refl

sample_expected : expect_all script (3, []) ≡ (3, sample_entries)
unfolding program
sample_expected = refl

three : bound_of 3 ≡ 3
unfolding program
three = refl

of_ok : {A : Type 0} → (a b : A) → ok a ≡ ok b → a ≡ b
of_ok a b e = ap (result_or a) e

sample-Models : Models sample sample_entries
sample-Models =
    let (l, run, models, _, _, _) =
      Script.perform_all-refines 0 0 script 3 0 true (unfold program in omega arith)
        (tt, (tt, (tt, (tt, tt)))) in
    subst (λ x. Models x sample_entries) (of_ok l sample (sym run ∙ sample_run))
      (subst (λ a. Models l a.1) (ap (λ n. expect_all script (n, [])) three ∙ sample_expected)
        models)

sample_roomy : sample.max_size ≤ sample.capacity
unfolding program
sample_roomy = omega arith

get-Models_example :
    (l' : Lru xsync ℕ) × (Lru.get 0 0 151 2 sample
      ≡ ok (live_value 151 (lookup 2 sample_entries), l'))
    × Models l' (touched 151 2 (lookup 2 sample_entries) sample_entries)
    × Same sample l'
    × (l'.evictions ≡ sample.evictions)
    × ((is_some (lookup 2 sample_entries) ≡ true) ⊎ (l' ≡ sample))
get-Models_example = Methods.get-Models 0 0 151 2 sample sample_entries sample-Models

-- The entry under key 2 has expired, and goes.
get_run :
    (live_value 151 (lookup 2 sample_entries) ≡ none)
    × (touched 151 2 (lookup 2 sample_entries) sample_entries
        ≡ (1, entry 10 0) ∷ (3, entry 30 200) ∷ [])
unfolding program
get_run = (refl, refl)

set_with_ttl-Models_example :
    (l' : Lru xsync ℕ) × (Lru.set_with_ttl 0 0 120 4 40 7 sample ≡ ok l')
    × Models l'
        (put sample.max_size 4 (record { value = 40; expiration = deadline 120 7 }) sample_entries)
    × Same sample l'
    × (l'.evictions
        ≡ sample.evictions
          ++ (if is_some (lookup 4 sample_entries)
              then []
              else told 0 0 sample.on_eviction (length sample_entries - (sample.max_size - 1))))
set_with_ttl-Models_example =
    Stores.set_with_ttl-Models 4 40 120 7 sample sample_entries 0 0 sample-Models sample_roomy

-- The entry under key 2, the least recently used one, is evicted for key 4.
put_run :
    put 3 4 (entry 40 127) sample_entries
    ≡ (4, entry 40 127) ∷ (1, entry 10 0) ∷ (3, entry 30 200) ∷ []
unfolding program
put_run = refl

-- Key 4 is stored for 100 nanoseconds, and then two other keys: one fewer than there is room for.
abbrev rows : List (ℕ × (ℕ × ℕ × ℕ))
rows = (5, (50, 130, 0)) ∷ (1, (11, 131, 0)) ∷ []

rows-Once : Once ((4, (40, 120, 100)) ∷ rows)
unfolding count
rows-Once = λ j. ground arith

peek-set_calls_example :
    (l' : Lru xsync ℕ) × (perform_all 0 0 (set_calls ((4, (40, 120, 100)) ∷ rows)) sample ≡ ok l')
    × (Lru.peek 140 4 l'
        ≡ ok (
            if ltb (length rows) sample.max_size
            then live_value 140 (some (record { value = 40; expiration = deadline 120 100 }))
            else none))
peek-set_calls_example =
    Aging.peek-set_calls 0 0 4 40 120 100 rows 140 sample sample_entries sample-Models sample_roomy
      rows-Once

abbrev collect : ℕ → ℕ → List ℕ → List ℕ × Bool
collect k v seen = (v ∷ seen, true)

range-Models_example :
    (Whole.range 151 collect [] sample ≡ ok (visit collect (shown 151 sample_entries) []))
    × (Whole.keys 151 sample ≡ ok (map (λ e. e.0) (shown 151 sample_entries)))
    × (Whole.values 151 sample ≡ ok (map (λ e. e.1) (shown 151 sample_entries)))
range-Models_example = Walks.range-Models 151 collect [] sample sample_entries sample-Models

purge_expired-Models_example :
    (l' : Lru xsync ℕ) × (Whole.purge_expired 0 0 151 sample ≡ ok (dead 151 sample_entries, l'))
    × Models l' (alive 151 sample_entries)
    × Same sample l'
    × (l'.evictions ≡ sample.evictions ++ told 0 0 sample.on_eviction (dead 151 sample_entries))
purge_expired-Models_example =
    Purges.purge_expired-Models 0 0 151 sample sample_entries sample-Models

perform_all-refines_example :
    (l : Lru xsync ℕ) × (perform_all 0 0 script (Whole.new_lru_with_config 3 0 true) ≡ ok l)
    × Models l (expect_all script (bound_of 3, [])).1
    × (l.max_size ≡ (expect_all script (bound_of 3, [])).0)
    × (length (expect_all script (bound_of 3, [])).1 ≤ (expect_all script (bound_of 3, [])).0)
    × (Whole.len l ≡ length (expect_all script (bound_of 3, [])).1)
perform_all-refines_example =
    Script.perform_all-refines 0 0 script 3 0 true (unfold program in omega arith)
      (tt, (tt, (tt, (tt, tt))))

-- The bound is 5, and the array has room for three nodes.
abbrev wide : Lru xsync ℕ
wide = result_or new (Whole.resize 0 0 5 sample)

wide_entries : take (bound_of 5) sample_entries ≡ sample_entries
unfolding program
wide_entries = refl

wide_run : Whole.resize 0 0 5 sample ≡ ok wide
unfolding program
wide_run = refl

wide-Models : Models wide sample_entries
wide-Models =
    let (l, run, models, _, _, _) =
      Resets.resize-Models 5 0 0 sample sample_entries sample-Models
        (unfold program in omega arith) in
    subst (λ x. Models x sample_entries) (of_ok l wide (sym run ∙ wide_run))
      (subst (λ es. Models l es) wide_entries models)

set_with_ttl-lost_example : Lru.set_with_ttl 0 0 120 4 40 7 wide ≡ ok wide
set_with_ttl-lost_example =
    Lost.set_with_ttl-lost 0 0 4 40 120 7 wide sample_entries wide-Models
      (unfold program in omega arith) (unfold program in omega arith) (unfold program in refl)
