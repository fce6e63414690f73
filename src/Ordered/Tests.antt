-- ===== src/Ordered/Tests.antt =====
-- The theorems about ordred.go at concrete maps, and runs of the code.
use mappo.Prelude.{
  ℕ, ◌≡◌, ◌↔◌, refl, none, some, List, [], ◌∷◌, map, Bool, true, false, ◌&&◌, is_some, arith,
  nat_comparable, ◌∙◌, sym, length, ltb,
}
use mathlib.Core.Path.{subst}
use mappo.ContainerList
use mappo.ContainerList.{put_before}
use mappo.MapOf.{MapOf}
use mappo.MapOf.Assoc.{assoc}
use mappo.Pairs.{lookup, remove, assign, count}
use mappo.Run.{Run, ok, panic, result_or, ok-injective}
use mappo.Visit.{visit}
use mappo.SyncPool
use mappo.Ordered
use mappo.Ordered.{Ordered, OrderedElement}
use mappo.Ordered.Beside
use mappo.Ordered.Beside.{put_beside}
use mappo.Ordered.Hazards
use mappo.Ordered.Hazards.{load_element, read_element, get_across}
use mappo.Ordered.Holds.{Models}
use mappo.Ordered.Indexed
use mappo.Ordered.Indexed.{erase_idx}
use mappo.Ordered.Pick.{exchanged}
use mappo.Ordered.Reads.{position}
use mappo.Ordered.Script
use mappo.Ordered.Script.{
  Call, set_call, set_front_call, delete_call, swap_call, reverse_call, insert_after_call,
  pop_front_call, run_all, expect_all,
}
use mappo.Ordered.Swap
use mappo.Ordered.Whole

abbrev xsync : MapOf ℕ ℕ
xsync = assoc ℕ ℕ

program : Unit {0}
unfolding assoc lookup remove assign count visit put_before ContainerList.put_after
    ContainerList.remove_element ContainerList.move_to_front ContainerList.move_to_back
    ContainerList.insert_before ContainerList.insert_after Ordered.modify SyncPool.take_out
    Ordered.forward Ordered.in_range Ordered.put_ordered_element Ordered.fill Ordered.attach
    Ordered.write_value Ordered.get Ordered.get_at Ordered.index_of_loop Ordered.index_of
    Ordered.discard Ordered.delete Ordered.delete_at Ordered.move_to_front Ordered.move_to_back
    Ordered.get_ordered_element Ordered.set Ordered.set_front Ordered.remove_old
    Ordered.insert_beside Ordered.insert_before Ordered.insert_after Whole.last_element
    Whole.swap_loop Whole.new_ordered_with_config Whole.has Whole.len Whole.walk Whole.keys
    Whole.values Whole.range Whole.front Whole.back Whole.pop Whole.pop_front Whole.pop_back
    Whole.exchange Whole.swap Whole.reverse_loop Whole.reverse Whole.put_all Whole.clear
program = tt

abbrev no_elements : ℕ → OrderedElement ℕ ℕ
no_elements a = record { key = 0; value = 0; element = none }

abbrev new : Bool → Ordered xsync ℕ
new concurrent = Whole.new_ordered_with_config xsync concurrent no_elements

abbrev script : List (Call ℕ ℕ)
script =
    set_call 0 1 10
    ∷ set_call 0 2 20
    ∷ delete_call 1
    ∷ set_front_call 0 3 30
    ∷ set_call 0 4 40
    ∷ swap_call 0 2
    ∷ insert_after_call 0 4 3 41
    ∷ reverse_call
    ∷ []

abbrev sample_pairs : List (ℕ × ℕ)
sample_pairs = (4, 41) ∷ (3, 30) ∷ (2, 20) ∷ []

abbrev sample : Ordered xsync ℕ
sample = result_or (new true) (run_all 0 0 script (new true))

sample_run : run_all 0 0 script (new true) ≡ ok sample
unfolding program
sample_run = refl

sample_expected : expect_all script [] ≡ sample_pairs
unfolding program
sample_expected = refl

sample_pooled : sample.pooled ≡ true
unfolding program
sample_pooled = refl

apart : Script.AllApart script
unfolding program
apart = (tt, (tt, (tt, (tt, (tt, (tt, (refl, (tt, tt))))))))

sample-Models : Models sample sample_pairs
sample-Models =
    let (o, run, models, _, _, _, _) =
      Script.run_all-refines 0 0 script true no_elements apart (omega arith) in
    subst (λ x. Models x sample_pairs) (ok-injective o sample (sym run ∙ sample_run))
      (subst (Models o) sample_expected models)

run_all-refines_example :
    (o : Ordered xsync ℕ) × (run_all 0 0 script (new false) ≡ ok o)
    × Models o (expect_all script [])
    × (Whole.keys o ≡ map (λ e. e.0) (expect_all script []))
    × (Whole.values o ≡ map (λ e. e.1) (expect_all script []))
    × (Whole.len o ≡ length (expect_all script []))
    × ((k : ℕ)
        → (Ordered.get k o ≡ lookup k (expect_all script []))
          × (Ordered.index_of k o ≡ position k (expect_all script [])))
run_all-refines_example = Script.run_all-refines 0 0 script false no_elements apart (omega arith)

abbrev collect : ℕ → ℕ → List ℕ → List ℕ × Bool
collect k v seen = (v ∷ seen, ltb k 4)

get_at-index_of_example :
    (Ordered.get_at 1 sample ≡ ok (some (3, 30)))
    ↔ ((Ordered.index_of 3 sample ≡ some 1) × (Ordered.get 3 sample ≡ some 30))
get_at-index_of_example =
    Indexed.get_at-index_of 1 3 30 sample sample_pairs sample-Models (omega arith)

-- The pair is there.
get_at_run : Ordered.get_at 1 sample ≡ ok (some (3, 30))
unfolding program
get_at_run = refl

swap-Models_example :
    (o' : Ordered xsync ℕ) × (Whole.swap 2 0 sample
      ≡ (ltb 2 (length sample_pairs) && ltb 0 (length sample_pairs), o'))
    × Models o' (exchanged 2 0 sample_pairs)
swap-Models_example = Swap.swap-Models 2 0 sample sample_pairs sample-Models (omega arith)

insert_before-Models_example :
    (o' : Ordered xsync ℕ) × (Ordered.insert_before 0 0 0 2 4 21 sample
      ≡ ok (is_some (lookup 4 sample_pairs), o'))
    × Models o' (put_beside put_before 2 4 21 sample_pairs)
insert_before-Models_example =
    Beside.insert_before-Models 0 0 0 2 4 21 sample sample_pairs sample-Models refl

-- Key 2 goes to the front, before key 4.
insert_before_run : put_beside put_before 2 4 21 sample_pairs ≡ (2, 21) ∷ (4, 41) ∷ (3, 30) ∷ []
unfolding program
insert_before_run = refl

insert_before_self_panics_example :
    (Ordered.insert_before 0 0 0 3 3 31 sample ≡ panic)
    × (Ordered.insert_after 0 0 0 3 3 31 sample ≡ panic)
insert_before_self_panics_example =
    Hazards.insert_before_self_panics 0 0 0 3 31 30 sample sample_pairs sample-Models sample_pooled
      (unfold program in refl)

get_overtaken_example :
    ((i : ℕ) (p : Ordered xsync ℕ) → Ordered.get i p ≡ read_element (load_element i p) p)
    × (Ordered.get 3 sample ≡ some 30)
    × (o' : Ordered xsync ℕ) × (get_across 0 0 3 9 90 sample ≡ ok (some 90, o'))
    × (Ordered.get 3 o' ≡ none)
    × (Ordered.get 9 o' ≡ some 90)
get_overtaken_example =
    Hazards.get_overtaken 0 0 3 9 90 30 sample sample_pairs sample-Models sample_pooled
      (unfold program in refl) (unfold program in refl)

abbrev one : Ordered xsync ℕ
one = Ordered.set 0 0 0 1 10 (new false)

abbrev result? : {A B : Type 0} → B → Run (A × B) → B
result? b (ok r) = r.1
result? b r = b

-- In a map that is not concurrent, a key that is inserted before itself leaves the list, still reads,
-- and cannot be deleted any more.
insert_before_itself_run :
    (Whole.keys (result? one (Ordered.insert_before 0 0 0 1 1 11 one)) ≡ [])
    × (Ordered.get 1 (result? one (Ordered.insert_before 0 0 0 1 1 11 one)) ≡ some 11)
    × (Ordered.delete 1 (result? one (Ordered.insert_before 0 0 0 1 1 11 one)) ≡ panic)
unfolding program
insert_before_itself_run = (refl, refl, refl)
