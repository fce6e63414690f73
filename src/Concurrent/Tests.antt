-- ===== src/Concurrent/Tests.antt =====
-- The theorems about concurrent.go at concrete maps, and runs of the code.
use mappo.Prelude.{
  ℕ, ◌+◌, ◌≡◌, refl, none, some, inr, List, ◌∷◌, Bool, true, Option, is_some, arith, nat_comparable,
  if◌then◌else◌, nat_beq, ltb, value_or, ◌&&◌, not,
}
use mappo.MapOf.{MapOf}
use mappo.MapOf.Assoc.{assoc}
use mappo.Run.{Run, ok, panic}
use mappo.Time.{deadline, is_expired, is_positive}
use mappo.Concurrent
use mappo.Concurrent.Expiry.{view}
use mappo.Concurrent.Expiry
use mappo.Concurrent.Writes
use mappo.Concurrent.Writes.{raw}
use mappo.Concurrent.Sweep.{HasNoNil}
use mappo.Concurrent.Reach
use mappo.Concurrent.Reach.{Reach}
use mappo.Concurrent.{Entry, Concurrent}

abbrev xsync : MapOf ℕ (Option (Entry ℕ))
xsync = assoc ℕ (Option (Entry ℕ))

-- Key 1 for ever, key 2 until 150.
abbrev sample : Concurrent xsync
sample = Concurrent.set xsync 1 10 (Concurrent.set_ttl xsync 100 2 20 50 xsync.new_map_of)

program : Unit {0}
unfolding assoc view Concurrent.get Concurrent.set Concurrent.set_ttl Concurrent.set_if_absent
    Concurrent.compute Concurrent.delete Concurrent.replace Concurrent.range Concurrent.keys
    Concurrent.clear_if Concurrent.compare_and_swap deadline is_expired
program = tt

sample_reads :
    ((Concurrent.get xsync 150 2 sample).0 ≡ some 20)
    × ((Concurrent.get xsync 151 2 sample).0 ≡ none)
    × ((Concurrent.get xsync 151 1 sample).0 ≡ some 10)
unfolding program
sample_reads = (refl, refl, refl)

sample-Reach : Reach xsync sample
sample-Reach =
    Reach.next (Reach.next Reach.new (Reach.Step.set_ttl 100 2 20 50)) (Reach.Step.set 1 10)

sample-HasNoNil : HasNoNil xsync sample
sample-HasNoNil = Reach.Reach-HasNoNil xsync sample-Reach

get-view_example :
    ((Concurrent.get xsync 151 2 sample).0 ≡ view xsync 151 2 sample)
    × (view xsync 160 1 (Concurrent.get xsync 151 2 sample).1 ≡ view xsync 160 1 sample)
get-view_example = Expiry.get-view xsync 151 160 2 1 sample (omega arith) (omega arith)

view-set_ttl_example : view xsync 160 2 (Concurrent.set_ttl xsync 110 2 21 45 sample) ≡ (
    if nat_beq 2 2
    then (if is_positive 45 && ltb (110 + 45) 160 then none else some 21)
    else view xsync 160 2 sample)
view-set_ttl_example =
    Expiry.view-set_ttl xsync 110 160 2 2 21 45 sample (inr (omega arith)) (omega arith)

-- The value of key 2 has expired, and is returned all the same.
set_if_absent-load_example :
    (c' : Concurrent xsync) × (Concurrent.set_if_absent xsync 2 99 sample
      ≡ ok ((value_or (raw (xsync.load 2 sample)) 99, is_some (xsync.load 2 sample)), c'))
    × (xsync.load 1 c' ≡ (
        if nat_beq 2 1 && not (is_some (xsync.load 2 sample))
        then some (some (record { value = 99; expiration = 0 }))
        else xsync.load 1 sample))
set_if_absent-load_example = Writes.set_if_absent-load xsync 2 1 99 sample (sample-HasNoNil 2)

stale_value :
    (view xsync 500 2 sample ≡ none)
    × (Concurrent.set_if_absent xsync 2 99 sample ≡ ok ((20, true), sample))
unfolding program
stale_value = (refl, refl)

abbrev increment : Option ℕ → ℕ × Bool
increment o = (value_or o 0 + 1, true)

replace-load_example :
    ((Concurrent.replace xsync 120 1 11 sample).0 ≡ view xsync 120 1 sample)
    × (xsync.load 1 (Concurrent.replace xsync 120 1 11 sample).1 ≡ (
        if nat_beq 1 1
        then (if is_some (view xsync 120 1 sample) then none else some none)
        else xsync.load 1 sample))
replace-load_example = Writes.replace-load xsync 120 1 1 11 sample

abbrev any_eq : ℕ → ℕ → Run Bool
any_eq a b = ok (nat_beq a b)

-- A swap that reports success has deleted the key.
swap_run :
    Concurrent.compare_and_swap xsync any_eq 120 1 10 11 sample ≡ ok (true, xsync.delete 1 sample)
unfolding program
swap_run = refl

compare_and_swap-view_example :
    view xsync 130 1 (xsync.delete 1 sample)
    ≡ (if nat_beq 1 1 then none else view xsync 130 1 sample)
compare_and_swap-view_example =
    Writes.compare_and_swap-view xsync any_eq 120 130 1 1 10 11 sample swap_run

abbrev collect : ℕ → ℕ → List ℕ → List ℕ × Bool
collect k v seen = (v ∷ seen, true)

abbrev at_120 : ℕ → ℕ
at_120 k = 120

abbrev is_ten : ℕ → ℕ → Bool
is_ten k v = nat_beq v 10

Reach-HasNoNil_example : HasNoNil xsync sample
Reach-HasNoNil_example = Reach.Reach-HasNoNil xsync sample-Reach

keys-replace_panics_example :
    Concurrent.keys xsync 130 (Concurrent.replace xsync 120 3 30 sample).1 ≡ panic
keys-replace_panics_example =
    Reach.keys-replace_panics xsync 120 130 3 30 sample (unfold program in refl)
