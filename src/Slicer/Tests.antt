-- ===== src/Slicer/Tests.antt =====
-- The theorems about slicer.go at concrete slicers, and runs of the code.
use mappo.Prelude.{
  ℕ, zero, suc, ◌+◌, ◌-◌, ◌^◌, sym, ap, ◌≡◌, refl, none, some, List, [], ◌∷◌, Bool, true, false,
  arith, length, get_elem?, if◌then◌else◌, nat_beq,
}
use mathlib.Core.List.{Perm}
use mappo.Run.{ok-injective, ok}
use mathlib.Core.Path.{subst}
use mathlib.Core.Option.{some-injective, none-ne-some}
use mappo.Slicer
use mappo.Slicer.{Chunk, Stripe, Slicer, SlicerConfig, slicer_mode_safe}
use mappo.Slicer.Append
use mappo.Slicer.Layout.{Spread}
use mappo.Slicer.Overlap
use mappo.Slicer.Overlap.{overlap}
use mappo.Slicer.Trips
use mappo.Slicer.Visits
use mappo.Slicer.Whole
use mappo.Time.{is_positive, signed_gt}
use mappo.Sharded.{and_bits}

program : Unit {0}
unfolding is_positive signed_gt and_bits Slicer.clamp Slicer.write_slot Slicer.new_chunk
    Slicer.append_loop Slicer.append Slicer.read_slot Slicer.get_loop Slicer.get Slicer.len
    Whole.or_bits Whole.double_up Whole.smear Whole.stripe_count Whole.new_slicer_with_config
    Whole.range_slots Whole.range_chunks Whole.range_stripes Whole.range Whole.snapshot
    Trips.append_all Trips.indices_from
program = tt

-- Chunks of one slot, on a machine with six processors.
abbrev small : SlicerConfig
small = record { mode = slicer_mode_safe; chunk_size = 1; shard_count = 0 }

-- Three stripes are asked for, and four are made; the processors ask for eight. Beyond 2 ^ 32 the
-- number is no power of two.
stripe_counts :
    (Whole.stripe_count 6 3 ≡ 4)
    × (Whole.stripe_count 6 0 ≡ 8)
    × (Whole.stripe_count 6 16 ≡ 16)
    × (Whole.stripe_count 6 (2 ^ 33 + 1) ≡ 2 ^ 34 - 3)
unfolding program
stripe_counts = (refl, refl, refl, refl)

abbrev two : SlicerConfig
two = record small { shard_count = 2 }

abbrev values : List ℕ
values = 10 ∷ 11 ∷ 12 ∷ 13 ∷ 14 ∷ []

abbrev filled : Slicer ℕ
filled = elim (Trips.append_all values (Whole.new_slicer_with_config 6 two)) [
  | ok r ↦ r.1
  | _ ↦ Whole.new_slicer_with_config 6 two
]

-- The snapshot has the even indices first.
filled_run :
    (Slicer.get 3 filled ≡ ok (some 13))
    × (Slicer.get 5 filled ≡ ok none)
    × (Whole.snapshot filled ≡ ok (10 ∷ 12 ∷ 14 ∷ 11 ∷ 13 ∷ []))
unfolding program
filled_run = (refl, refl, refl)

get-append_all_example :
    (s : Slicer ℕ) × (Trips.append_all values (Whole.new_slicer_with_config 6 two)
      ≡ ok (Trips.indices_from 0 values, s))
    × (Slicer.len s ≡ length values)
    × ((i : ℕ) → Slicer.get i s ≡ ok (get_elem? values i))
get-append_all_example =
    Trips.get-append_all 6 two 1 values (unfold program in refl) (omega arith) (omega arith)
      (omega arith)

-- The callback stops at the third value.
abbrev stop : ℕ → ℕ → List (ℕ × ℕ) → Bool × List (ℕ × ℕ)
stop index v [] = (true, (index, v) ∷ [])
stop index v (p ∷ []) = (true, (index, v) ∷ p ∷ [])
stop index v (p ∷ q ∷ seen) = (false, (index, v) ∷ p ∷ q ∷ seen)

filled-Spread : Spread filled values
unfolding program
filled-Spread =
    let (s, run, m) =
      Trips.append_all-Spread values (Whole.new_slicer_with_config 6 two) []
        (Trips.new_slicer-Spread 6 two 1 refl (omega arith) (omega arith)) (omega arith) in
    let same : s ≡ filled =
      ap (λ r. r.1)
        (ok-injective (Trips.indices_from 0 values, s) (Trips.indices_from 0 values, filled)
          (sym run)) in
    subst (λ s. Spread s values) same m

range-snapshot_example :
    (all : List ℕ) × Perm all values
    × (Whole.range stop filled [] ≡ ok ((Visits.shown stop 0 all []).1.1))
    × (Whole.snapshot filled ≡ ok all)
range-snapshot_example = Visits.range-snapshot stop filled values [] filled-Spread

-- A stripe whose tail lags behind its last chunk.
abbrev lagging : Stripe ℕ
lagging = record {
  chunks =
      record { slots = some 1 ∷ []; count = 1 } ∷ record { slots = some 2 ∷ []; count = 1 } ∷ [];
  tail = 0;
}

append_loop-ends_example : (st : Stripe ℕ) × (Slicer.append_loop 2 1 7 lagging ≡ ok st)
append_loop-ends_example =
    Append.append_loop-ends 2 1 7 lagging (omega arith) sizes (omega arith) (omega arith)
  where
    sizes : (i : ℕ) (c : Chunk ℕ) → get_elem? lagging.chunks i ≡ some c → length c.slots ≡ 1
    sizes zero c e = ap (λ (c : Chunk ℕ). length c.slots) (sym (some-injective _ _ e))
    sizes (suc zero) c e = ap (λ (c : Chunk ℕ). length c.slots) (sym (some-injective _ _ e))
    sizes (suc (suc i)) c e = absurd (none-ne-some c e)

-- One stripe: 11 overtakes 10.
abbrev one : SlicerConfig
one = record small { shard_count = 1 }

abbrev empty : Slicer ℕ
empty = Whole.new_slicer_with_config 6 one

get-overlap_example :
    (s : Slicer ℕ) × (overlap 10 11 empty ≡ ok ((0, 1), s))
    × Spread s (if nat_beq (length empty.stripes) 1 then 11 ∷ 10 ∷ [] else 10 ∷ 11 ∷ [])
    × (Slicer.get 0 s ≡ ok (some (if nat_beq (length empty.stripes) 1 then 11 else 10)))
    × (Slicer.get 1 s ≡ ok (some (if nat_beq (length empty.stripes) 1 then 10 else 11)))
get-overlap_example =
    Overlap.get-overlap 10 11 empty []
      (Trips.new_slicer-Spread 6 one 0 (unfold program in refl) (omega arith) (omega arith))
      (omega arith)

one_stripe : nat_beq (length empty.stripes) 1 ≡ true
unfolding program
one_stripe = refl
