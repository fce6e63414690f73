-- ===== src/Ordered/Script.antt =====
-- Sequences of calls of ordred.go's methods, against what they do to a list of pairs.
use mappo.Prelude.{
  ℕ, ◌+◌, ◌≤◌, ◌<◌, ◌^◌, ◌≡◌, refl, List, [], ◌∷◌, Bool, true, false, arith, length, map,
  Comparable, ◌==◌,
}
use mathlib.Core.List.{tail, drop_last}
use mathlib.Core.List.{reverse as reversed}
use mappo.ContainerList.{put_before, put_after}
use mappo.MapOf.{MapOf}
use mappo.Pairs.{lookup, remove, assign, count, length-assign}
use mappo.Run.{Run, ok, ◌>>=◌}
use mappo.Time.{Int64}
use mappo.Ordered.{
  OrderedElement, Ordered, set, set_front, delete, delete_at, move_to_front, move_to_back,
  insert_before, insert_after, get, index_of,
}
use mappo.Ordered.Beside.{put_beside, insert_before-Models, insert_after-Models}
use mappo.Ordered.Ends.{pop-Models}
use mappo.Ordered.Holds.{Models}
use mappo.Ordered.Indexed.{erase_idx, delete_at-Models}
use mappo.Ordered.Lengths.{
  length-reversed, length-erase_idx, length-exchanged, length-tail, length-drop_last,
  length-put_before, length-put_after, length-remove-le, length-put_beside, length-raised,
  length-lowered,
}
use mappo.Ordered.Moves.{
  raised, lowered, move_to_front-Models, move_to_back-Models, set_front-Models,
}
use mappo.Ordered.Reads.{position, walk-Models, get-Models, index_of-Models}
use mappo.Ordered.Pick.{exchanged}
use mappo.Ordered.Swap.{swap-Models}
use mappo.Ordered.Turns.{reverse-Models}
use mappo.Ordered.Cleared.{clear-Models}
use mappo.Ordered.Whole.{
  keys, values, len, new_ordered_with_config, pop_front, pop_back, swap, reverse, clear,
}
use mappo.Ordered.Writes.{set-Models, delete-Models}

-- A call that changes the state, with its arguments; those that may take an element from the pool
-- come with the choice of it.
pub data Call (K V : Type 0) : Type 0 where
  set_call : ℕ → K → V → Call K V
  set_front_call : ℕ → K → V → Call K V
  delete_call : K → Call K V
  delete_at_call : Int64 → Call K V
  move_to_front_call : K → Call K V
  move_to_back_call : K → Call K V
  insert_before_call : ℕ → K → K → V → Call K V
  insert_after_call : ℕ → K → K → V → Call K V
  swap_call : Int64 → Int64 → Call K V
  reverse_call : Call K V
  clear_call : Call K V
  pop_front_call : Call K V
  pop_back_call : Call K V

module _ {K V : Type 0} ⦃key : Comparable K⦄ where
  -- A key is not inserted next to itself.
  abbrev pub Apart : Call K V → Type 0
  Apart (insert_before_call choice k mark v) = (k == mark) ≡ false
  Apart (insert_after_call choice k mark v) = (k == mark) ≡ false
  Apart _ = Unit

  abbrev pub AllApart : List (Call K V) → Type 0
  AllApart [] = Unit
  AllApart (c ∷ cs) = Apart c × AllApart cs

  -- The pairs after a call.
  abbrev pub expect : Call K V → List (K × V) → List (K × V)
  expect (set_call choice k v) es = assign k v es
  expect (set_front_call choice k v) es = (k, v) ∷ remove k es
  expect (delete_call k) es = remove k es
  expect (delete_at_call i) es = erase_idx es i
  expect (move_to_front_call k) es = raised k es
  expect (move_to_back_call k) es = lowered k es
  expect (insert_before_call choice k mark v) es = put_beside put_before k mark v es
  expect (insert_after_call choice k mark v) es = put_beside put_after k mark v es
  expect (swap_call i j) es = exchanged i j es
  expect reverse_call es = reversed es
  expect clear_call es = []
  expect pop_front_call es = tail es
  expect pop_back_call es = drop_last es

  abbrev pub expect_all : List (Call K V) → List (K × V) → List (K × V)
  expect_all [] es = es
  expect_all (c ∷ cs) es = expect_all cs (expect c es)

module _ {K V : Type 0} ⦃key : Comparable K⦄ where
  length-expect : (c : Call K V) (es : List (K × V)) → length (expect c es) ≤ length es + 1
  length-expect (set_call choice k v) es = omega (arith, length-assign k v es)
  length-expect (set_front_call choice k v) es = omega (arith, length-remove-le k es)
  length-expect (delete_call k) es = omega (arith, length-remove-le k es)
  length-expect (delete_at_call i) es = omega (arith, length-erase_idx es i)
  length-expect (move_to_front_call k) es = omega (arith, length-raised k es)
  length-expect (move_to_back_call k) es = omega (arith, length-lowered k es)
  length-expect (insert_before_call choice k mark v) es =
      length-put_beside put_before k mark v es (length-put_before mark (k, v))
  length-expect (insert_after_call choice k mark v) es =
      length-put_beside put_after k mark v es (length-put_after mark (k, v))
  length-expect (swap_call i j) es = omega (arith, length-exchanged i j es)
  length-expect reverse_call es = omega (arith, length-reversed es)
  length-expect clear_call es = omega arith
  length-expect pop_front_call es = omega (arith, length-tail es)
  length-expect pop_back_call es = omega (arith, length-drop_last es)

module _ {K : Type 0} ⦃key : Comparable K⦄ {xsync : MapOf K ℕ} {V : Type 0} (zero_key : K)
    (zero_value : V) where
  -- A call, its results left aside.
  abbrev pub run_call : Call K V → Ordered xsync V → Run (Ordered xsync V)
  run_call (set_call choice k v) o = ok (set zero_key zero_value choice k v o)
  run_call (set_front_call choice k v) o = set_front zero_key zero_value choice k v o
  run_call (delete_call k) o = delete k o >>= λ r. ok r.1
  run_call (delete_at_call i) o = delete_at i o >>= λ r. ok r.1
  run_call (move_to_front_call k) o = move_to_front k o >>= λ r. ok r.1
  run_call (move_to_back_call k) o = move_to_back k o >>= λ r. ok r.1
  run_call (insert_before_call choice k mark v) o =
      insert_before zero_key zero_value choice k mark v o >>= λ r. ok r.1
  run_call (insert_after_call choice k mark v) o =
      insert_after zero_key zero_value choice k mark v o >>= λ r. ok r.1
  run_call (swap_call i j) o = ok (swap i j o).1
  run_call reverse_call o = ok (reverse o)
  run_call clear_call o = ok (clear o)
  run_call pop_front_call o = pop_front o >>= λ r. ok r.1
  run_call pop_back_call o = pop_back o >>= λ r. ok r.1

  abbrev pub run_all : List (Call K V) → Ordered xsync V → Run (Ordered xsync V)
  run_all [] o = ok o
  run_all (c ∷ cs) o = run_call c o >>= run_all cs

  run_call_lem :
      (c : Call K V) (o : Ordered xsync V) (es : List (K × V))
      → Models o es
      → Apart c
      → length es < 2 ^ 63
      → (o' : Ordered xsync V) × (run_call c o ≡ ok o') × Models o' (expect c es)
  run_call_lem (set_call choice k v) o es m apart fits =
      (_, refl, set-Models zero_key zero_value choice k v o es m)
  run_call_lem (set_front_call choice k v) o es m apart fits =
      set_front-Models zero_key zero_value choice k v o es m
  run_call_lem (delete_call k) o es m apart fits =
      let (o', run, m') = delete-Models k o es m in (o', rw run refl, m')
  run_call_lem (delete_at_call i) o es m apart fits =
      let (o', run, m') = delete_at-Models i o es m fits in (o', rw run refl, m')
  run_call_lem (move_to_front_call k) o es m apart fits =
      let (o', run, m') = move_to_front-Models k o es m in (o', rw run refl, m')
  run_call_lem (move_to_back_call k) o es m apart fits =
      let (o', run, m') = move_to_back-Models k o es m in (o', rw run refl, m')
  run_call_lem (insert_before_call choice k mark v) o es m apart fits =
      let (o', run, m') = insert_before-Models zero_key zero_value choice k mark v o es m apart in
      (o', rw run refl, m')
  run_call_lem (insert_after_call choice k mark v) o es m apart fits =
      let (o', run, m') = insert_after-Models zero_key zero_value choice k mark v o es m apart in
      (o', rw run refl, m')
  run_call_lem (swap_call i j) o es m apart fits =
      let (o', run, m') = swap-Models i j o es m fits in (o', rw run refl, m')
  run_call_lem reverse_call o es m apart fits = (_, refl, reverse-Models o es m)
  run_call_lem clear_call o es m apart fits = (_, refl, clear-Models o es m)
  run_call_lem pop_front_call o es m apart fits =
      let (o', run, m') = (pop-Models o es m).0 in (o', rw run refl, m')
  run_call_lem pop_back_call o es m apart fits =
      let (o', run, m') = (pop-Models o es m).1 in (o', rw run refl, m')

  run_all_lem :
      (cs : List (Call K V)) (o : Ordered xsync V) (es : List (K × V))
      → Models o es
      → AllApart cs
      → length es + length cs < 2 ^ 63
      → (o' : Ordered xsync V) × (run_all cs o ≡ ok o') × Models o' (expect_all cs es)
  run_all_lem [] o es m apart fits = (o, refl, m)
  run_all_lem (c ∷ cs) o es m (apart, rest) fits =
      let (o₁, run, m₁) = run_call_lem c o es m apart (omega arith) in
      let (o₂, run', m₂) =
        run_all_lem cs o₁ (expect c es) m₁ rest (omega (arith, length-expect c es)) in
      (o₂, rw run run', m₂)

  new-Models :
      (concurrent : Bool) (heap : ℕ → OrderedElement K V)
      → Models (new_ordered_with_config xsync concurrent heap) []
  unfolding new_ordered_with_config count lookup
  new-Models concurrent heap = record {
    cells = [];
    holds = record {
      kept = record {
        at = tt;
        order = refl;
        elements = λ i. omega arith;
        addresses = λ i. omega arith;
        once = λ k. omega arith;
      };
      maps = λ k. xsync.load-new_map_of k;
    };
    shows = refl;
  }

  -- From a new map, every sequence of calls, in which no key is inserted next to itself and which is
  -- shorter than 2 ^ 63, ends without a panic, in a state that stands for what the calls do to a list
  -- of pairs: whatever the pool hands out, `Keys`, `Values` and `Len` are those of that list, and
  -- `Get` and `IndexOf` of every key.
  pub run_all-refines :
      (cs : List (Call K V)) (concurrent : Bool) (heap : ℕ → OrderedElement K V)
      → AllApart cs
      → length cs < 2 ^ 63
      → (o : Ordered xsync V) × (run_all cs (new_ordered_with_config xsync concurrent heap) ≡ ok o)
        × Models o (expect_all cs [])
        × (keys o ≡ map (λ e. e.0) (expect_all cs []))
        × (values o ≡ map (λ e. e.1) (expect_all cs []))
        × (len o ≡ length (expect_all cs []))
        × ((k : K)
            → (get k o ≡ lookup k (expect_all cs []))
              × (index_of k o ≡ position k (expect_all cs [])))
  run_all-refines cs concurrent heap apart fits =
      let (o, run, m) =
        run_all_lem cs (new_ordered_with_config xsync concurrent heap) []
          (new-Models concurrent heap) apart (omega arith) in
      let (_, all_keys, all_values, all, _, _, _) = walk-Models (λ k v s. (s, true)) tt o _ m in
      (o, run, m, all_keys, all_values, all, λ k. ((get-Models k o _ m).0, index_of-Models k o _ m))
