-- ===== src/Sharded/Writes.antt =====
-- What each method of sharded.go that goes to one shard does to the map as a whole.
use mappo.Prelude.{
  ◌≡◌, refl, Option, none, some, Bool, true, false, if◌then◌else◌, is_some, value_or, ap, sym, ◌∙◌,
  Comparable, ◌==◌, ℕ, ◌||◌, Option-cases, inl, inr, Bool-cases,
}
use mappo.MapOf.{MapOf}
use mappo.Run.{Run, ok, panic}
use mappo.Sharded.{
  Sharded, set_if_absent, set_if_absent_entry, compute, compute_entry, replace, replace_entry,
  compare_and_swap, compare_entry, delete, write_shard,
}
use mappo.Sharded.Route.{WellFormed, view, computed_lem, get_shard_lem, write_shard_lem, load_in}
use mappo.MapOf.Laws.{load-compute}

module _ {V : Type 0} where
  -- Whether the value is there and equals the old one.
  abbrev pub swaps : (V → V → Bool) → (V → V → Bool) → V → Option V → Bool
  swaps any_eq deep_equal old none = false
  swaps any_eq deep_equal old (some current) = any_eq current old || deep_equal current old

  compare_entry_lem :
      (zero_value : V) (any_eq deep_equal : V → V → Bool) (old new_v : V) (o : Option V)
      → (entry : Bool × (V × Bool)) × (compare_entry zero_value
            (λ x y. ok (any_eq x y))
            deep_equal
            old
            new_v
            o
          ≡ ok entry)
        × (entry.0 ≡ swaps any_eq deep_equal old o)
        × ((if entry.1.1 then none else some entry.1.0)
            ≡ (if swaps any_eq deep_equal old o then some new_v else o))
  unfolding compare_entry
  compare_entry_lem zero_value any_eq deep_equal old new_v none =
      ((false, (zero_value, true)), refl, refl, refl)
  compare_entry_lem zero_value any_eq deep_equal old new_v (some current) =
      elim (Bool-cases (any_eq current old)) [
        | inl same ↦ ((true, (new_v, false)), rw same refl, rw same refl, rw same refl)
        | inr differ ↦ elim (Bool-cases (deep_equal current old)) [
          | inl deep ↦ (
            (true, (new_v, false)),
            rw (differ, deep) refl,
            rw (differ, deep) refl,
            rw (differ, deep) refl,
          )
          | inr other ↦ (
            (false, (current, false)),
            rw (differ, other) refl,
            rw (differ, other) refl,
            rw (differ, other) refl,
          )
        ]
      ]

module _ {K V : Type 0} ⦃key : Comparable K⦄ {xsync : MapOf K V} (hash : K → ℕ) where
  -- The call returns the result, the map is well formed, and the key alone has changed.
  abbrev pub Writes :
      {R : Type 0} → Run (R × Sharded xsync) → R → K → Option V → Sharded xsync → Type 0
  Writes run result k new sm =
      (sm' : Sharded xsync) × (run ≡ ok (result, sm'))
      × WellFormed hash sm'
      × ((j : K) → view hash j sm' ≡ (if k == j then new else view hash j sm))

  -- `SetIfAbsent` returns the value that is there, or else stores its own and returns that.
  pub set_if_absent-Writes :
      (k : K) (v : V) (sm : Sharded xsync)
      → WellFormed hash sm
      → Writes
          (set_if_absent xsync hash k v sm)
          (value_or (view hash k sm) v, is_some (view hash k sm))
          k
          (some (value_or (view hash k sm) v))
          sm
  unfolding set_if_absent set_if_absent_entry
  set_if_absent-Writes k v sm h =
      let (sm', run, well, views) = computed_lem hash k (set_if_absent_entry v) sm h in
      elim (Option-cases (view hash k sm)) [
        | inl absent ↦ (sm', rw absent (rw absent at run), well, rw absent (rw absent at views))
        | inr (old, found) ↦ (sm', rw found (rw found at run), well, rw found (rw found at views))
      ]

  -- `Compute` stores what the function makes of the value, or deletes the key and returns the zero
  -- value.
  pub compute-Writes :
      (zero_value : V) (k : K) (fn : Option V → V × Bool) (sm : Sharded xsync)
      → WellFormed hash sm
      → Writes
          (compute xsync hash zero_value k fn sm)
          (if (fn (view hash k sm)).1 then (fn (view hash k sm)).0 else zero_value)
          k
          (if (fn (view hash k sm)).1 then some (fn (view hash k sm)).0 else none)
          sm
  unfolding compute compute_entry
  compute-Writes zero_value k fn sm h =
      let (sm', run, well, views) = computed_lem hash k (compute_entry zero_value fn) sm h in
      elim (Bool-cases (fn (view hash k sm)).1) [
        | inl keep ↦ (sm', rw keep (rw keep at run), well, rw keep (rw keep at views))
        | inr drop ↦ (sm', rw drop (rw drop at run), well, rw drop (rw drop at views))
      ]

  -- `Replace` stores the value under a key that is there, and leaves another key absent.
  pub replace-Writes :
      (zero_value : V) (k : K) (v : V) (sm : Sharded xsync)
      → WellFormed hash sm
      → Writes
          (replace xsync hash zero_value k v sm)
          (view hash k sm)
          k
          (if is_some (view hash k sm) then some v else none)
          sm
  unfolding replace replace_entry
  replace-Writes zero_value k v sm h =
      let (sm', run, well, views) = computed_lem hash k (replace_entry zero_value v) sm h in
      elim (Option-cases (view hash k sm)) [
        | inl absent ↦ (sm', rw absent (rw absent at run), well, rw absent (rw absent at views))
        | inr (old, found) ↦ (sm', rw found (rw found at run), well, rw found (rw found at views))
      ]

  -- `Delete` takes the key away and tells whether it was there.
  pub delete-Writes :
      (zero_value : V) (k : K) (sm : Sharded xsync)
      → WellFormed hash sm
      → Writes (delete xsync hash zero_value k sm) (is_some (view hash k sm)) k none sm
  unfolding delete
  delete-Writes zero_value k sm h =
      computed_lem hash k (λ current. (is_some current, (zero_value, true))) sm h

  -- For values that can be compared, `CompareAndSwap` stores the new value under a key whose value is
  -- the old one, by either comparison, and tells so; otherwise nothing changes.
  pub compare_and_swap-Writes :
      (zero_value : V) (any_eq deep_equal : V → V → Bool) (k : K) (old new_v : V)
      (sm : Sharded xsync)
      → WellFormed hash sm
      → Writes
          (compare_and_swap xsync hash zero_value
            (λ x y. ok (any_eq x y))
            deep_equal
            k
            old
            new_v
            sm)
          (swaps any_eq deep_equal old (view hash k sm))
          k
          (if swaps any_eq deep_equal old (view hash k sm) then some new_v else view hash k sm)
          sm
  unfolding compare_and_swap
  compare_and_swap-Writes zero_value any_eq deep_equal k old new_v sm h =
      let (shard, e, run) = get_shard_lem hash k sm h in
      let here : view hash k sm ≡ xsync.load k shard = ap (load_in xsync k) e in
      let (entry, compared, verdict, left) =
        compare_entry_lem zero_value any_eq deep_equal old new_v (xsync.load k shard) in
      let (well, views) =
        write_shard_lem hash k _ shard _ sm h e
          (λ j. load-compute xsync k j (λ current. entry.1) shard) in
      let sm' = write_shard xsync hash k (xsync.compute k (λ current. entry.1) shard) sm in
      (
        sm',
        rw (run, compared, here) (ap (λ b. ok (b, sm')) verdict),
        well,
        λ j.
            views j
            ∙ ap (λ o. if k == j then o else view hash j sm)
                (left
                  ∙ ap (λ o. if swaps any_eq deep_equal old o then some new_v else o) (sym here)),
      )

  -- On a value that cannot be compared, `CompareAndSwap` panics, before it comes to the reflective
  -- comparison.
  pub compare_and_swap_panics :
      (zero_value : V) (any_eq : V → V → Run Bool) (deep_equal : V → V → Bool) (k : K)
      (old new_v current : V) (sm : Sharded xsync)
      → WellFormed hash sm
      → view hash k sm ≡ some current
      → any_eq current old ≡ panic
      → compare_and_swap xsync hash zero_value any_eq deep_equal k old new_v sm ≡ panic
  unfolding compare_and_swap compare_entry
  compare_and_swap_panics zero_value any_eq deep_equal k old new_v current sm h found uncomparable =
      let (shard, e, run) = get_shard_lem hash k sm h in
      let here : xsync.load k shard ≡ some current = sym (ap (load_in xsync k) e) ∙ found in
      rw (run, here, uncomparable) refl
