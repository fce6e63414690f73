-- ===== src/Concurrent/Writes.antt =====
-- `SetIfAbsent`, `Compute`, `Replace` and `CompareAndSwap` of concurrent.go.
use mappo.Prelude.{
  ℕ, ◌≡◌, refl, Option, none, some, Bool, Comparable, ◌==◌, eq_refl, if◌then◌else◌, arith,
  Option-cases, Bool-cases, value_or, is_some, inl, inr, ◌≢◌, ◌&&◌, not,
}
use mappo.MapOf.Laws.{load-compute}
use mappo.MapOf.{MapOf, load_or_store_result}
use mappo.Run.{Run, ok, returned}
use mappo.Concurrent.Expiry.{view}
use mappo.Concurrent.{
  Entry, Concurrent, live, get, set_if_absent, compute, compute_entry, replace, replace_entry,
  compare_entry, compare_and_swap,
}
use mappo.Time.{is_expired}

abbrev pub raw {ℓ} : {V : Type ℓ} → Option (Option (Entry V)) → Option V
raw none = none
raw (some none) = none
raw (some (some e)) = some e.value

module _ {ℓ} {V : Type ℓ} where
  -- What `Compute` leaves under the key, by the two results of its function.
  abbrev left_by : Option (Entry V) × Bool → Option (Option (Entry V))
  left_by r = if r.1 then none else some r.0

  replace_entry-live :
      (now : ℕ) (v : V) (o : Option (Option (Entry V))) → (replace_entry now v o).0 ≡ live now o
  unfolding replace_entry live
  replace_entry-live now v none = refl
  replace_entry-live now v (some none) = refl
  replace_entry-live now v (some (some e)) = ground arith

  replace_entry-left_by :
      (now : ℕ) (v : V) (o : Option (Option (Entry V)))
      → left_by (replace_entry now v o).1 ≡ (if is_some (live now o) then none else some none)
  unfolding replace_entry live
  replace_entry-left_by now v none = refl
  replace_entry-left_by now v (some none) = refl
  replace_entry-left_by now v (some (some e)) = ground arith

  compare_entry-left_by :
      (any_eq : V → V → Run Bool) (now later : ℕ) (old new_v : V) (o : Option (Option (Entry V)))
      {r : Bool × (Option (Entry V) × Bool)}
      → compare_entry any_eq now old new_v o ≡ ok r
      → live later (left_by r.1) ≡ none
  unfolding compare_entry live
  compare_entry-left_by any_eq now later old new_v none h = ground arith
  compare_entry-left_by any_eq now later old new_v (some none) h = ground arith
  compare_entry-left_by any_eq now later old new_v (some (some e)) h = ground arith

module _ {ℓ} {K V : Type ℓ} ⦃key : Comparable K⦄ (xsync : MapOf K (Option (Entry V))) where
  -- `SetIfAbsent` on a key that holds no nil pointer returns the entry that is there, also an
  -- expired one, which it leaves alone; on a key that is not there it stores the value.
  pub set_if_absent-load :
      (k j : K) (v : V) (c : Concurrent xsync)
      → xsync.load k c ≢ some none
      → (c' : Concurrent xsync) × (set_if_absent xsync k v c
          ≡ ok ((value_or (raw (xsync.load k c)) v, is_some (xsync.load k c)), c'))
        × (xsync.load j c' ≡ (
            if k == j && not (is_some (xsync.load k c))
            then some (some (record { value = v; expiration = 0 }))
            else xsync.load j c))
  unfolding set_if_absent
  set_if_absent-load k j v c h =
      let r =
        load_or_store_result (xsync.load k c) (some (record { value = v; expiration = 0 })) c
          (xsync.store k (some (record { value = v; expiration = 0 })) c) in
      elim (Option-cases (xsync.load k c)) [
        | inl e ↦ (r.1, rw (xsync.load_or_store_lem, e), rw (e, xsync.load-store) (ground arith))
        | inr (none, e) ↦ absurd (h e)
        | inr (some x, e) ↦
            (r.1, rw (xsync.load_or_store_lem, e, xsync.load_or_store_lem, e), rw e (ground arith))
      ]

  pub load-compute_entry :
      (now : ℕ) (k j : K) (fn : Option V → V × Bool) (c : Concurrent xsync)
      → xsync.load j (xsync.compute k (compute_entry now fn) c) ≡ (
          if k == j
          then (if (fn (live now (xsync.load k c))).1
              then some
                  (some (record { value = (fn (live now (xsync.load k c))).0; expiration = 0 }))
              else none)
          else xsync.load j c)
  unfolding compute_entry
  load-compute_entry now k j fn c = elim (Bool-cases (fn (live now (xsync.load k c))).1) [
    | inl e ↦ rw (load-compute, e)
    | inr e ↦ rw (load-compute, e)
  ]

  -- `Compute` applies the function to the value that the key has now. If the function keeps,
  -- the call returns the new value and the key reads it at every time; if not, the call returns
  -- the zero value and the key has no value. Every other key reads what it read.
  pub compute-view :
      (zero_value : V) (then_now now later : ℕ) (k j : K) (fn : Option V → V × Bool)
      (c : Concurrent xsync)
      → let r = compute xsync zero_value then_now now k fn c in
        let new = fn (view xsync then_now k c) in
        (r.0 ≡ (if new.1 then new.0 else zero_value))
        × (view xsync later j r.1
            ≡ (if k == j then (if new.1 then some new.0 else none) else view xsync later j c))
  unfolding compute get view live is_expired
  compute-view zero_value then_now now later k j fn c =
      elim (Bool-cases (fn (live then_now (xsync.load k c))).1) [
        | inl e ↦
            let here : xsync.load k (xsync.compute k (compute_entry then_now fn) c)
                ≡ some (
                    some (record {
                      value = (fn (live then_now (xsync.load k c))).0;
                      expiration = 0;
                    })) =
              rw (load-compute_entry, eq_refl k, e) in
            (rw (here, get, e), rw (here, get, e) (rw load-compute_entry (ground arith)))
        | inr e ↦
            let here : xsync.load k (xsync.compute k (compute_entry then_now fn) c) ≡ none =
              rw (load-compute_entry, eq_refl k, e) in
            (rw (here, get, e), rw (here, get, e) (rw load-compute_entry (ground arith)))
      ]

  -- `Replace` returns the value that the key had, but it leaves the key with no value in every
  -- case: a key with a value is deleted, and a key with none comes to hold a nil pointer.
  pub replace-load :
      (now : ℕ) (k j : K) (v : V) (c : Concurrent xsync)
      → ((replace xsync now k v c).0 ≡ view xsync now k c)
        × (xsync.load j (replace xsync now k v c).1 ≡ (
            if k == j
            then (if is_some (view xsync now k c) then none else some none)
            else xsync.load j c))
  unfolding replace view
  replace-load now k j v c = (
    replace_entry-live now v (xsync.load k c),
    rw load-compute (rw (replace_entry-left_by now v (xsync.load k c))),
  )

  module _ (any_eq : V → V → Run Bool) where
    -- Whatever `CompareAndSwap` returns, and whether it swapped or not, the key has no value
    -- after it, and every other key reads what it read.
    pub compare_and_swap-view :
        (now later : ℕ) (k j : K) (old new_v : V) (c : Concurrent xsync) {swapped : Bool}
        {c' : Concurrent xsync}
        → compare_and_swap xsync any_eq now k old new_v c ≡ ok (swapped, c')
        → view xsync later j c' ≡ (if k == j then none else view xsync later j c)
    unfolding compare_and_swap view live
    compare_and_swap-view now later k j old new_v c {c' = c'} h =
        let (r, e, f) = returned _ (compare_entry any_eq now old new_v (xsync.load k c)) h in
        let after : xsync.compute k (λ _. r.1) c ≡ c' = ground arith in
        rw (← after) (
          rw load-compute (elim (Bool-cases (k == j)) [
            | inl same ↦ rw same (compare_entry-left_by any_eq now later old new_v _ e)
            | inr other ↦ rw other
          ]))
