-- ===== src/Cache/Combined.antt =====
-- The methods of cache.go that put others together, or do their work in a call of otter's `Compute`.
use mappo.Prelude.{
  ℕ, Option, none, some, Bool, true, false, if◌then◌else◌, Comparable, ltb, is_some, ◌||◌,
}
use mappo.Cache.{
  Cache, Item, is_zero, has_expired, unix_nano, exp_after, modify, new_item, load, load_or_store,
}
use mappo.Otter.{Otter, Pointer, ComputeOp, write_op, cancel_op, invalidate_op}
use mappo.Run.{Run, ok, panic, ◌>>=◌}
use mappo.Time.{Int64}

module _ {V : Type 0} where
  -- `it.Value`
  unfoldable pub value_of : (ℕ → Item V) → Pointer → Run (Option V)
  value_of heap none = panic
  value_of heap (some a) = ok (heap a).value

  -- `assert` is the type assertion `it.Value.(T)`.
  unfoldable pub get_typed : {T : Type 0} → (V → Option T) → (ℕ → Item V) → Pointer → Option T
  get_typed assert heap none = none
  get_typed assert heap (some a) = elim (heap a).value [ none ↦ none | some v ↦ assert v ]

  -- The item of an entry that has not expired.
  unfoldable pub live : ℕ → (ℕ → Item V) → Option Pointer → Pointer
  unfolding has_expired
  live now heap none = none
  live now heap (some none) = none
  live now heap (some (some a)) = if has_expired now (heap a).exp then none else some a

  -- The functions that `RefreshTTL` and `Touch` pass to `Compute`, but for what they do to the item.
  unfoldable pub update_op : ℕ → (ℕ → Item V) → Option Pointer → Pointer × ComputeOp
  unfolding has_expired
  update_op now heap none = (none, cancel_op)
  update_op now heap (some none) = (none, cancel_op)
  update_op now heap (some (some a)) =
      if has_expired now (heap a).exp then (none, invalidate_op) else (some a, write_op)

  -- The item that `GetOrCompute` finds in its call of `Compute`; here `now` is before the deadline.
  unfoldable pub kept : ℕ → (ℕ → Item V) → Option Pointer → Pointer
  unfolding is_zero
  kept now heap none = none
  kept now heap (some none) = none
  kept now heap (some (some a)) =
      if is_zero (heap a).exp || ltb now (heap a).exp then some a else none

  -- The function that `GetOrCompute` passes to `Compute`; `a` is the new item.
  unfoldable pub compute_op : ℕ → (ℕ → Item V) → ℕ → Option Pointer → Pointer × ComputeOp
  unfolding kept
  compute_op now heap a current = elim (kept now heap current) [
    | some b ↦ (some b, cancel_op)
    | none ↦ (some a, write_op)
  ]

module _ {K : Type 0} ⦃key : Comparable K⦄ {otter : Otter K} {V : Type 0} where
  unfoldable pub has : ℕ → K → Cache otter V → Bool × Cache otter V
  unfolding load
  has now k c = let (it, c') = load now k c in (is_some it, c')

  unfoldable pub get_value : ℕ → K → Cache otter V → (Option V × Bool) × Cache otter V
  unfolding load
  get_value now k c =
      let (it, c') = load now k c in
      elim it [ none ↦ ((none, false), c') | some a ↦ (((c'.heap a).value, true), c') ]

  -- It reads the clock in `Load`, for the deadline, and in `LoadOrStore`.
  unfoldable pub get_or_set :
      ℕ → ℕ → ℕ → K → Option V → Int64 → Cache otter V → Run ((Option V × Bool) × Cache otter V)
  unfolding value_of
  get_or_set now₁ now₂ now₃ k value ttl c =
      let (existing, c₁) = load now₁ k c in
      let (it, c₂) = new_item value (exp_after now₂ ttl) c₁ in
      let ((actual, loaded), c₃) = load_or_store now₃ k (some it) c₂ in
      let found = (do v ← value_of c₃.heap actual; ok ((v, true), c₃)) in
      let missing = if loaded then found else ok ((value, false), c₃) in
      elim existing as (λ _. Run ((Option V × Bool) × Cache otter V)) [
        | some a ↦ ok (((c₁.heap a).value, true), c₁)
        | none ↦ missing
      ]

  -- `fn` runs on a state; it returns the value and its time to live.
  unfoldable pub get_or_compute :
      {S : Type 0}
      → ℕ
      → ℕ
      → K
      → (S → S × (Option V × Int64))
      → S
      → Cache otter V
      → (S × Option V) × Cache otter V
  get_or_compute {S} now₁ now₂ k fn state c =
      let (existing, c₁) = load now₁ k c in
      let (state', (val, ttl)) = fn state in
      let fresh = new_item val (exp_after now₂ ttl) c₁ in
      let inner' = (otter.compute k (compute_op now₂ c₁.heap c₁.allocated) c₁.inner).1 in
      let missing =
        elim (kept now₂ c₁.heap (otter.get_if_present k c₁.inner))
          as (λ _. (S × Option V) × Cache otter V) [
            | some b ↦ ((state, (c₁.heap b).value), record c₁ { inner = inner' })
            | none ↦ ((state', val), record fresh.1 { inner = inner' })
          ] in
      let opened = elim existing as (λ _. (S × Option V) × Cache otter V) [
        | some a ↦ ((state, (c₁.heap a).value), c₁)
        | none ↦ missing
      ] in
      if c.closed then ((state, none), c) else opened

  -- A call of `Compute` that changes the item that it finds.
  unfoldable pub update_item : ℕ → K → (Item V → Item V) → Cache otter V → Bool × Cache otter V
  unfolding live update_op modify
  update_item now k change c =
      let found = live now c.heap (otter.get_if_present k c.inner) in
      let heap' = elim found as (λ _. ℕ → Item V) [
        | none ↦ c.heap
        | some a ↦ modify a change c.heap
      ] in
      let inner' = (otter.compute k (update_op now c.heap) c.inner).1 in
      if c.closed then (false, c) else (is_some found, record c { heap = heap'; inner = inner' })

  unfoldable pub refresh_ttl : ℕ → K → Int64 → Cache otter V → Bool × Cache otter V
  unfolding update_item exp_after
  refresh_ttl now k ttl c = update_item now k (λ it. record it { exp = exp_after now ttl }) c

  unfoldable pub touch : ℕ → K → Cache otter V → Bool × Cache otter V
  unfolding update_item
  touch now k c = update_item now k (λ it. record it { last_accessed = unix_nano now }) c
