-- ===== src/Cache.antt =====
-- cache.go: a cache over otter whose items may expire. Items are on a heap, reached by pointers, so an
-- item that two keys have is one object; the type `any` of the values is V, with `none` for nil. A time
-- counts the nanoseconds from the zero time, the start of year 1; each reading of the clock, `c.now` or
-- `time.Now`, is an argument.
pub mod Combined
pub mod Whole
pub mod View
pub mod Stored
pub mod Entries
pub mod Steps
pub mod Shown
pub mod Fresh
pub mod Computed
mod Tests
use mappo.Prelude.{
  ℕ, zero, suc, ◌+◌, ◌-◌, ◌*◌, ◌%◌, ◌^◌, Option, none, some, Bool, true, false, if◌then◌else◌,
  Comparable, ltb, nat_beq, not, is_some, ◌&&◌,
}
use mappo.Otter.{Otter, Pointer, ComputeOp, write_op, cancel_op, invalidate_op}
use mappo.Time.{Int64, is_positive}

pub record Item (V : Type 0) : Type 0 where
  pub value : Option V
  pub last_accessed : Int64
  pub exp : ℕ

-- `exp.IsZero()`
unfoldable pub is_zero : ℕ → Bool
is_zero exp = nat_beq exp 0

-- `!it.Exp.IsZero() && now.After(it.Exp)`
unfoldable pub has_expired : ℕ → ℕ → Bool
unfolding is_zero
has_expired now exp = not (is_zero exp) && ltb exp now

-- The nanoseconds from the zero time to the start of 1970.
abbrev pub unix_epoch : ℕ
unix_epoch = 62135596800 * 10 ^ 9

-- `now.UnixNano()`, which wraps.
unfoldable pub unix_nano : ℕ → Int64
unix_nano now = (now + 4 * 2 ^ 64 - unix_epoch) % 2 ^ 64

-- The deadline that `StoreTTL` gives to an item.
unfoldable pub exp_after : ℕ → Int64 → ℕ
exp_after now ttl = if is_positive ttl then now + ttl else 0

module _ {K : Type 0} ⦃key : Comparable K⦄ where
  pub record Cache (otter : Otter K) (V : Type 0) : Type 0 where
    pub inner : otter.Map
    pub heap : ℕ → Item V
    -- The next address that no item has had.
    pub allocated : ℕ
    pub closed : Bool

module _ {V : Type 0} where
  -- `heap` with the item at `a` changed in place.
  unfoldable pub modify : ℕ → (Item V → Item V) → (ℕ → Item V) → ℕ → Item V
  modify a change heap b = if nat_beq a b then change (heap b) else heap b

  -- The function that `LoadOrStore` passes to `Compute`.
  unfoldable pub replace_expired : ℕ → (ℕ → Item V) → ℕ → Option Pointer → Pointer × ComputeOp
  unfolding has_expired
  replace_expired now heap a none = (some a, write_op)
  replace_expired now heap a (some none) = (none, cancel_op)
  replace_expired now heap a (some (some b)) =
      if has_expired now (heap b).exp then (some a, write_op) else (some b, cancel_op)

  -- The function that `LoadAndDelete` passes to `Compute`, with what it leaves in `deleted`.
  unfoldable pub take_current : ℕ → (ℕ → Item V) → Option Pointer → Pointer × (Pointer × ComputeOp)
  unfolding has_expired
  take_current now heap none = (none, (none, cancel_op))
  take_current now heap (some none) = (none, (none, cancel_op))
  take_current now heap (some (some a)) =
      if has_expired now (heap a).exp
      then (none, (none, invalidate_op))
      else (some a, (none, invalidate_op))

-- Two pointers are the same.
abbrev pub same_pointer : Pointer → ℕ → Bool
same_pointer none a = false
same_pointer (some b) a = nat_beq b a

module _ {K : Type 0} ⦃key : Comparable K⦄ {otter : Otter K} {V : Type 0} where
  -- `NewCache`; the heap is what the program has when it makes the cache.
  unfoldable pub new_cache : ℕ → (ℕ → Item V) → ℕ → Cache otter V
  new_cache maximum_size heap allocated = record {
    inner = otter.new maximum_size;
    heap = heap;
    allocated = allocated;
    closed = false;
  }

  -- `&Item{Value: value}`, with the deadline that it gets before it is used.
  unfoldable pub new_item : Option V → ℕ → Cache otter V → ℕ × Cache otter V
  new_item value exp c = (
    c.allocated,
    record c {
      heap =
          modify c.allocated (λ it. record { value = value; last_accessed = 0; exp = exp }) c.heap;
      allocated = suc c.allocated;
    },
  )

  unfoldable pub load : ℕ → K → Cache otter V → Pointer × Cache otter V
  unfolding has_expired modify
  load now k c =
      let absent : Pointer × Cache otter V = (none, c) in
      let found = elim (otter.get_if_present k c.inner) as (λ _. Pointer × Cache otter V) [
        | none ↦ absent
        | some none ↦ absent
        | some (some a) ↦
            if has_expired now (c.heap a).exp
            then (none, record c { inner = otter.invalidate k c.inner })
            else (
              some a,
              record c {
                heap = modify a (λ it. record it { last_accessed = unix_nano now }) c.heap;
              },
            )
      ] in
      if c.closed then absent else found

  unfoldable pub store : K → Pointer → Cache otter V → Cache otter V
  store k none c = c
  store k (some a) c = if c.closed then c else record c { inner = otter.set k (some a) c.inner }

  unfoldable pub store_ttl : ℕ → K → Pointer → Int64 → Cache otter V → Cache otter V
  unfolding modify exp_after
  store_ttl now k none ttl c = c
  store_ttl now k (some a) ttl c =
      let stored = record c {
        heap = modify a (λ it. record it { exp = exp_after now ttl }) c.heap;
        inner = otter.set k (some a) c.inner;
      } in
      if c.closed then c else stored

  unfoldable pub load_or_store : ℕ → K → Pointer → Cache otter V → (Pointer × Bool) × Cache otter V
  unfolding has_expired replace_expired
  load_or_store now k none c = ((none, false), c)
  load_or_store now k (some a) c =
      let ((v, stored), inner₁) = otter.set_if_absent k (some a) c.inner in
      let c₁ = record c { inner = inner₁ } in
      let present = elim v as (λ _. (Pointer × Bool) × Cache otter V) [
        | none ↦ ((some a, false), record c { inner = otter.set k (some a) inner₁ })
        | some b ↦
            let ((actual, _), inner₂) = otter.compute k (replace_expired now c.heap a) inner₁ in
            let c₂ = record c { inner = inner₂ } in
            if has_expired now (c.heap b).exp
            then (if same_pointer actual a then ((some a, false), c₂) else ((actual, true), c₂))
            else ((some b, true), c₁)
      ] in
      if c.closed then ((none, false), c) else if stored then ((some a, false), c₁) else present

  unfoldable pub delete : K → Cache otter V → Cache otter V
  delete k c = if c.closed then c else record c { inner = otter.invalidate k c.inner }

  unfoldable pub load_and_delete : ℕ → K → Cache otter V → (Pointer × Bool) × Cache otter V
  unfolding take_current
  load_and_delete now k c =
      let deleted = (take_current now c.heap (otter.get_if_present k c.inner)).0 in
      let c' = record c {
        inner = (otter.compute k (λ current. (take_current now c.heap current).1) c.inner).1;
      } in
      if c.closed then ((none, false), c) else ((deleted, is_some deleted), c')
