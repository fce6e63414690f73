-- ===== src/Otter.antt =====
-- `otter.Cache[string, *Item]`, the cache of a third party that Cache holds: the operations that the
-- repository calls, with what each is documented to do. A pointer is an address, or `none` for nil.
pub mod Assoc
pub mod Laws
use mappo.Prelude.{
  ℕ, ◌≡◌, Option, none, some, List, Bool, true, false, Comparable, ◌==◌, if◌then◌else◌, is_some,
  value_or,
}
use mappo.Pairs.{lookup, Once}

abbrev pub Pointer : Type 0
Pointer = Option ℕ

-- What a function that is passed to `Compute` asks for, beside the new value.
pub data ComputeOp : Type 0 where
  write_op : ComputeOp
  cancel_op : ComputeOp
  invalidate_op : ComputeOp

-- What `Compute` returns, and the cache after it, by the old entry and the function's result; `written`
-- and `invalidated` are the cache after a write and after an invalidation.
abbrev pub compute_result :
    {M : Type 0} → Option Pointer → Pointer × ComputeOp → M → M → M → (Pointer × Bool) × M
compute_result old (new, write_op) m written invalidated = ((new, true), written)
compute_result old (new, cancel_op) m written invalidated = ((value_or old none, is_some old), m)
compute_result old (new, invalidate_op) m written invalidated = ((none, false), invalidated)

-- `SetIfAbsent` returns the value that is there then, and whether it is the new one.
abbrev pub set_if_absent_result :
    {M : Type 0} → Option Pointer → Pointer → M → M → (Pointer × Bool) × M
set_if_absent_result none p m written = ((p, true), written)
set_if_absent_result (some old) p m written = ((old, false), m)

-- A cache is a value here, and an operation that writes returns the cache after it. `evict` is what
-- the cache does on its own account, at any time, to stay within its maximum size: an entry goes.
pub record Otter (K : Type 0) ⦃key : Comparable K⦄ : Type 1 where
  pub Map : Type 0
  -- Of a maximum size.
  pub new : ℕ → Map
  pub get_if_present : K → Map → Option Pointer
  pub set : K → Pointer → Map → Map
  pub set_if_absent : K → Pointer → Map → (Pointer × Bool) × Map
  pub compute : K → (Option Pointer → Pointer × ComputeOp) → Map → (Pointer × Bool) × Map
  pub invalidate : K → Map → Map
  pub invalidate_all : Map → Map
  pub evict : K → Map → Map
  pub estimated_size : Map → ℕ
  pub get_maximum : Map → ℕ
  -- The counters of hits and of misses, as far as `Stats` tells them, and of evictions.
  pub stats : Map → ℕ × ℕ × ℕ
  -- The entries that `All` yields, in its order.
  pub all : Map → List (K × Pointer)
  pub get-new : (k : K) (n : ℕ) → get_if_present k (new n) ≡ none
  pub get-set :
      (k j : K) (p : Pointer) (m : Map)
      → get_if_present j (set k p m) ≡ (if k == j then some p else get_if_present j m)
  pub get-invalidate :
      (k j : K) (m : Map)
      → get_if_present j (invalidate k m) ≡ (if k == j then none else get_if_present j m)
  pub get-invalidate_all : (k : K) (m : Map) → get_if_present k (invalidate_all m) ≡ none
  pub get-evict :
      (k j : K) (m : Map)
      → get_if_present j (evict k m) ≡ (if k == j then none else get_if_present j m)
  pub set_if_absent_lem :
      (k : K) (p : Pointer) (m : Map)
      → set_if_absent k p m ≡ set_if_absent_result (get_if_present k m) p m (set k p m)
  pub compute_lem :
      (k : K) (fn : Option Pointer → Pointer × ComputeOp) (m : Map)
      → compute k fn m
        ≡ compute_result
            (get_if_present k m)
            (fn (get_if_present k m))
            m
            (set k (fn (get_if_present k m)).0 m)
            (invalidate k m)
  pub lookup-all : (k : K) (m : Map) → lookup k (all m) ≡ get_if_present k m
  pub all-Once : (m : Map) → Once (all m)
