-- ===== src/MapOf.antt =====
-- `xsync.MapOf`, the hash map of a third party that Concurrent, Sharded, Ordered and LRU hold:
-- the operations that the repository calls, with what each is documented to do.
pub mod Assoc
pub mod Laws
use mappo.Prelude.{
  ℕ, ◌≤◌, ◌≡◌, Option, none, some, List, Bool, true, false, Comparable, ◌==◌, if◌then◌else◌, length,
}
use mappo.Pairs.{lookup, Once}

-- `LoadOrStore(key, value)`: what it returns and the map after it, by what `Load` finds.
abbrev pub load_or_store_result {ℓ} : {V M : Type ℓ} → Option V → V → M → M → (V × Bool) × M
load_or_store_result none v m stored = ((v, false), stored)
load_or_store_result (some old) v m stored = ((old, true), m)

-- A map is a value here, and an operation that writes returns the map after it. `compute`'s
-- function takes `some old`, or `none` for a key that is not there (Go passes the zero value and
-- `loaded == false`), and returns the new value and `delete`.
pub record MapOf {ℓ} (K V : Type ℓ) ⦃key : Comparable K⦄ : Type (ℓ + 1) where
  pub Map : Type ℓ
  pub new_map_of : Map
  pub load : K → Map → Option V
  pub store : K → V → Map → Map
  pub delete : K → Map → Map
  pub compute : K → (Option V → V × Bool) → Map → Map
  pub load_or_store : K → V → Map → (V × Bool) × Map
  pub clear : Map → Map
  pub size : Map → ℕ
  -- The pairs that `Range` visits, in its order.
  pub range : Map → List (K × V)
  pub load-new_map_of : (k : K) → load k new_map_of ≡ none
  pub load-store :
      (k j : K) (v : V) (m : Map) → load j (store k v m) ≡ (if k == j then some v else load j m)
  pub load-delete : (k j : K) (m : Map) → load j (delete k m) ≡ (if k == j then none else load j m)
  pub load-clear : (k : K) (m : Map) → load k (clear m) ≡ none
  pub compute_lem :
      (k : K) (fn : Option V → V × Bool) (m : Map)
      → compute k fn m ≡ (if (fn (load k m)).1 then delete k m else store k (fn (load k m)).0 m)
  pub load_or_store_lem :
      (k : K) (v : V) (m : Map)
      → load_or_store k v m ≡ load_or_store_result (load k m) v m (store k v m)
  pub lookup-range : (k : K) (m : Map) → lookup k (range m) ≡ load k m
  pub range-Once : (m : Map) → Once (range m)
  pub size-range : (m : Map) → size m ≡ length (range m)
