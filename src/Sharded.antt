-- ===== src/Sharded.antt =====
-- sharded.go: a map split over a power-of-two number of xsync maps; the low bits of a key's hash
-- choose the shard. `hash` is the function that makeHasher of hash.go makes, with the seed that the
-- map was made with. An index out of the slice's range panics.
pub mod Bits
pub mod Route
pub mod Writes
pub mod Whole
pub mod Sweep
pub mod Fresh
pub mod Sieve
mod Tests
use mappo.Prelude.{
  ℕ, zero, suc, ◌+◌, ◌*◌, ◌-◌, ◌%◌, ◌/◌, ◌^◌, Option, none, some, List, [], ◌∷◌, ◌++◌, Bool, true,
  false, if◌then◌else◌, nat_beq, is_some, value_or, length, get_elem?, set, replicate, Comparable,
}
use Prim.Native.Nat.{min}
use mappo.MapOf.{MapOf}
use mappo.Run.{Run, ok, panic, ◌>>=◌}
use mappo.Time.{Int64, is_positive, signed_gt}

-- `a & b` on `w` bits.
unfoldable pub and_bits : ℕ → ℕ → ℕ → ℕ
and_bits zero a b = 0
and_bits (suc w) a b = and_bits w (a / 2) (b / 2) * 2 + min (a % 2) (b % 2)

-- `bits.Len64` of a number of `w` bits.
unfoldable pub bit_length : ℕ → ℕ → ℕ
bit_length zero x = 0
bit_length (suc w) x = let rest = bit_length w (x / 2) in if nat_beq x 0 then 0 else suc rest

-- How many shards `NewShardedWithConfig` makes; `cpus` is what `runtime.NumCPU` returns.
unfoldable pub shard_count : Int64 → Int64 → Int64
unfolding is_positive signed_gt bit_length
shard_count cpus configured =
    let asked = if is_positive configured then configured else cpus in
    let n = if is_positive asked then asked else 2 in
    let rounded = 2 ^ bit_length 64 (n - 1) % 2 ^ 64 in if signed_gt 2 rounded then 2 else rounded

-- The functions that the methods pass on to xsync's `Compute`: what is left in the captured
-- variables, the new value, and whether to delete.
module _ {V : Type 0} where
  unfoldable pub set_if_absent_entry : V → Option V → (V × Bool) × (V × Bool)
  set_if_absent_entry v (some old) = ((old, true), (old, false))
  set_if_absent_entry v none = ((v, false), (v, false))

  unfoldable pub compute_entry : V → (Option V → V × Bool) → Option V → V × (V × Bool)
  compute_entry zero_value fn old =
      let (new_v, keep) = fn old in
      if keep then (new_v, (new_v, false)) else (zero_value, (zero_value, true))

  -- The captured `old` and `replaced` are `some old`, or `none`.
  unfoldable pub replace_entry : V → V → Option V → Option V × (V × Bool)
  replace_entry zero_value v none = (none, (zero_value, true))
  replace_entry zero_value v (some current) = (some current, (v, false))

  -- `any_eq` is the comparison of the two values as interfaces, which panics on values that are not
  -- comparable, and `deep_equal` the reflective one.
  unfoldable pub compare_entry :
      V → (V → V → Run Bool) → (V → V → Bool) → V → V → Option V → Run (Bool × (V × Bool))
  compare_entry zero_value any_eq deep_equal old new_v none = ok (false, (zero_value, true))
  compare_entry zero_value any_eq deep_equal old new_v (some current) = do
    same ← any_eq current old
    ok (
        if same
        then (true, (new_v, false))
        else if deep_equal current old
        then (true, (new_v, false))
        else (false, (current, false)))

module _ {K V : Type 0} ⦃key : Comparable K⦄ where
  pub record Sharded (xsync : MapOf K V) : Type 0 where
    pub shards : List xsync.Map
    pub mask : ℕ

  module _ (xsync : MapOf K V) where
    unfoldable pub new_sharded_with_config : Int64 → Int64 → Sharded xsync
    unfolding shard_count
    new_sharded_with_config cpus configured =
        let n = shard_count cpus configured in
        record { shards = replicate n xsync.new_map_of; mask = n - 1 }

  module _ (xsync : MapOf K V) (hash : K → ℕ) where
    unfoldable pub shard_index : K → Sharded xsync → ℕ
    shard_index k sm = and_bits 64 (hash k) sm.mask

    unfoldable pub get_shard : K → Sharded xsync → Run xsync.Map
    get_shard k sm = elim (get_elem? sm.shards (shard_index k sm)) [
      | none ↦ panic
      | some shard ↦ ok shard
    ]

    -- The shard is one object: what is written to it is seen through the map.
    unfoldable pub write_shard : K → xsync.Map → Sharded xsync → Sharded xsync
    write_shard k shard sm = record sm { shards = set sm.shards (shard_index k sm) shard }

    unfoldable pub get : K → Sharded xsync → Run (Option V)
    unfolding get_shard
    get k sm = do shard ← get_shard k sm; ok (xsync.load k shard)

    unfoldable pub has : K → Sharded xsync → Run Bool
    unfolding get
    has k sm = do found ← get k sm; ok (is_some found)

    -- `Set`
    unfoldable pub store : K → V → Sharded xsync → Run (Sharded xsync)
    unfolding get_shard write_shard
    store k v sm = do shard ← get_shard k sm; ok (write_shard k (xsync.store k v shard) sm)

    -- A function passed on to `Compute`, with what it leaves in the captured variables.
    unfoldable pub computed {ℓ} :
        {R : Type ℓ} → K → (Option V → R × (V × Bool)) → Sharded xsync → Run (R × Sharded xsync)
    unfolding get_shard write_shard
    computed k fn sm = do
      shard ← get_shard k sm
      ok ((fn (xsync.load k shard)).0, write_shard k (xsync.compute k (λ old. (fn old).1) shard) sm)

    -- `SetIfAbsent` and `GetOrSet`
    unfoldable pub set_if_absent : K → V → Sharded xsync → Run ((V × Bool) × Sharded xsync)
    unfolding computed set_if_absent_entry
    set_if_absent k v = computed k (set_if_absent_entry v)

    unfoldable pub compute : V → K → (Option V → V × Bool) → Sharded xsync → Run (V × Sharded xsync)
    unfolding computed compute_entry
    compute zero_value k fn = computed k (compute_entry zero_value fn)

    unfoldable pub update : V → K → (Option V → V) → Sharded xsync → Run (V × Sharded xsync)
    unfolding compute
    update zero_value k fn = compute zero_value k (λ curr. (fn curr, true))

    unfoldable pub replace : V → K → V → Sharded xsync → Run (Option V × Sharded xsync)
    unfolding computed replace_entry
    replace zero_value k v = computed k (replace_entry zero_value v)

    unfoldable pub compare_and_swap :
        V
        → (V → V → Run Bool)
        → (V → V → Bool)
        → K
        → V
        → V
        → Sharded xsync
        → Run (Bool × Sharded xsync)
    unfolding get_shard write_shard compare_entry
    compare_and_swap zero_value any_eq deep_equal k old new_v sm = do
      shard ← get_shard k sm
      entry ← compare_entry zero_value any_eq deep_equal old new_v (xsync.load k shard)
      ok (entry.0, write_shard k (xsync.compute k (λ current. entry.1) shard) sm)

    unfoldable pub delete : V → K → Sharded xsync → Run (Bool × Sharded xsync)
    unfolding computed
    delete zero_value k = computed k (λ current. (is_some current, (zero_value, true)))
