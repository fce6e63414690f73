-- ===== src/BytesPool.antt =====
-- pool.go: byte buffers that are used again, with counters of what became of them.
pub mod Kept
pub mod Counts
mod Tests
use mappo.Prelude.{
  ℕ, zero, suc, ◌+◌, ◌%◌, ◌^◌, Option, none, some, List, [], ◌∷◌, Bool, true, false, if◌then◌else◌,
  nat_beq, length, replicate, ◌||◌,
}
use mappo.Run.{Run, ok, panic, out_of_fuel}
use mappo.SyncPool
use mappo.SyncPool.{SyncPool}
use mappo.Time.{Int64, is_positive, signed_gt}

-- A slice from the start of its array: the array's bytes, stale ones too, and the slice's length.
pub record Buffer : Type 0 where
  pub bytes : List ℕ
  pub len : ℕ

-- `PoolStats`, and `poolStats` with the counters as bit patterns.
pub record PoolStats : Type 0 where
  pub hits : ℕ
  pub misses : ℕ
  pub returned : ℕ
  pub dropped : ℕ

pub record BytesPool : Type 0 where
  pub pool : SyncPool Buffer
  pub size : Int64
  pub max_cap : Int64
  pub stats : Option PoolStats

pub record BytesPoolOptions : Type 0 where
  pub size : Int64
  pub max_cap : Int64
  pub no_stats : Bool

unfoldable pub capacity : Buffer → ℕ
capacity buf = length buf.bytes

abbrev pub no_counts : PoolStats
no_counts = record { hits = 0; misses = 0; returned = 0; dropped = 0 }

-- `if p.stats != nil { ... }`
abbrev pub when_counted : (PoolStats → PoolStats) → Option PoolStats → Option PoolStats
when_counted add none = none
when_counted add (some s) = some (add s)

-- `maxCap < opt.Size`
unfoldable pub cap_limit : BytesPoolOptions → Int64
cap_limit opt = if signed_gt opt.size opt.max_cap then opt.size else opt.max_cap

unfoldable pub new_bytes_pool_with_options : BytesPoolOptions → Run BytesPool
new_bytes_pool_with_options opt =
    if is_positive opt.size
    then ok (record {
      pool = record {
        items = [];
        new = some (record { bytes = replicate opt.size 0; len = opt.size });
      };
      size = opt.size;
      max_cap = cap_limit opt;
      stats = if opt.no_stats then none else some no_counts;
    })
    else panic

unfoldable pub new_bytes_pool : Int64 → Run BytesPool
new_bytes_pool size =
    new_bytes_pool_with_options (record { size = size; max_cap = size; no_stats = false })

unfoldable pub new_bytes_pool_with_max : Int64 → Int64 → Run BytesPool
new_bytes_pool_with_max size max_cap =
    new_bytes_pool_with_options (record { size = size; max_cap = max_cap; no_stats = false })

unfoldable pub get : ℕ → BytesPool → Buffer × BytesPool
get choice p =
    let (v, pool') = SyncPool.get choice p.pool in
    elim v [
      | some buf ↦ (
        record buf { len = 0 },
        record p {
          pool = pool';
          stats = when_counted (λ s. record s { hits = (s.hits + 1) % 2 ^ 64 }) p.stats;
        },
      )
      | none ↦ (
        record { bytes = replicate p.size 0; len = 0 },
        record p {
          pool = pool';
          stats = when_counted (λ s. record s { misses = (s.misses + 1) % 2 ^ 64 }) p.stats;
        },
      )
    ]

-- The size check of `Put`.
unfoldable pub is_wrong_size : Int64 → Int64 → ℕ → Bool
is_wrong_size size max_cap c =
    if nat_beq c size then false else signed_gt size c || signed_gt c max_cap

unfoldable pub put : Buffer → BytesPool → BytesPool
put buf p =
    let c = capacity buf in
    if is_wrong_size p.size p.max_cap c
    then record p {
      stats =
          when_counted
            (λ s. record s {
              returned = (s.returned + 1) % 2 ^ 64;
              dropped = (s.dropped + 1) % 2 ^ 64;
            })
            p.stats;
    }
    else record p {
      pool = SyncPool.put (record buf { len = c }) p.pool;
      stats = when_counted (λ s. record s { returned = (s.returned + 1) % 2 ^ 64 }) p.stats;
    }

unfoldable pub stats : BytesPool → PoolStats
stats p = elim p.stats [ none ↦ no_counts | some s ↦ s ]

-- `Cap`
unfoldable pub target_cap : BytesPool → Int64
target_cap p = p.size

-- `MaxCap`
unfoldable pub max_cap : BytesPool → Int64
max_cap p = p.max_cap
