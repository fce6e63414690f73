-- ===== src/BytesPool/Tests.antt =====
-- The theorems about pool.go at a concrete pool, and runs of the code.
use mappo.Prelude.{ℕ, ◌≡◌, refl, some, List, [], ◌∷◌, false, arith, if◌then◌else◌, replicate}
use mappo.BytesPool
use mappo.BytesPool.{
  Buffer, BytesPool, BytesPoolOptions, PoolStats, cap_limit, capacity, is_wrong_size, no_counts,
  stats, new_bytes_pool_with_options, new_bytes_pool, new_bytes_pool_with_max,
}
use mappo.BytesPool.Counts
use mappo.BytesPool.Counts.{Call, run_call, run_calls, gets, puts, rejected, counts}
use mappo.BytesPool.Kept
use mappo.BytesPool.Kept.{Reach, Step, Fits}
use mappo.Run.{ok, panic}
use mappo.SyncPool
use mappo.Time.{is_positive, signed_gt}

program : Unit {0}
unfolding is_positive signed_gt SyncPool.take_out SyncPool.get SyncPool.put capacity cap_limit
    is_wrong_size stats new_bytes_pool_with_options new_bytes_pool new_bytes_pool_with_max
    BytesPool.get BytesPool.put run_call run_calls gets puts rejected
program = tt

abbrev options : BytesPoolOptions
options = record { size = 2; max_cap = 4; no_stats = false }

abbrev empty : BytesPool
empty = record {
  pool = record { items = []; new = some (record { bytes = 0 ∷ 0 ∷ []; len = 2 }) };
  size = 2;
  max_cap = 4;
  stats = some no_counts;
}

abbrev buffer : ℕ → Buffer
buffer n = record { bytes = replicate n 7; len = 1 }

new_runs :
    (new_bytes_pool_with_options options ≡ ok empty)
    × (new_bytes_pool_with_max 2 4 ≡ ok empty)
    × (new_bytes_pool 0 ≡ panic)
unfolding program
new_runs = (refl, refl, refl)

-- A buffer of three bytes comes out again as it went in, but empty.
get_run :
    (BytesPool.get 0 (BytesPool.put (buffer 3) empty)).0
    ≡ record { bytes = 7 ∷ 7 ∷ 7 ∷ []; len = 0 }
unfolding program
get_run = refl

abbrev calls : List Call
calls = Call.get 0 ∷ Call.put (buffer 3) ∷ Call.put (buffer 5) ∷ Call.get 0 ∷ Call.get 0 ∷ []

stats-run_calls_example : stats (run_calls calls empty) ≡ (
    if options.no_stats
    then no_counts
    else counts (gets calls) (puts calls) (rejected options.size (cap_limit options) calls))
stats-run_calls_example = Counts.stats-run_calls options empty calls (unfold program in refl)

abbrev put_back : BytesPool
put_back = BytesPool.put (buffer 3) empty

get-Fits_example :
    Fits options.size (cap_limit options) (BytesPool.get 0 put_back).0
    × ((BytesPool.get 0 put_back).0.len ≡ 0)
get-Fits_example = Kept.get-Fits options put_back 0 (omega arith) (
    Reach.next (Reach.new empty (unfold program in refl))
      (Step.put (buffer 3) (unfold program in omega arith)))
