-- ===== src/Sharded/Fresh.antt =====
-- `NewShardedWithConfig` and `Clear` of sharded.go.
use mappo.Prelude.{
  ℕ, zero, suc, ◌-◌, ◌<◌, ◌≤◌, ◌^◌, ◌≡◌, refl, Option, none, some, List, [], ◌∷◌, arith, length,
  get_elem?, replicate, length-replicate, map, length-map, ap, sym, ◌∙◌, Comparable, if◌then◌else◌,
}
use mappo.MapOf.{MapOf}
use mappo.Run.{ok}
use mappo.Sharded.{Sharded, new_sharded_with_config, shard_count, get}
use mappo.Sharded.Bits.{shard_count-power}
use mappo.Sharded.Route.{WellFormed, load_in, get-view}
use mappo.Sharded.Whole.{clear}
use mappo.Time.{Int64, is_positive}

module _ {A : Type 0} where
  get_elem?-replicate : (n i : ℕ) (a b : A) → get_elem? (replicate n a) i ≡ some b → a ≡ b
  get_elem?-replicate zero i a b e = cc
  get_elem?-replicate (suc n) zero a b e = cc
  get_elem?-replicate (suc n) (suc i) a b e = get_elem?-replicate n i a b e

  get_elem?-map :
      (f : A → A) (xs : List A) (i : ℕ) (b : A)
      → get_elem? (map f xs) i ≡ some b
      → (a : A) × (b ≡ f a)
  get_elem?-map f [] i b e = cc
  get_elem?-map f (x ∷ xs) zero b e = (x, cc)
  get_elem?-map f (x ∷ xs) (suc i) b e = get_elem?-map f xs i b e

module _ {K V : Type 0} ⦃key : Comparable K⦄ {xsync : MapOf K V} (hash : K → ℕ) where
  -- Shards that are all empty.
  Empty-WellFormed :
      (sm : Sharded xsync)
      → sm.mask < length sm.shards
      → ((i : ℕ) (shard : xsync.Map) (k : K)
          → get_elem? sm.shards i ≡ some shard
          → xsync.load k shard ≡ none)
      → WellFormed hash sm × ((k : K) → get xsync hash k sm ≡ ok none)
  Empty-WellFormed sm inside empty =
      let well : WellFormed hash sm = record {
        inside = inside;
        placed = λ i shard k v e found. let absent = empty i shard k e in cc;
      } in
      (
        well,
        λ k.
            get-view hash k sm well
            ∙ ap ok (none_of_load (get_elem? sm.shards _) k (λ shard e. empty _ shard k e)),
      )
    where
      none_of_load :
          (o : Option xsync.Map) (k : K)
          → ((shard : xsync.Map) → o ≡ some shard → xsync.load k shard ≡ none)
          → load_in xsync k o ≡ none
      none_of_load none k h = refl
      none_of_load (some shard) k h = h shard refl

  -- A new map is well formed and empty.
  pub new_sharded-WellFormed :
      (cpus configured : Int64) (asked : ℕ)
      → (if is_positive configured then configured else cpus) ≡ asked
      → 0 < asked
      → asked ≤ 2 ^ 62
      → WellFormed hash (new_sharded_with_config xsync cpus configured)
        × ((k : K) → get xsync hash k (new_sharded_with_config xsync cpus configured) ≡ ok none)
  unfolding new_sharded_with_config
  new_sharded-WellFormed cpus configured asked e p q =
      let n = shard_count cpus configured in
      let (j, power, _, enough, _, _) = shard_count-power cpus configured asked e p q in
      Empty-WellFormed (record { shards = replicate n xsync.new_map_of; mask = n - 1 })
        (omega (arith, length-replicate n xsync.new_map_of, power, enough, p))
        (λ i shard k e'.
          ap (xsync.load k) (sym (get_elem?-replicate n i xsync.new_map_of shard e'))
          ∙ xsync.load-new_map_of k)

  -- `Clear` leaves a well-formed map without keys.
  pub clear-WellFormed :
      (sm : Sharded xsync)
      → WellFormed hash sm
      → WellFormed hash (clear xsync sm) × ((k : K) → get xsync hash k (clear xsync sm) ≡ ok none)
  unfolding clear
  clear-WellFormed sm h =
      Empty-WellFormed (record sm { shards = map xsync.clear sm.shards })
        (omega (arith, h.inside, length-map sm.shards xsync.clear))
        (λ i shard k e.
          let (old, same) = get_elem?-map xsync.clear sm.shards i shard e in
          ap (xsync.load k) same ∙ xsync.load-clear k old)
