-- ===== src/Sharded/Whole.antt =====
-- The methods of sharded.go that go through all shards.
use mappo.Prelude.{ℕ, ◌+◌, List, [], ◌∷◌, ◌++◌, Bool, true, false, if◌then◌else◌, map, Comparable}
use mappo.MapOf.{MapOf}
use mappo.Sharded.{Sharded}

module _ {K V : Type 0} ⦃key : Comparable K⦄ (xsync : MapOf K V) where
  -- `Clear`
  unfoldable pub clear : Sharded xsync → Sharded xsync
  clear sm = record sm { shards = map xsync.clear sm.shards }

  -- `Len` and `Size`
  unfoldable pub sizes : List xsync.Map → ℕ
  sizes [] = 0
  sizes (shard ∷ shards) = xsync.size shard + sizes shards

  unfoldable pub len : Sharded xsync → ℕ
  unfolding sizes
  len sm = sizes sm.shards

  unfoldable pub shard_stats : Sharded xsync → List ℕ
  shard_stats sm = map xsync.size sm.shards

  -- The loop of `Range` in one shard: the callback's state, and whether it goes on.
  unfoldable pub range_shard {ℓ} :
      {S : Type ℓ} → (K → V → S → S × Bool) → List (K × V) → S → S × Bool
  range_shard fn [] s = (s, true)
  range_shard fn ((k, v) ∷ pairs) s =
      let r = fn k v s in let rest = range_shard fn pairs r.0 in if r.1 then rest else (r.0, false)

  unfoldable pub range_shards {ℓ} : {S : Type ℓ} → (K → V → S → S × Bool) → List xsync.Map → S → S
  unfolding range_shard
  range_shards fn [] s = s
  range_shards fn (shard ∷ shards) s =
      let r = range_shard fn (xsync.range shard) s in
      let rest = range_shards fn shards r.0 in if r.1 then rest else r.0

  unfoldable pub range {ℓ} : {S : Type ℓ} → (K → V → S → S × Bool) → S → Sharded xsync → S
  unfolding range_shards
  range fn s sm = range_shards fn sm.shards s

  unfoldable pub keys : Sharded xsync → List K
  unfolding range
  keys sm = range (λ k v keys. (keys ++ k ∷ [], true)) [] sm

  unfoldable pub values : Sharded xsync → List V
  unfolding range
  values sm = range (λ k v values. (values ++ v ∷ [], true)) [] sm

  -- `ClearIf` collects the keys of a shard that the predicate selects, and then deletes them.
  unfoldable pub to_delete : (K → V → Bool) → List (K × V) → List K
  to_delete should_remove [] = []
  to_delete should_remove ((k, v) ∷ pairs) =
      let rest = to_delete should_remove pairs in if should_remove k v then k ∷ rest else rest

  unfoldable pub delete_all : List K → ℕ → xsync.Map → ℕ × xsync.Map
  delete_all [] total shard = (total, shard)
  delete_all (k ∷ ks) total shard = delete_all ks (total + 1) (xsync.delete k shard)

  unfoldable pub clear_shards : (K → V → Bool) → List xsync.Map → ℕ → ℕ × List xsync.Map
  unfolding to_delete delete_all
  clear_shards should_remove [] total = (total, [])
  clear_shards should_remove (shard ∷ shards) total =
      let (total', shard') = delete_all (to_delete should_remove (xsync.range shard)) total shard in
      let (total'', shards') = clear_shards should_remove shards total' in
      (total'', shard' ∷ shards')

  unfoldable pub clear_if : (K → V → Bool) → Sharded xsync → ℕ × Sharded xsync
  unfolding clear_shards
  clear_if should_remove sm =
      let (total, shards) = clear_shards should_remove sm.shards 0 in
      (total, record sm { shards = shards })
