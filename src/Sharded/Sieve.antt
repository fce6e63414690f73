-- ===== src/Sharded/Sieve.antt =====
-- `ClearIf` of sharded.go.
use mappo.Prelude.{
  ℕ, zero, suc, ◌+◌, ◌≡◌, refl, Option, none, some, List, [], ◌∷◌, Bool, true, false, arith,
  if◌then◌else◌, length, get_elem?, ap, sym, ◌∙◌, Comparable, ◌==◌, eq_iff, eq_refl, is_some,
  Bool-cases, inl, inr,
}
use mappo.MapOf.{MapOf}
use mappo.MapOf.Laws.{size-delete}
use mappo.Pairs.{lookup, count, to_nat, Once, Once-tail, apart_of_Once, lookup_of_count-zero}
use mappo.Sharded.{Sharded, shard_index}
use mappo.Sharded.Route.{WellFormed, view, load_in}
use mappo.Sharded.Whole.{to_delete, delete_all, clear_shards, clear_if, sizes, len}

module _ {K V : Type 0} where
  -- What stays of what a key holds.
  abbrev pub sieved : (K → V → Bool) → K → Option V → Option V
  sieved should_remove k none = none
  sieved should_remove k (some v) = if should_remove k v then none else some v

module _ {K V : Type 0} ⦃key : Comparable K⦄ (xsync : MapOf K V)
    (should_remove : K → V → Bool) where
  -- What a key holds once the selected keys of some pairs are deleted.
  abbrev deleted : K → Option V → Option V → Option V
  deleted j none now = now
  deleted j (some v) now = sieved should_remove j (some v)

  lookup_head : (k : K) (v : V) (l : List (K × V)) → Once ((k, v) ∷ l) → lookup k l ≡ none
  unfolding count
  lookup_head k v l once = lookup_of_count-zero k l (ground (arith, once k, eq_refl k))

  deleted_step :
      (k j : K) (v : V) (l : List (K × V)) (shard : xsync.Map)
      → Once ((k, v) ∷ l)
      → should_remove k v ≡ true
      → deleted j (lookup j l) (xsync.load j (xsync.delete k shard))
        ≡ deleted j (lookup j ((k, v) ∷ l)) (xsync.load j shard)
  unfolding lookup
  deleted_step k j v l shard once selected = elim (Bool-cases (k == j)) [
    | inr other ↦
        rw other (ap (deleted j (lookup j l)) (xsync.load-delete k j shard ∙ rw other refl))
    | inl same ↦
        let itself : k ≡ j = (eq_iff k j).0 same in
        let gone : lookup j l ≡ none = ap (λ x. lookup x l) (sym itself) ∙ lookup_head k v l once in
        let chosen : should_remove j v ≡ true =
          ap (λ x. should_remove x v) (sym itself) ∙ selected in
        rw (same, gone, chosen) (xsync.load-delete k j shard ∙ rw same refl)
  ]

  spared_step :
      (k j : K) (v : V) (l : List (K × V)) (shard : xsync.Map)
      → Once ((k, v) ∷ l)
      → should_remove k v ≡ false
      → xsync.load k shard ≡ some v
      → deleted j (lookup j l) (xsync.load j shard)
        ≡ deleted j (lookup j ((k, v) ∷ l)) (xsync.load j shard)
  unfolding lookup
  spared_step k j v l shard once spared there = elim (Bool-cases (k == j)) [
    | inr other ↦ rw other refl
    | inl same ↦
        let itself : k ≡ j = (eq_iff k j).0 same in
        let gone : lookup j l ≡ none = ap (λ x. lookup x l) (sym itself) ∙ lookup_head k v l once in
        let kept : should_remove j v ≡ false = ap (λ x. should_remove x v) (sym itself) ∙ spared in
        rw (same, gone, kept) (ap (λ x. xsync.load x shard) (sym itself) ∙ there)
  ]

  delete_all_lem :
      (l : List (K × V)) (total : ℕ) (shard : xsync.Map)
      → Once l
      → ((j : K) (v : V) → lookup j l ≡ some v → xsync.load j shard ≡ some v)
      → (total' : ℕ) × (shard' : xsync.Map) × (delete_all xsync
            (to_delete xsync should_remove l)
            total
            shard
          ≡ (total', shard'))
        × (total' + xsync.size shard' ≡ total + xsync.size shard)
        × ((j : K) → xsync.load j shard' ≡ deleted j (lookup j l) (xsync.load j shard))
  unfolding delete_all to_delete lookup
  delete_all_lem [] total shard once loads = (total, shard, refl, refl, λ j. refl)
  delete_all_lem ((k, v) ∷ l) total shard once loads =
      let later : (j : K) (w : V) → lookup j l ≡ some w → (k == j) ≡ false =
        λ j w e. apart_of_Once k j v w l once e in
      let loads' : (j : K) (w : V) → lookup j l ≡ some w → xsync.load j shard ≡ some w =
        λ j w e. loads j w (rw (later j w e) e) in
      elim (Bool-cases (should_remove k v)) [
        | inl selected ↦
            let (total', shard', run, sum, same) =
              delete_all_lem l (total + 1) (xsync.delete k shard) (Once-tail k v l once)
                (λ j w e. xsync.load-delete k j shard ∙ rw (later j w e) (loads' j w e)) in
            let there : xsync.load k shard ≡ some v = loads k v (rw (eq_refl k) refl) in
            (
              total',
              shard',
              rw selected run,
              omega (arith, sum, size-delete xsync k shard, ap (λ o. to_nat (is_some o)) there),
              λ j. same j ∙ deleted_step k j v l shard once selected,
            )
        | inr spared ↦
            let there : xsync.load k shard ≡ some v = loads k v (rw (eq_refl k) refl) in
            let (total', shard', run, sum, same) =
              delete_all_lem l total shard (Once-tail k v l once) loads' in
            (
              total',
              shard',
              rw spared run,
              sum,
              λ j. same j ∙ spared_step k j v l shard once spared there,
            )
      ]

  deleted-sieved : (j : K) (o o' : Option V) → o ≡ o' → deleted j o o' ≡ sieved should_remove j o'
  deleted-sieved j none o' e = sym e ∙ ap (sieved should_remove j) e
  deleted-sieved j (some v) o' e = ap (sieved should_remove j) e

  clear_shards_lem :
      (shards : List xsync.Map) (total : ℕ)
      → (total' : ℕ) × (shards' : List xsync.Map) × (clear_shards xsync should_remove shards total
          ≡ (total', shards'))
        × (total' + sizes xsync shards' ≡ total + sizes xsync shards)
        × (length shards' ≡ length shards)
        × ((i : ℕ) (j : K)
            → load_in xsync j (get_elem? shards' i)
              ≡ sieved should_remove j (load_in xsync j (get_elem? shards i)))
  unfolding clear_shards sizes
  clear_shards_lem [] total = (total, [], refl, refl, refl, λ i j. refl)
  clear_shards_lem (shard ∷ shards) total =
      let (total₁, shard', run, sum, same) =
        delete_all_lem (xsync.range shard) total shard (xsync.range-Once shard)
          (λ j v e. sym (xsync.lookup-range j shard) ∙ e) in
      let (total₂, shards', run', sum', long, rest) = clear_shards_lem shards total₁ in
      (
        total₂,
        shard' ∷ shards',
        rw (run, run') refl,
        omega (arith, sum, sum'),
        ap suc long,
        each shard' shards' (λ j. same j ∙ deleted-sieved j _ _ (xsync.lookup-range j shard)) rest,
      )
    where
      each :
          (shard' : xsync.Map) (shards' : List xsync.Map)
          → ((j : K) → xsync.load j shard' ≡ sieved should_remove j (xsync.load j shard))
          → ((i : ℕ) (j : K)
              → load_in xsync j (get_elem? shards' i)
                ≡ sieved should_remove j (load_in xsync j (get_elem? shards i)))
          → (i : ℕ) (j : K)
          → load_in xsync j (get_elem? (shard' ∷ shards') i)
            ≡ sieved should_remove j (load_in xsync j (get_elem? (shard ∷ shards) i))
      each shard' shards' h rest zero j = h j
      each shard' shards' h rest (suc i) j = rest i j

  some_before :
      (k : K) (v : V) (o : Option V) → sieved should_remove k o ≡ some v → (w : V) × (o ≡ some w)
  some_before k v none e = cc
  some_before k v (some w) e = (w, refl)

  shard_of_load :
      (k : K) (v : V) (o : Option xsync.Map)
      → load_in xsync k o ≡ some v
      → (shard : xsync.Map) × (o ≡ some shard) × (xsync.load k shard ≡ some v)
  shard_of_load k v none e = cc
  shard_of_load k v (some shard) e = (shard, refl, e)

module _ {K V : Type 0} ⦃key : Comparable K⦄ (xsync : MapOf K V) (hash : K → ℕ) where
  same_index :
      (k : K) (sm : Sharded xsync) (shards : List xsync.Map)
      → shard_index xsync hash k (record sm { shards = shards }) ≡ shard_index xsync hash k sm
  unfolding shard_index
  same_index k sm shards = refl

module _ {K V : Type 0} ⦃key : Comparable K⦄ {xsync : MapOf K V} where
  -- `ClearIf` removes exactly the keys whose value the predicate selects, and returns by how much
  -- `Len` falls.
  pub clear_if-view :
      (hash : K → ℕ) (should_remove : K → V → Bool) (sm : Sharded xsync)
      → WellFormed hash sm
      → (total : ℕ) × (sm' : Sharded xsync) × (clear_if xsync should_remove sm ≡ (total, sm'))
        × WellFormed hash sm'
        × (total + len xsync sm' ≡ len xsync sm)
        × ((j : K) → view hash j sm' ≡ sieved should_remove j (view hash j sm))
  unfolding clear_if len
  clear_if-view hash should_remove sm h =
      let (total, shards, run, sum, long, each) =
        clear_shards_lem xsync should_remove sm.shards 0 in
      (
        total,
        record sm { shards = shards },
        rw run refl,
        record {
          inside = omega (arith, long, h.inside);
          placed = λ i shard k v e found.
              let (w, before) =
                some_before xsync should_remove k v (load_in xsync k (get_elem? sm.shards i))
                  (sym (each i k) ∙ ap (load_in xsync k) e ∙ found) in
              let (old, at, there) =
                shard_of_load xsync should_remove k w (get_elem? sm.shards i) before in
              same_index xsync hash k sm shards ∙ h.placed i old k w at there;
        },
        omega (arith, sum),
        λ j.
            ap (λ n. load_in xsync j (get_elem? shards n)) (same_index xsync hash j sm shards)
            ∙ each (shard_index xsync hash j sm) j,
      )
