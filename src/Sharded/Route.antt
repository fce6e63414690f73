-- ===== src/Sharded/Route.antt =====
-- How sharded.go finds a key's shard, and what a write to it changes.
use mappo.Prelude.{
  ℕ, zero, suc, ◌/◌, ◌≤◌, ◌<◌, ◌≡◌, refl, Option, none, some, Bool, true, false, arith,
  if◌then◌else◌, nat_beq, length, get_elem?, set, length-set, get_elem?-set, get_elem?_of_lt, ap,
  sym, ◌∙◌, Comparable, ◌==◌, eq_iff, Bool-cases, inl, inr,
}
use mappo.MapOf.{MapOf}
use mappo.MapOf.Laws.{load-compute}
use mappo.Run.{ok}
use mappo.Sharded.{Sharded, and_bits, shard_index, get_shard, write_shard, computed, get, store}

pub and_bits-le : (w a b : ℕ) → and_bits w a b ≤ b
unfolding and_bits
and_bits-le zero a b = omega arith
and_bits-le (suc w) a b = omega (arith, and_bits-le w (a / 2) (b / 2))

apart_of_index :
    {K : Type 0} ⦃key : Comparable K⦄ (k j : K) (n m : ℕ)
    → (k ≡ j → n ≡ m)
    → nat_beq n m ≡ false
    → (k == j) ≡ false
apart_of_index k j n m h q = elim (Bool-cases (k == j)) [
  | inr e ↦ e
  | inl e ↦ absurd (ground (arith, h ((eq_iff k j).0 e), q))
]

module _ {K V : Type 0} ⦃key : Comparable K⦄ (xsync : MapOf K V) where
  abbrev pub load_in : K → Option xsync.Map → Option V
  load_in k none = none
  load_in k (some shard) = xsync.load k shard

  shard_index-le :
      (hash : K → ℕ) (k : K) (sm : Sharded xsync) → shard_index xsync hash k sm ≤ sm.mask
  unfolding shard_index
  shard_index-le hash k sm = and_bits-le 64 (hash k) sm.mask

  load_after :
      (k j : K) (new : Option V) (same : Bool) (shard shard' : xsync.Map) (o : Option xsync.Map)
      → xsync.load j shard' ≡ (if k == j then new else xsync.load j shard)
      → (same ≡ true → o ≡ some shard)
      → (same ≡ false → (k == j) ≡ false)
      → load_in j (if same then some shard' else o) ≡ (if k == j then new else load_in j o)
  load_after k j new true shard shard' o e h g = e ∙ rw (h refl) refl
  load_after k j new false shard shard' o e h g = rw (g refl) refl

module _ {K V : Type 0} ⦃key : Comparable K⦄ {xsync : MapOf K V} (hash : K → ℕ) where
  -- The mask stays inside the slice, and a key is only in the shard that its hash chooses.
  pub record WellFormed (sm : Sharded xsync) : Type 0 where
    pub inside : sm.mask < length sm.shards
    pub placed :
        (i : ℕ) (shard : xsync.Map) (k : K) (v : V)
        → get_elem? sm.shards i ≡ some shard
        → xsync.load k shard ≡ some v
        → shard_index xsync hash k sm ≡ i

  -- What the map holds for a key.
  abbrev pub view : K → Sharded xsync → Option V
  view k sm = load_in xsync k (get_elem? sm.shards (shard_index xsync hash k sm))

  pub get_shard_lem :
      (k : K) (sm : Sharded xsync)
      → WellFormed sm
      → (shard : xsync.Map) × (get_elem? sm.shards (shard_index xsync hash k sm) ≡ some shard)
        × (get_shard xsync hash k sm ≡ ok shard)
  unfolding get_shard
  get_shard_lem k sm h =
      let (shard, e) =
        get_elem?_of_lt sm.shards (shard_index xsync hash k sm)
          (omega (arith, shard_index-le xsync hash k sm, h.inside)) in
      (shard, e, rw (e, get_shard) refl)

  pub get-view : (k : K) (sm : Sharded xsync) → WellFormed sm → get xsync hash k sm ≡ ok (view k sm)
  unfolding get
  get-view k sm h =
      let (shard, e, run) = get_shard_lem k sm h in
      rw run (ap (λ o. ok (load_in xsync k o)) (sym e))

  index_same :
      (k j : K) (shard' : xsync.Map) (sm : Sharded xsync)
      → shard_index xsync hash j (write_shard xsync hash k shard' sm) ≡ shard_index xsync hash j sm
  unfolding write_shard shard_index
  index_same k j shard' sm = refl

  written_placed :
      (k : K) (new : Option V) (shard shard' : xsync.Map) (sm : Sharded xsync)
      → WellFormed sm
      → get_elem? sm.shards (shard_index xsync hash k sm) ≡ some shard
      → ((j : K) → xsync.load j shard' ≡ (if k == j then new else xsync.load j shard))
      → (i : ℕ) (s : xsync.Map) (j : K) (v : V)
      → (if nat_beq (shard_index xsync hash k sm) i then some shard' else get_elem? sm.shards i)
        ≡ some s
      → xsync.load j s ≡ some v
      → shard_index xsync hash j sm ≡ i
  written_placed k new shard shard' sm h e same i s j v here there =
      elim (Bool-cases (nat_beq (shard_index xsync hash k sm) i)) [
        | inr other ↦ h.placed i s j v (rw other at here) there
        | inl this ↦
            let at_i : shard_index xsync hash k sm ≡ i = ground (arith, this) in
            let written : some shard' ≡ some s = rw this at here in
            let found : xsync.load j shard' ≡ some v = ap (load_in xsync j) written ∙ there in
            elim (Bool-cases (k == j)) [
              | inl key_itself ↦
                  ap (λ x. shard_index xsync hash x sm) (sym ((eq_iff k j).0 key_itself)) ∙ at_i
              | inr another ↦
                  let before : xsync.load j shard ≡ some v = sym (rw another at (same j)) ∙ found in
                  h.placed (shard_index xsync hash k sm) shard j v e before ∙ at_i
            ]
      ]

  -- A shard is replaced by one that differs at the key alone.
  pub write_shard_lem :
      (k : K) (new : Option V) (shard shard' : xsync.Map) (sm : Sharded xsync)
      → WellFormed sm
      → get_elem? sm.shards (shard_index xsync hash k sm) ≡ some shard
      → ((j : K) → xsync.load j shard' ≡ (if k == j then new else xsync.load j shard))
      → WellFormed (write_shard xsync hash k shard' sm)
        × ((j : K)
            → view j (write_shard xsync hash k shard' sm) ≡ (if k == j then new else view j sm))
  unfolding write_shard
  write_shard_lem k new shard shard' sm h e same =
      let i = shard_index xsync hash k sm in
      let at = λ (j : ℕ). get_elem?-set sm.shards i j shard' shard e in
      (
        record {
          inside = omega (arith, h.inside, length-set sm.shards i shard');
          placed = λ j s k' v here there.
              index_same k k' shard' sm
              ∙ written_placed k new shard shard' sm h e same j s k' v (sym (at j) ∙ here) there;
        },
        λ j.
            ap (λ n. load_in xsync j (get_elem? (set sm.shards i shard') n))
              (index_same k j shard' sm)
            ∙ ap (load_in xsync j) (at (shard_index xsync hash j sm))
            ∙ load_after xsync k j new (nat_beq i (shard_index xsync hash j sm)) shard shard' _
                (same j) (λ q. ap (get_elem? sm.shards) (ground (arith, q)) ∙ e)
                (λ q. apart_of_index k j _ _ (ap (λ x. shard_index xsync hash x sm)) q),
      )

  -- What a routed call of xsync's `Compute` returns, and what it leaves.
  pub computed_lem :
      {R : Type 0} (k : K) (fn : Option V → R × (V × Bool)) (sm : Sharded xsync)
      → WellFormed sm
      → (sm' : Sharded xsync) × (computed xsync hash k fn sm ≡ ok ((fn (view k sm)).0, sm'))
        × WellFormed sm'
        × ((j : K)
            → view j sm' ≡ (
                if k == j
                then (if (fn (view k sm)).1.1 then none else some (fn (view k sm)).1.0)
                else view j sm))
  unfolding computed
  computed_lem k fn sm h =
      let (shard, e, run) = get_shard_lem k sm h in
      let shard' = xsync.compute k (λ old. (fn old).1) shard in
      let here : view k sm ≡ xsync.load k shard = ap (load_in xsync k) e in
      let (well, views) =
        write_shard_lem k _ shard shard' sm h e
          (λ j. load-compute xsync k j (λ old. (fn old).1) shard) in
      (write_shard xsync hash k shard' sm, rw (run, here) refl, well, rw here views)

  -- `Get` reads the map, and `Set` writes it at the key alone.
  pub store-view :
      (k : K) (v : V) (sm : Sharded xsync)
      → WellFormed sm
      → (sm' : Sharded xsync) × (store xsync hash k v sm ≡ ok sm')
        × WellFormed sm'
        × ((j : K) → get xsync hash j sm' ≡ ok (if k == j then some v else view j sm))
  unfolding store get
  store-view k v sm h =
      let (shard, e, run) = get_shard_lem k sm h in
      let (well, views) =
        write_shard_lem k (some v) shard (xsync.store k v shard) sm h e
          (λ j. xsync.load-store k j v shard) in
      (
        write_shard xsync hash k (xsync.store k v shard) sm,
        rw run refl,
        well,
        λ j. get-view j _ well ∙ ap ok (views j),
      )
