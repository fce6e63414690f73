-- ===== src/Sharded/Sweep.antt =====
-- The methods of sharded.go that go through all shards, against the map as a whole.
use mappo.Prelude.{
  ℕ, suc, ◌+◌, ◌-◌, ltb, ◌≡◌, refl, Option, none, some, List, [], ◌∷◌, ◌++◌, Bool, true, false,
  arith, if◌then◌else◌, nat_beq, length, get_elem?, map, length-append, ap, sym, ◌∙◌, Comparable,
  ◌==◌, Bool-cases, Option-cases, inl, inr,
}
use mappo.MapOf.{MapOf}
use mappo.Pairs.{lookup, count, Once, count-append, count_of_lookup-none}
use mappo.Run.{ok}
use mappo.Sharded.{Sharded, shard_index, get}
use mappo.Sharded.Route.{WellFormed, load_in, get-view}
use mappo.Sharded.Whole.{sizes, len, range_shard, range_shards, range, keys, values}
use mappo.Visit.{visit, visit_append}

module _ {V : Type 0} where
  abbrev or_else : Option V → Option V → Option V
  or_else (some v) o = some v
  or_else none o = o

  or_else-none : (o : Option V) → or_else o none ≡ o
  or_else-none none = refl
  or_else-none (some v) = refl

module _ {K V : Type 0} ⦃key : Comparable K⦄ where
  lookup-append :
      (j : K) (a b : List (K × V)) → lookup j (a ++ b) ≡ or_else (lookup j a) (lookup j b)
  unfolding lookup
  lookup-append j [] b = refl
  lookup-append j ((k, v) ∷ a) b = elim (Bool-cases (k == j)) [
    | inl here ↦ rw here refl
    | inr other ↦ rw other (lookup-append j a b)
  ]

module _ {K V : Type 0} ⦃key : Comparable K⦄ (xsync : MapOf K V) where
  -- All pairs, shard by shard.
  abbrev pub pairs : List xsync.Map → List (K × V)
  pairs [] = []
  pairs (shard ∷ shards) = xsync.range shard ++ pairs shards

  sizes-pairs : (shards : List xsync.Map) → sizes xsync shards ≡ length (pairs shards)
  unfolding sizes
  sizes-pairs [] = refl
  sizes-pairs (shard ∷ shards) = omega (
    arith,
    sizes-pairs shards,
    xsync.size-range shard,
    length-append (xsync.range shard) (pairs shards),
  )

  -- A key is in no other shard than its index says, counted from `o`.
  abbrev Placed : (K → ℕ) → ℕ → List xsync.Map → Type 0
  Placed index o [] = Unit
  Placed index o (shard ∷ shards) =
      ((k : K) (v : V) → xsync.load k shard ≡ some v → index k ≡ o) × Placed index (suc o) shards

  Placed-of_WellFormed :
      (hash : K → ℕ) (sm : Sharded xsync) (o : ℕ) (shards : List xsync.Map)
      → WellFormed hash sm
      → ((i : ℕ) → get_elem? sm.shards (o + i) ≡ get_elem? shards i)
      → Placed (λ k. shard_index xsync hash k sm) o shards
  Placed-of_WellFormed hash sm o [] h same = tt
  Placed-of_WellFormed hash sm o (shard ∷ shards) h same = (
    λ k v e. h.placed (o + 0) shard k v (same 0) e ∙ omega arith,
    Placed-of_WellFormed hash sm (suc o) shards h
        (λ i. ap (get_elem? sm.shards) (omega arith) ∙ same (suc i)),
  )

  -- What is found under a key whose index is `n`, in the shards from the `o`-th on.
  abbrev found_from : ℕ → ℕ → List xsync.Map → K → Option V
  found_from n o shards j = if ltb n o then none else load_in xsync j (get_elem? shards (n - o))

  found_zero :
      (n : ℕ) (shards : List xsync.Map) (j : K)
      → found_from n 0 shards j ≡ load_in xsync j (get_elem? shards n)
  found_zero n shards j =
      let not_before : ltb n 0 ≡ false = ground arith in
      let all : n - 0 ≡ n = omega arith in rw (not_before, all) refl

  load_elsewhere :
      (n o : ℕ) (shard : xsync.Map) (j : K)
      → ((v : V) → xsync.load j shard ≡ some v → n ≡ o)
      → nat_beq n o ≡ false
      → xsync.load j shard ≡ none
  load_elsewhere n o shard j h apart = elim (Option-cases (xsync.load j shard)) [
    | inl e ↦ e
    | inr (v, e) ↦ absurd (ground (arith, h v e, apart))
  ]

  found_step :
      (n o : ℕ) (shard : xsync.Map) (shards : List xsync.Map) (j : K)
      → ((v : V) → xsync.load j shard ≡ some v → n ≡ o)
      → or_else (xsync.load j shard) (found_from n (suc o) shards j)
        ≡ found_from n o (shard ∷ shards) j
  found_step n o shard shards j h = elim (Bool-cases (nat_beq n o)) [
    | inl here ↦
        let in_first : ltb n (suc o) ≡ true = ground (arith, here) in
        let not_before : ltb n o ≡ false = ground (arith, here) in
        let first : n - o ≡ 0 = ground (arith, here) in
        rw (in_first, not_before, first) (or_else-none (xsync.load j shard))
    | inr apart ↦
        let missing = load_elsewhere n o shard j h apart in
        elim (Bool-cases (ltb n o)) [
          | inl before ↦
              let still : ltb n (suc o) ≡ true = ground (arith, before) in
              rw (missing, still, before) refl
          | inr behind ↦
              let far : ltb n (suc o) ≡ false = ground (arith, behind, apart) in
              let later : n - o ≡ suc (n - suc o) = ground (arith, behind, apart) in
              rw (missing, far, behind, later) refl
        ]
  ]

  lookup-pairs :
      (index : K → ℕ) (o : ℕ) (shards : List xsync.Map) (j : K)
      → Placed index o shards
      → lookup j (pairs shards) ≡ found_from (index j) o shards j
  unfolding lookup
  lookup-pairs index o [] j h = elim (Bool-cases (ltb (index j) o)) [
    | inl e ↦ rw e refl
    | inr e ↦ rw e refl
  ]
  lookup-pairs index o (shard ∷ shards) j (h, rest) =
      lookup-append j (xsync.range shard) (pairs shards)
      ∙ ap (λ x. or_else x (lookup j (pairs shards))) (xsync.lookup-range j shard)
      ∙ ap (or_else (xsync.load j shard)) (lookup-pairs index (suc o) shards j rest)
      ∙ found_step (index j) o shard shards j (h j)

  Once-pairs :
      (index : K → ℕ) (o : ℕ) (shards : List xsync.Map)
      → Placed index o shards
      → Once (pairs shards)
  unfolding count
  Once-pairs index o [] h j = omega arith
  Once-pairs index o (shard ∷ shards) (h, rest) j =
      let both = count-append j (xsync.range shard) (pairs shards) in
      let here = xsync.range-Once shard j in
      let there = Once-pairs index (suc o) shards rest j in
      elim (Option-cases (xsync.load j shard)) [
        | inl absent ↦
            let none_here =
              count_of_lookup-none j (xsync.range shard) (xsync.lookup-range j shard ∙ absent) in
            omega (arith, both, none_here, there)
        | inr (v, found) ↦
            let before : ltb (index j) (suc o) ≡ true = ground (arith, h j v found) in
            let none_there =
              count_of_lookup-none j (pairs shards)
                (lookup-pairs index (suc o) shards j rest ∙ rw before refl) in
            omega (arith, both, none_there, here)
      ]

  range_shard-append :
      {S : Type 0} (fn : K → V → S → S × Bool) (a b : List (K × V)) (s : S)
      → visit fn (a ++ b) s ≡ (
          if (range_shard xsync fn a s).1
          then visit fn b (range_shard xsync fn a s).0
          else (range_shard xsync fn a s).0)
  unfolding visit range_shard
  range_shard-append fn [] b s = refl
  range_shard-append fn ((k, v) ∷ a) b s = elim (Bool-cases (fn k v s).1) [
    | inl on ↦ rw on (range_shard-append fn a b (fn k v s).0)
    | inr stop ↦ rw stop refl
  ]

  range_shards-visit :
      {S : Type 0} (fn : K → V → S → S × Bool) (shards : List xsync.Map) (s : S)
      → range_shards xsync fn shards s ≡ visit fn (pairs shards) s
  unfolding range_shards visit
  range_shards-visit fn [] s = refl
  range_shards-visit fn (shard ∷ shards) s =
      rw (range_shards-visit fn shards)
        (sym (range_shard-append fn (xsync.range shard) (pairs shards) s))

module _ {K V : Type 0} ⦃key : Comparable K⦄ {xsync : MapOf K V} where
  -- On a well-formed map there is a list of pairs, with no key twice, in which a key is looked up
  -- exactly as `Get` reads it: `Range` shows its callback these pairs in order, until it stops, `Keys`
  -- and `Values` return their two sides, and `Len` is their number.
  pub range-view :
      {S : Type 0} (hash : K → ℕ) (fn : K → V → S → S × Bool) (s : S) (sm : Sharded xsync)
      → WellFormed hash sm
      → (l : List (K × V)) × Once l
        × ((j : K) → get xsync hash j sm ≡ ok (lookup j l))
        × (range xsync fn s sm ≡ visit fn l s)
        × (keys xsync sm ≡ map (λ e. e.0) l)
        × (values xsync sm ≡ map (λ e. e.1) l)
        × (len xsync sm ≡ length l)
  unfolding range keys values len
  range-view hash fn s sm h =
      let index = λ (k : K). shard_index xsync hash k sm in
      let placed =
        Placed-of_WellFormed xsync hash sm 0 sm.shards h
          (λ i. ap (get_elem? sm.shards) (omega arith)) in
      (
        pairs xsync sm.shards,
        Once-pairs xsync index 0 sm.shards placed,
        λ j.
            get-view hash j sm h
            ∙ ap ok (
                sym (
                  lookup-pairs xsync index 0 sm.shards j placed
                  ∙ found_zero xsync (index j) sm.shards j)),
        range_shards-visit xsync fn sm.shards s,
        range_shards-visit xsync (λ k v keys. (keys ++ k ∷ [], true)) sm.shards []
            ∙ visit_append (λ k v. k) (pairs xsync sm.shards) [],
        range_shards-visit xsync (λ k v values. (values ++ v ∷ [], true)) sm.shards []
            ∙ visit_append (λ k v. v) (pairs xsync sm.shards) [],
        sizes-pairs xsync sm.shards,
      )
