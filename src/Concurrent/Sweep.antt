-- ===== src/Concurrent/Sweep.antt =====
-- `Range`, `Keys` and `Values` of concurrent.go.
use mappo.Prelude.{
  ℕ, ◌≤◌, ◌<◌, ◌^◌, ◌≡◌, refl, Option, none, some, Bool, true, Comparable, eq_refl, if◌then◌else◌,
  arith, Bool-cases, inl, inr, ◌≢◌, List, [], ◌∷◌, ◌++◌, ◌∙◌, map, ap,
}
use mappo.Pairs.{lookup, count, Once, Once-tail, apart_of_Once, lookup_of_count-zero}
use mappo.MapOf.{MapOf}
use mappo.Run.{ok}
use mappo.Visit.{visit, visit_append}
use mappo.Concurrent.Expiry.{view, view-delete_dead}
use mappo.Concurrent.{Entry, Concurrent, live, range_loop, range, keys, values}
use mappo.Time.{is_expired}

module _ {ℓ} {K V : Type ℓ} where
  -- The pairs of a list of entries that have a value at a time, in order.
  pub live_pairs : ℕ → List (K × Option (Entry V)) → List (K × V)
  live_pairs now [] = []
  live_pairs now ((k, none) ∷ l) = live_pairs now l
  live_pairs now ((k, some e) ∷ l) =
      if is_expired now e.expiration then live_pairs now l else (k, e.value) ∷ live_pairs now l

  abbrev pub NoNil : List (K × Option (Entry V)) → Type 0
  NoNil [] = Unit
  NoNil ((k, none) ∷ l) = ⊥
  NoNil ((k, some e) ∷ l) = NoNil l

module _ {ℓ} {K V : Type ℓ} ⦃key : Comparable K⦄ (xsync : MapOf K (Option (Entry V))) where
  -- No key holds a nil pointer.
  abbrev pub HasNoNil : Concurrent xsync → Type ℓ
  HasNoNil c = (k : K) → xsync.load k c ≢ some none

  NoNil-of_lookup :
      (l : List (K × Option (Entry V))) → Once l → ((k : K) → lookup k l ≢ some none) → NoNil l
  unfolding lookup
  NoNil-of_lookup [] once h = tt
  NoNil-of_lookup ((k, none) ∷ l) once h = absurd (h k (rw (eq_refl k)))
  NoNil-of_lookup ((k, some e) ∷ l) once h =
      NoNil-of_lookup l (Once-tail k (some e) l once)
        (λ j q. h j (rw (apart_of_Once k j (some e) none l once q) q))

  pub NoNil-range : (c : Concurrent xsync) → HasNoNil c → NoNil (xsync.range c)
  NoNil-range c h =
      NoNil-of_lookup (xsync.range c) (xsync.range-Once c) (λ k. rw xsync.lookup-range (h k))

  -- The pairs of the list are in the map.
  abbrev pub Loaded : List (K × Option (Entry V)) → Concurrent xsync → Type ℓ
  Loaded l c = (k : K) (o : Option (Entry V)) → lookup k l ≡ some o → xsync.load k c ≡ some o

  pub Loaded-delete :
      (k : K) (o : Option (Entry V)) (l : List (K × Option (Entry V))) (c : Concurrent xsync)
      → Once ((k, o) ∷ l)
      → Loaded ((k, o) ∷ l) c
      → Loaded l (xsync.delete k c)
  unfolding lookup count
  Loaded-delete k o l c once h j p e =
      let other = apart_of_Once k j o p l once e in
      rw (xsync.load-delete, other) (h j p (rw other e))

  pub Loaded-tail :
      (k : K) (o : Option (Entry V)) (l : List (K × Option (Entry V))) (c : Concurrent xsync)
      → Once ((k, o) ∷ l)
      → Loaded ((k, o) ∷ l) c
      → Loaded l c
  unfolding lookup
  Loaded-tail k o l c once h j p e = h j p (rw (apart_of_Once k j o p l once e) e)

  pub Loaded-head :
      (k : K) (o : Option (Entry V)) (l : List (K × Option (Entry V))) (c : Concurrent xsync)
      → Loaded ((k, o) ∷ l) c
      → xsync.load k c ≡ some o
  unfolding lookup
  Loaded-head k o l c h = h k o (rw (eq_refl k))

  -- From a map in which the pairs that are left stand, the loop does not panic, the callback sees
  -- the pairs that have a value, in order and until it stops, and no later reading changes.
  range_loop-visit :
      {S : Type ℓ} (now : ℕ) (fn : K → V → S → S × Bool) (l : List (K × Option (Entry V))) (s : S)
      (c : Concurrent xsync)
      → NoNil l
      → Once l
      → Loaded l c
      → (c' : Concurrent xsync) × (range_loop xsync now fn l s c
          ≡ ok (visit fn (live_pairs now l) s, c'))
        × ((later : ℕ) (j : K)
            → now ≤ later
            → later < 2 ^ 63
            → view xsync later j c' ≡ view xsync later j c)
  unfolding range_loop visit live_pairs view live
  range_loop-visit now fn [] s c nonil once h = (c, refl, λ later j p q. refl)
  range_loop-visit now fn ((k, none) ∷ l) s c nonil once h = elim nonil [ ]
  range_loop-visit now fn ((k, some e) ∷ l) s c nonil once h =
      elim (Bool-cases (is_expired now e.expiration)) [
        | inl dead ↦
            let (c', run, same) =
              range_loop-visit now fn l s (xsync.delete k c) nonil (Once-tail k (some e) l once)
                (Loaded-delete k (some e) l c once h) in
            (
              c',
              rw (dead, run),
              λ later j p q.
                  same later j p q
                  ∙ view-delete_dead xsync now later k j c p q
                      (rw (view, Loaded-head k (some e) l c h, live, dead)),
            )
        | inr kept ↦ elim (Bool-cases (fn k e.value s).1) [
          | inl more ↦
              let (c', run, same) =
                range_loop-visit now fn l (fn k e.value s).0 c nonil (Once-tail k (some e) l once)
                  (Loaded-tail k (some e) l c once h) in
              (c', rw (kept, more) run, same)
          | inr stop ↦ (c, rw (kept, stop), λ later j p q. refl)
        ]
      ]

  pub range-Loaded : (c : Concurrent xsync) → Loaded (xsync.range c) c
  range-Loaded c k o e = rw (← xsync.lookup-range k c) e

  -- On a map that holds no nil pointer, `Range` does not panic: the callback sees the pairs that
  -- have a value, in order and until it stops, and what the sweep deletes was readable neither
  -- now nor later.
  pub range-visit :
      {S : Type ℓ} (now later : ℕ) (j : K) (fn : K → V → S → S × Bool) (s : S)
      (c : Concurrent xsync)
      → HasNoNil c
      → now ≤ later
      → later < 2 ^ 63
      → (c' : Concurrent xsync) × (range xsync now fn s c
          ≡ ok (visit fn (live_pairs now (xsync.range c)) s, c'))
        × (view xsync later j c' ≡ view xsync later j c)
  unfolding range
  range-visit now later j fn s c h p q =
      let (c', run, same) =
        range_loop-visit now fn (xsync.range c) s c (NoNil-range c h) (xsync.range-Once c)
          (range-Loaded c) in
      (c', run, same later j p q)

  lookup-live_pairs :
      (now : ℕ) (j : K) (l : List (K × Option (Entry V)))
      → Once l
      → lookup j (live_pairs now l) ≡ live now (lookup j l)
  unfolding lookup live_pairs live count
  lookup-live_pairs now j [] once = refl
  lookup-live_pairs now j ((k, none) ∷ l) once =
      ground (
        arith,
        lookup-live_pairs now j l (Once-tail k none l once),
        once j,
        lookup_of_count-zero j l,
      )
  lookup-live_pairs now j ((k, some e) ∷ l) once = ground (
    arith,
    lookup-live_pairs now j l (Once-tail k (some e) l once),
    once j,
    lookup_of_count-zero j l,
  )

  count-live_pairs-le :
      (now : ℕ) (j : K) (l : List (K × Option (Entry V))) → count j (live_pairs now l) ≤ count j l
  unfolding count live_pairs
  count-live_pairs-le now j [] = omega arith
  count-live_pairs-le now j ((k, none) ∷ l) = omega (arith, count-live_pairs-le now j l)
  count-live_pairs-le now j ((k, some e) ∷ l) = ground (arith, count-live_pairs-le now j l)

  -- On a map that holds no nil pointer, `Keys` and `Values` return the two sides of one list of
  -- pairs, which has no key twice and in which a key is looked up exactly as the map reads it now.
  pub keys-view :
      (now : ℕ) (c : Concurrent xsync)
      → HasNoNil c
      → (l : List (K × V)) × (c' : Concurrent xsync) × (c'' : Concurrent xsync) × (keys xsync now c
          ≡ ok (map (λ e. e.0) l, c'))
        × (values xsync now c ≡ ok (map (λ e. e.1) l, c''))
        × Once l
        × ((j : K) → lookup j l ≡ view xsync now j c)
  unfolding keys values view
  keys-view now c h =
      let l = live_pairs now (xsync.range c) in
      let once = xsync.range-Once c in
      let (c', run, _) =
        range_loop-visit now (λ k _ ks. (ks ++ k ∷ [], true)) (xsync.range c) [] c (NoNil-range c h)
          once (range-Loaded c) in
      let (c'', run', _) =
        range_loop-visit now (λ _ v vs. (vs ++ v ∷ [], true)) (xsync.range c) [] c (NoNil-range c h)
          once (range-Loaded c) in
      (
        l,
        c',
        c'',
        rw (run, visit_append (λ k v. k) l []),
        rw (run', visit_append (λ k v. v) l []),
        λ k. omega (arith, xsync.range-Once c k, count-live_pairs-le now k (xsync.range c)),
        λ j.
            lookup-live_pairs now j (xsync.range c) (xsync.range-Once c)
            ∙ ap (live now) (xsync.lookup-range j c),
      )
