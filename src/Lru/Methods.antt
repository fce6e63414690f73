-- ===== src/Lru/Methods.antt =====
-- What the methods of lru.go that look a key up do to the entries.
use mappo.Prelude.{
  ℕ, ◌≡◌, refl, Option, none, some, List, ◌∷◌, ◌++◌, true, false, arith, if◌then◌else◌, Comparable,
  ap, sym, ◌∙◌, Bool-cases, Option-cases, inl, inr, is_some, ◌⊎◌,
}
use mathlib.Core.Path.{subst}
use mappo.MapOf.{MapOf}
use mappo.Pairs.{lookup, remove, remove_absent, length-remove}
use mappo.Run.{ok}
use mappo.Time.{is_expired}
use mappo.Lru.{Lru, peek, get, delete, drop_node}
use mappo.Lru.Drop.{drop_node_lem}
use mappo.Lru.Links.{last}
use mappo.Lru.Models.{Models, Same, Stored, node_at, find_node_middle}
use mappo.Lru.Touch.{move_to_front-Holds}
use mappo.Lru.Linked.{at_of}
use mappo.Lru.Place.{Place, Place-of_Models, absent_find_node, one_back}

module _ {V : Type 0} where
  -- The value of an entry, unless it is expired.
  abbrev pub live_value : ℕ → Option (Stored V) → Option V
  live_value now none = none
  live_value now (some s) = if is_expired now s.expiration then none else some s.value

module _ {K V : Type 0} ⦃key : Comparable K⦄ where
  -- An expired entry goes, and a live one comes to the front.
  abbrev pub touched : ℕ → K → Option (Stored V) → List (K × Stored V) → List (K × Stored V)
  touched now k none es = es
  touched now k (some s) es =
      if is_expired now s.expiration then remove k es else (k, s) ∷ remove k es

module _ {K V : Type 0} ⦃key : Comparable K⦄ {xsync : MapOf K ℕ} where
  peek_present :
      (now : ℕ) (k : K) (l : Lru xsync V) (es : List (K × Stored V)) (s : Stored V)
      → Place k l es s
      → peek now k l ≡ ok (live_value now (some s))
  unfolding peek
  peek_present now k l es s p =
      let find = find_node_middle l p.before p.behind k p.slot p.unused p.holds in
      let here =
        at_of l.node_pool p.slot.index _
          (node_at l p.before p.behind (k, p.slot) p.unused p.holds) in
      rw (find, peek, here) (ap (λ x. ok (live_value now (some x))) p.shows)

  -- `Peek` gives the value of the entry under the key if it is not expired.
  pub peek-Models :
      (now : ℕ) (k : K) (l : Lru xsync V) (es : List (K × Stored V))
      → Models l es
      → peek now k l ≡ ok (live_value now (lookup k es))
  unfolding peek
  peek-Models now k l es m = elim (Option-cases (lookup k es)) [
    | inl absent ↦ rw (absent_find_node k l es m absent, peek, absent) refl
    | inr (s, found) ↦
        rw (found, peek) (peek_present now k l es s (Place-of_Models k l es s m found))
  ]

  drop_present :
      (k : K) (l : Lru xsync V) (es : List (K × Stored V)) (s : Stored V) (zero_key : K)
      (zero_value : V)
      → (p : Place k l es s)
      → (l' : Lru xsync V) × (drop_node zero_key zero_value k (Place.slot p).index l ≡ ok l')
        × Models l' (remove k es)
        × Same l l'
        × (l'.evictions ≡ l.evictions)
  drop_present k l es s zero_key zero_value p =
      let (pool, run, _, holds) =
        drop_node_lem zero_key zero_value l p.before p.behind (k, p.slot) p.unused p.holds in
      (
        _,
        run,
        record {
          cells = p.before ++ p.behind;
          unused = p.slot.index ∷ p.unused;
          holds = holds;
          shows = p.others;
          bounded = omega (arith, length-remove k es, p.models.bounded);
          positive = p.models.positive;
          small = p.models.small;
        },
        record { max_size = refl; default_ttl = refl; on_eviction = refl; capacity = refl },
        refl,
      )

  -- `Delete` takes the entry under the key away and tells whether there was one.
  pub delete-Models :
      (zero_key : K) (zero_value : V) (k : K) (l : Lru xsync V) (es : List (K × Stored V))
      → Models l es
      → (l' : Lru xsync V) × (delete zero_key zero_value k l ≡ ok (is_some (lookup k es), l'))
        × Models l' (remove k es)
        × Same l l'
  unfolding delete
  delete-Models zero_key zero_value k l es m = elim (Option-cases (lookup k es)) [
    | inl absent ↦ (
      l,
      rw (absent_find_node k l es m absent, delete, absent) refl,
      subst (λ x. Models l x) (sym (remove_absent k es absent)) m,
      record { max_size = refl; default_ttl = refl; on_eviction = refl; capacity = refl },
    )
    | inr (s, found) ↦
        let p = Place-of_Models k l es s m found in
        let find = find_node_middle l p.before p.behind k p.slot p.unused p.holds in
        let (l', run, models, same, _) = drop_present k l es s zero_key zero_value p in
        (l', rw (find, delete, run, found) refl, models, same)
  ]

  get_expired :
      (zero_key : K) (zero_value : V) (now : ℕ) (k : K) (l : Lru xsync V) (es : List (K × Stored V))
      (s : Stored V)
      → Place k l es s
      → is_expired now s.expiration ≡ true
      → (l' : Lru xsync V) × (get zero_key zero_value now k l ≡ ok (none, l'))
        × Models l' (remove k es)
        × Same l l'
        × (l'.evictions ≡ l.evictions)
  unfolding get
  get_expired zero_key zero_value now k l es s p e =
      let find = find_node_middle l p.before p.behind k p.slot p.unused p.holds in
      let here =
        at_of l.node_pool p.slot.index _
          (node_at l p.before p.behind (k, p.slot) p.unused p.holds) in
      let (l', run, models, same, quiet) = drop_present k l es s zero_key zero_value p in
      let old : is_expired now p.slot.expiration ≡ true =
        ap (λ x. is_expired now (Stored.expiration x)) p.shows ∙ e in
      (l', rw (find, get, run, here, old) refl, models, same, quiet)

  get_live :
      (zero_key : K) (zero_value : V) (now : ℕ) (k : K) (l : Lru xsync V) (es : List (K × Stored V))
      (s : Stored V)
      → Place k l es s
      → is_expired now s.expiration ≡ false
      → (l' : Lru xsync V) × (get zero_key zero_value now k l ≡ ok (some s.value, l'))
        × Models l' ((k, s) ∷ remove k es)
        × Same l l'
        × (l'.evictions ≡ l.evictions)
  unfolding get
  get_live zero_key zero_value now k l es s p e =
      let find = find_node_middle l p.before p.behind k p.slot p.unused p.holds in
      let here =
        at_of l.node_pool p.slot.index _
          (node_at l p.before p.behind (k, p.slot) p.unused p.holds) in
      let (pool, run, seg, holds) =
        move_to_front-Holds l p.before p.behind (k, p.slot) p.unused p.holds in
      let front = at_of pool p.slot.index _ seg.0 in
      let young : is_expired now p.slot.expiration ≡ false =
        ap (λ x. is_expired now (Stored.expiration x)) p.shows ∙ e in
      let l' = record l {
        node_pool = pool;
        head = some p.slot.index;
        tail = last (some p.slot.index) (p.before ++ p.behind);
      } in
      (
        l',
        rw (find, get, run, here, young, front) (ap (λ x. ok (some (Stored.value x), l')) p.shows),
        record {
          cells = (k, p.slot) ∷ p.before ++ p.behind;
          unused = p.unused;
          holds = holds;
          shows = λ i. (k, p.shows i) ∷ p.others i;
          bounded = one_back k es s l.max_size p.found p.models.bounded;
          positive = p.models.positive;
          small = p.models.small;
        },
        record { max_size = refl; default_ttl = refl; on_eviction = refl; capacity = refl },
        refl,
      )

  -- `Get` gives what `Peek` gives; an expired entry goes and a live one comes to the front, without a
  -- call of `onEviction` and with the configuration as it was. For a key without an entry nothing at
  -- all changes.
  pub get-Models :
      (zero_key : K) (zero_value : V) (now : ℕ) (k : K) (l : Lru xsync V) (es : List (K × Stored V))
      → Models l es
      → (l' : Lru xsync V) × (get zero_key zero_value now k l
          ≡ ok (live_value now (lookup k es), l'))
        × Models l' (touched now k (lookup k es) es)
        × Same l l'
        × (l'.evictions ≡ l.evictions)
        × ((is_some (lookup k es) ≡ true) ⊎ (l' ≡ l))
  get-Models zero_key zero_value now k l es m = elim (Option-cases (lookup k es)) [
    | inl absent ↦ (
      l,
      rw absent (unfold get in rw (absent_find_node k l es m absent, get) refl),
      subst (λ o. Models l (touched now k o es)) (sym absent) m,
      record { max_size = refl; default_ttl = refl; on_eviction = refl; capacity = refl },
      refl,
      inr refl,
    )
    | inr (s, found) ↦
        let p = Place-of_Models k l es s m found in
        let (l', run, models, same, quiet) =
          elim (Bool-cases (is_expired now s.expiration))
            as (λ _.
              (l' : Lru xsync V) × (get zero_key zero_value now k l
                ≡ ok (live_value now (some s), l'))
              × Models l' (touched now k (some s) es)
              × Same l l'
              × (l'.evictions ≡ l.evictions)) [
                | inl e ↦ rw e (get_expired zero_key zero_value now k l es s p e)
                | inr e ↦ rw e (get_live zero_key zero_value now k l es s p e)
              ] in
        (
          l',
          rw found run,
          subst (λ o. Models l' (touched now k o es)) (sym found) models,
          same,
          quiet,
          inl (rw found refl),
        )
  ]
