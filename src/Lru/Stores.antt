-- ===== src/Lru/Stores.antt =====
-- What `SetWithTTL` of lru.go does to the entries.
use mappo.Prelude.{
  ℕ, zero, suc, ◌-◌, ◌≤◌, ◌≡◌, refl, none, some, List, [], ◌∷◌, ◌++◌, arith, if◌then◌else◌, length,
  Comparable, ap, sym, ◌∙◌, Option-cases, inl, inr, is_some, take, length-take-le,
}
use mathlib.Core.List.{append-nil}
use mappo.MapOf.{MapOf}
use mappo.Pairs.{lookup, remove}
use mappo.Run.{ok}
use mappo.Time.{Int64, deadline}
use mappo.Lru.{Lru, set_with_ttl, insert_new, evict_down_to, acquire_node, fill_node}
use mappo.Lru.Evict.{evict_down_to_lem, told}
use mappo.Lru.Insert.{acquire_node_lem, fill_node_lem}
use mappo.Lru.Links.{Slot, Cells, last}
use mappo.Lru.Place.{Place, Place-of_Models, cells_absent, absent_find_node, one_back}
use mappo.Lru.Models.{Models, Same, Stored, stored, entries, length-entries, find_node_middle}
use mappo.Lru.Touch.{move_to_front-Holds, rewrite-Holds}

module _ {K V : Type 0} ⦃key : Comparable K⦄ where
  -- A key that is there gets the new entry in front; otherwise the entry comes in front of those
  -- that stay when all but `max_size - 1` are evicted.
  abbrev pub put : ℕ → K → Stored V → List (K × Stored V) → List (K × Stored V)
  put max_size k s es =
      (k, s) ∷ (if is_some (lookup k es) then remove k es else take (max_size - 1) es)

module _ {K V : Type 0} where
  pub entries-take : (n : ℕ) (cs : Cells K V) → entries (take n cs) ≡ take n (entries cs)
  entries-take zero cs = refl
  entries-take (suc n) [] = refl
  entries-take (suc n) (c ∷ cs) = ap (λ r. (c.0, stored c.1) ∷ r) (entries-take n cs)

module _ {K V : Type 0} ⦃key : Comparable K⦄ where
  pub lookup-take_absent :
      (k : K) (n : ℕ) (xs : List (K × V)) → lookup k xs ≡ none → lookup k (take n xs) ≡ none
  unfolding lookup
  lookup-take_absent k zero xs e = refl
  lookup-take_absent k (suc n) [] e = refl
  lookup-take_absent k (suc n) (x ∷ xs) e = ground (arith, lookup-take_absent k n xs)

module _ {K V : Type 0} ⦃key : Comparable K⦄ {xsync : MapOf K ℕ} where
  set_present :
      (k : K) (v : V) (now : ℕ) (ttl : Int64) (l : Lru xsync V) (es : List (K × Stored V))
      (s : Stored V) (zero_key : K) (zero_value : V)
      → Place k l es s
      → (l' : Lru xsync V) × (set_with_ttl zero_key zero_value now k v ttl l ≡ ok l')
        × Models l' ((k, record { value = v; expiration = deadline now ttl }) ∷ remove k es)
        × Same l l'
        × (l'.evictions ≡ l.evictions)
  unfolding set_with_ttl
  set_present k v now ttl l es s zero_key zero_value p =
      let exp = deadline now ttl in
      let i = p.slot.index in
      let slot' : Slot V = record { index = i; value = v; expiration = exp } in
      let find = find_node_middle l p.before p.behind k p.slot p.unused p.holds in
      let (pool, run, holds) = rewrite-Holds l p.before p.behind k p.slot p.unused v exp p.holds in
      let l₁ = record l { node_pool = pool } in
      let (pool', run', _, holds') =
        move_to_front-Holds l₁ p.before p.behind (k, slot') p.unused holds in
      (
        record l₁ { node_pool = pool'; head = some i; tail = last (some i) (p.before ++ p.behind) },
        rw (find, set_with_ttl, run, run') refl,
        record {
          cells = (k, slot') ∷ p.before ++ p.behind;
          unused = p.unused;
          holds = holds';
          shows = ap (◌∷◌ (k, record { value = v; expiration = exp })) p.others;
          bounded = one_back k es s l.max_size p.found p.models.bounded;
          positive = p.models.positive;
          small = p.models.small;
        },
        record { max_size = refl; default_ttl = refl; on_eviction = refl; capacity = refl },
        refl,
      )

  -- A key without an entry: the steps that make room, take a node and fill it.
  pub insertion :
      (k : K) (v : V) (exp : Int64) (l : Lru xsync V) (es : List (K × Stored V)) (zero_key : K)
      (zero_value : V)
      → Models l es
      → l.max_size ≤ l.capacity
      → lookup k es ≡ none
      → (roomy : Lru xsync V) × (idx : ℕ) × (taken : Lru xsync V) × (l' : Lru xsync V)
        × (evict_down_to zero_key zero_value (suc l.size) l.max_size l ≡ ok roomy)
        × (acquire_node zero_key zero_value roomy ≡ ok (some idx, taken))
        × (fill_node idx k v exp taken ≡ ok l')
        × Models l' ((k, record { value = v; expiration = exp }) ∷ take (l.max_size - 1) es)
        × Same l l'
        × (l'.evictions
            ≡ l.evictions ++ told zero_key zero_value l.on_eviction (length es - (l.max_size - 1)))
  insertion k v exp l es zero_key zero_value m cap absent =
      let n = l.max_size - 1 in
      let kept = take n m.cells in
      let (l₁, fs, run, same, log, holds) =
        evict_down_to_lem zero_key zero_value (suc l.size) l.max_size l m.cells m.unused m.holds
          m.positive (omega (arith, m.holds.counted)) in
      let short = length-take-le n m.cells in
      let (idx, pool, free_list, fs', run', acquired) =
        acquire_node_lem zero_key zero_value l₁ kept fs holds
          (omega (arith, short, same.capacity, m.positive, cap)) in
      let taken = record l₁ { node_pool = pool; free_list = free_list } in
      let (l₂, run'', same', log', holds') =
        fill_node_lem idx k v exp taken kept fs' acquired holds.maps holds.once
          (lookup-take_absent k n m.cells (cells_absent k l es m absent)) holds.counted
          (omega (arith, short, m.positive, m.small)) in
      let max = same'.max_size ∙ same.max_size in
      let len : length m.cells ≡ length es = sym (length-entries m.cells) ∙ ap length m.shows in
      (
        l₁,
        idx,
        taken,
        l₂,
        run,
        run',
        run'',
        record {
          cells = (k, record { index = idx; value = v; expiration = exp }) ∷ kept;
          unused = fs';
          holds = holds';
          shows =
              ap (◌∷◌ (k, record { value = v; expiration = exp }))
                (entries-take n m.cells ∙ ap (take n) m.shows);
          bounded = omega (arith, length-take-le n es, m.positive, max);
          positive = omega (arith, m.positive, max);
          small = omega (arith, m.small, max);
        },
        record {
          max_size = max;
          default_ttl = same'.default_ttl ∙ same.default_ttl;
          on_eviction = same'.on_eviction ∙ same.on_eviction;
          capacity = same'.capacity ∙ same.capacity;
        },
        log' ∙ log ∙ ap (λ x. l.evictions ++ told zero_key zero_value l.on_eviction (x - n)) len,
      )

  set_absent :
      (k : K) (v : V) (now : ℕ) (ttl : Int64) (l : Lru xsync V) (es : List (K × Stored V))
      (zero_key : K) (zero_value : V)
      → Models l es
      → l.max_size ≤ l.capacity
      → lookup k es ≡ none
      → (l' : Lru xsync V) × (set_with_ttl zero_key zero_value now k v ttl l ≡ ok l')
        × Models l'
            ((k, record { value = v; expiration = deadline now ttl }) ∷ take (l.max_size - 1) es)
        × Same l l'
        × (l'.evictions
            ≡ l.evictions ++ told zero_key zero_value l.on_eviction (length es - (l.max_size - 1)))
  unfolding set_with_ttl insert_new
  set_absent k v now ttl l es zero_key zero_value m cap absent =
      let (_, _, _, l', run, run', run'', models, same, log) =
        insertion k v (deadline now ttl) l es zero_key zero_value m cap absent in
      (l', rw (absent_find_node k l es m absent, set_with_ttl, run, run') run'', models, same, log)

  -- `SetWithTTL`, while the bound is within the array's capacity: a key that is there gets its new
  -- entry in front. For a new key the oldest entries go until `max_size - 1` are left, and the new
  -- entry comes in front; `onEviction`, if there is one, is called for each that went, each time
  -- with the zero key and the zero value. The configuration stays: the bound, the default time to
  -- live, whether there is an `onEviction`, and the array's capacity.
  pub set_with_ttl-Models :
      (k : K) (v : V) (now : ℕ) (ttl : Int64) (l : Lru xsync V) (es : List (K × Stored V))
      (zero_key : K) (zero_value : V)
      → Models l es
      → l.max_size ≤ l.capacity
      → (l' : Lru xsync V) × (set_with_ttl zero_key zero_value now k v ttl l ≡ ok l')
        × Models l' (put l.max_size k (record { value = v; expiration = deadline now ttl }) es)
        × Same l l'
        × (l'.evictions
            ≡ l.evictions
              ++ (if is_some (lookup k es)
                  then []
                  else told zero_key zero_value l.on_eviction (length es - (l.max_size - 1))))
  set_with_ttl-Models k v now ttl l es zero_key zero_value m cap =
      elim (Option-cases (lookup k es)) [
        | inl absent ↦ rw absent (set_absent k v now ttl l es zero_key zero_value m cap absent)
        | inr (s, found) ↦
            let (l', run, models, same, log) =
              set_present k v now ttl l es s zero_key zero_value
                (Place-of_Models k l es s m found) in
            (l', run, rw found models, same, rw found (log ∙ sym (append-nil l.evictions)))
      ]
