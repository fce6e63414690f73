-- ===== src/Lru/Resets.antt =====
-- The constructor, `Clear` and `Resize` of lru.go.
use mappo.Prelude.{
  ℕ, suc, ◌+◌, ◌-◌, ◌<◌, ◌^◌, ◌≡◌, refl, none, List, [], ◌++◌, Bool, arith, if◌then◌else◌, length,
  Comparable, ◌∙◌, ap, sym, take, length-take-le,
}
use mappo.MapOf.{MapOf}
use mappo.Pairs.{lookup, count}
use mappo.Run.{ok}
use mappo.Time.{Int64, is_positive}
use mappo.Lru.{Lru}
use mappo.Lru.Evict.{evict_down_to_lem, told}
use mappo.Lru.Holds.{Holds}
use mappo.Lru.Links.{Cells}
use mappo.Lru.Models.{Models, Stored, length-entries}
use mappo.Lru.Stores.{entries-take}
use mappo.Lru.Whole.{bound_of, new_lru_with_config, resize}

bound_of-positive : (n : Int64) → 0 < bound_of n
unfolding bound_of
bound_of-positive n = ground arith

module _ {K V : Type 0} ⦃key : Comparable K⦄ {xsync : MapOf K ℕ} where
  -- A state without nodes.
  pub empty_Holds :
      (l : Lru xsync V)
      → l.node_pool ≡ []
      → l.head ≡ none
      → l.tail ≡ none
      → l.free_list ≡ none
      → l.size ≡ 0
      → ((k : K) → xsync.load k l.m ≡ none)
      → Holds l [] []
  unfolding lookup count
  empty_Holds l pool head tail free size m = record {
    linked = record { links = tt; head = head; tail = tail; distinct = λ i. omega arith };
    free = free;
    parts = λ i. rw pool (ground arith);
    total = rw pool refl;
    once = λ k. omega arith;
    maps = m;
    counted = size;
    roomy = rw pool (omega arith);
    small = omega arith;
  }

  -- `NewLRUWithConfig` makes an empty map, whose array has room for as many nodes as the bound,
  -- which is 1000 if `MaxSize` is not positive.
  pub new_lru_with_config-Models :
      (max_size ttl : Int64) (on_eviction : Bool)
      → bound_of max_size < 2 ^ 31
      → Models (new_lru_with_config {V = V} {xsync = xsync} max_size ttl on_eviction) []
        × ((new_lru_with_config {V = V} {xsync = xsync} max_size ttl on_eviction).max_size
            ≡ (if is_positive max_size then max_size else 1000))
        × ((new_lru_with_config {V = V} {xsync = xsync} max_size ttl on_eviction).capacity
            ≡ (new_lru_with_config {V = V} {xsync = xsync} max_size ttl on_eviction).max_size)
  unfolding new_lru_with_config
  new_lru_with_config-Models max_size ttl on_eviction small = (
    record {
      cells = [];
      unused = [];
      holds = empty_Holds _ refl refl refl refl refl xsync.load-new_map_of;
      shows = refl;
      bounded = omega arith;
      positive = bound_of-positive max_size;
      small = small;
    },
    refl,
    refl,
  )

  Holds-max_size :
      (l : Lru xsync V) (n : ℕ) (cs : Cells K V) (fs : List ℕ)
      → Holds l cs fs
      → Holds (record l { max_size = n }) cs fs
  Holds-max_size l n cs fs h = record {
    linked = record {
      links = h.linked.links;
      head = h.linked.head;
      tail = h.linked.tail;
      distinct = h.linked.distinct;
    };
    free = h.free;
    parts = h.parts;
    total = h.total;
    once = h.once;
    maps = h.maps;
    counted = h.counted;
    roomy = h.roomy;
    small = h.small;
  }

  -- `Resize` sets the bound, and the entries beyond it go, the least recently used first; the
  -- array's capacity stays. For each that goes `onEviction`, if there is one, is called with the zero
  -- key and the zero value.
  pub resize-Models :
      (max_size : Int64) (zero_key : K) (zero_value : V) (l : Lru xsync V)
      (es : List (K × Stored V))
      → Models l es
      → bound_of max_size < 2 ^ 31
      → (l' : Lru xsync V) × (resize zero_key zero_value max_size l ≡ ok l')
        × Models l' (take (bound_of max_size) es)
        × (l'.max_size ≡ bound_of max_size)
        × (l'.capacity ≡ l.capacity)
        × (l'.evictions
            ≡ l.evictions ++ told zero_key zero_value l.on_eviction (length es - bound_of max_size))
  unfolding resize
  resize-Models max_size zero_key zero_value l es m small =
      let n = bound_of max_size in
      let l₀ = record l { max_size = n } in
      let (l', fs, run, same, log, holds) =
        evict_down_to_lem zero_key zero_value (suc l.size) (n + 1) l₀ m.cells m.unused
          (Holds-max_size l n m.cells m.unused m.holds) (omega arith)
          (omega (arith, m.holds.counted)) in
      let one : n + 1 - 1 ≡ n = omega arith in
      let len : length m.cells ≡ length es = sym (length-entries m.cells) ∙ ap length m.shows in
      (
        l',
        run,
        record {
          cells = take (n + 1 - 1) m.cells;
          unused = fs;
          holds = holds;
          shows =
              entries-take (n + 1 - 1) m.cells
              ∙ ap (take (n + 1 - 1)) m.shows
              ∙ ap (λ x. take x es) one;
          bounded = omega (arith, length-take-le n es, same.max_size);
          positive = omega (arith, bound_of-positive max_size, same.max_size);
          small = omega (arith, small, same.max_size);
        },
        same.max_size,
        same.capacity,
        log
            ∙ ap (λ x. l.evictions ++ told zero_key zero_value l.on_eviction x)
                (omega (arith, len)),
      )
