-- ===== src/Lru/Insert.antt =====
-- A node is taken, from the free list or from the end of the array, and filled for a new key.
use mappo.Prelude.{
  ℕ, ◌^◌, ◌%◌, ◌+◌, ◌≤◌, ◌<◌, ◌≡◌, refl, Option, none, some, List, [], ◌∷◌, ◌++◌, arith,
  if◌then◌else◌, nat_beq, ltb, length, get_elem?, set, get_elem?-set, length-set, length-append,
  ◌∙◌, Comparable, eq_iff, get_elem?-append_left, get_elem?-append_end,
}
use mappo.MapOf.{MapOf}
use mappo.Pairs.{uses, lookup, Once, count, to_nat, count_of_lookup-none}
use mappo.Run.{ok}
use mappo.Lru.{Node, Lru, acquire_node, fill_node, increment}
use mappo.Lru.Drop.{free_node}
use mappo.Lru.Holds.{Holds, Free, Free-ext, slot_index, free_apart}
use mappo.Lru.Links.{Slot, Cells, last, times, Seg-update, Seg-ext}
use mappo.Lru.Models.{Same}
use mappo.Lru.Linked.{Linked, Seg-set, if_self, if_other, modify_lem}
use mappo.Lru.Front.{add_to_front_lem}
use mappo.Time.{Int64}

module _ {K V : Type 0} ⦃key : Comparable K⦄ {xsync : MapOf K ℕ} where
  -- Besides the linked and the free nodes there is one more, at `idx`.
  pub record Acquired (idx : ℕ) (l : Lru xsync V) (cs : Cells K V) (fs : List ℕ) : Type 0 where
    pub node : Node K V
    pub reads : get_elem? l.node_pool idx ≡ some node
    pub linked : Linked l cs
    pub free : Free (get_elem? l.node_pool) l.free_list fs
    pub parts :
        (j : ℕ)
        → times j cs + uses j fs + to_nat (nat_beq idx j)
          ≡ (if ltb j (length l.node_pool) then 1 else 0)
    pub total : length cs + length fs + 1 ≡ length l.node_pool
    pub roomy : length l.node_pool ≤ l.capacity

  module _ (zero_key : K) (zero_value : V) where
    acquire_free :
        (l : Lru xsync V) (f : ℕ) (node : Node K V)
        → l.free_list ≡ some f
        → get_elem? l.node_pool f ≡ some node
        → acquire_node zero_key zero_value l
          ≡ ok (
            some f,
            record l {
              node_pool =
                  set l.node_pool f (record node { prev = none; next = none; expiration = 0 });
              free_list = node.next;
            },
          )
    unfolding acquire_node
    acquire_free l f node e r = ground arith

    acquire_fresh :
        (l : Lru xsync V)
        → l.free_list ≡ none
        → length l.node_pool < l.capacity
        → acquire_node zero_key zero_value l
          ≡ ok (
            some (length l.node_pool),
            record l { node_pool = l.node_pool ++ (free_node zero_key zero_value none) ∷ [] },
          )
    unfolding acquire_node
    acquire_fresh l e r = ground arith

    -- Without a free node and without room, it gives none.
    pub acquire_none :
        (l : Lru xsync V)
        → l.free_list ≡ none
        → l.capacity ≤ length l.node_pool
        → acquire_node zero_key zero_value l ≡ ok (none, l)
    unfolding acquire_node
    acquire_none l e r = ground arith

    -- If the list is shorter than the array may become, `acquireNode` finds a node.
    pub acquire_node_lem :
        (l : Lru xsync V) (cs : Cells K V) (fs : List ℕ)
        → Holds l cs fs
        → length cs < l.capacity
        → (idx : ℕ) × (pool : List (Node K V)) × (free_list : Option ℕ) × (fs' : List ℕ)
          × (acquire_node zero_key zero_value l
              ≡ ok (some idx, record l { node_pool = pool; free_list = free_list }))
          × Acquired idx (record l { node_pool = pool; free_list = free_list }) cs fs'
    acquire_node_lem l cs [] h room =
        let n = length l.node_pool in
        let pool = l.node_pool ++ (free_node zero_key zero_value none) ∷ [] in
        let len = length-append l.node_pool ((free_node zero_key zero_value none) ∷ []) in
        (
          n,
          pool,
          l.free_list,
          [],
          acquire_fresh l h.free (omega (arith, h.total)),
          record {
            node = (free_node zero_key zero_value none);
            reads = get_elem?-append_end l.node_pool (free_node zero_key zero_value none);
            linked = record {
              links =
                  Seg-ext (get_elem? l.node_pool) (get_elem? pool) none cs none
                    (λ j q.
                      get_elem?-append_left l.node_pool ((free_node zero_key zero_value none) ∷ [])
                        j (ground (arith, h.parts j)))
                    h.linked.links;
              head = h.linked.head;
              tail = h.linked.tail;
              distinct = h.linked.distinct;
            };
            free = h.free;
            parts = λ j. rw len (ground (arith, h.parts j));
            total = omega (arith, len, h.total);
            roomy = omega (arith, len, h.total);
          },
        )
    acquire_node_lem l cs (f ∷ fs) h room =
        let (e, (node, reads, rest)) = h.free in
        let fresh = record node { prev = none; next = none; expiration = 0 } in
        let old = get_elem? l.node_pool in
        let pool = set l.node_pool f fresh in
        let same = length-set l.node_pool f fresh in
        (
          f,
          pool,
          node.next,
          fs,
          acquire_free l f node e reads,
          record {
            node = fresh;
            reads = get_elem?-set l.node_pool f f fresh node reads ∙ if_self f _ _;
            linked = record {
              links = Seg-set l.node_pool f fresh node none cs none reads (
                  Seg-update old f fresh none cs none (free_apart l cs (f ∷ fs) f h (ground arith))
                    h.linked.links);
              head = h.linked.head;
              tail = h.linked.tail;
              distinct = h.linked.distinct;
            };
            free =
                Free-ext old (get_elem? pool) node.next fs
                  (λ j q.
                    get_elem?-set l.node_pool f j fresh node reads
                    ∙ if_other f j _ _ (λ e. ground (arith, h.parts f)))
                  rest;
            parts = λ j. rw same (omega (arith, h.parts j));
            total = omega (arith, same, h.total);
            roomy = omega (arith, same, h.roomy);
          },
        )

  -- Filling the acquired node for a key that is not there puts its cell in front.
  pub fill_node_lem :
      (idx : ℕ) (k : K) (v : V) (x : Int64) (l : Lru xsync V) (cs : Cells K V) (fs : List ℕ)
      → Acquired idx l cs fs
      → ((j : K) → xsync.load j l.m ≡ slot_index (lookup j cs))
      → Once cs
      → lookup k cs ≡ none
      → l.size ≡ length cs
      → length cs + 1 < 2 ^ 31
      → (l' : Lru xsync V) × (fill_node idx k v x l ≡ ok l')
        × Same l l'
        × (l'.evictions ≡ l.evictions)
        × Holds l' ((k, record { index = idx; value = v; expiration = x }) ∷ cs) fs
  unfolding fill_node increment lookup count
  fill_node_lem idx k v x l cs fs a maps once absent counted small =
      let node' = record a.node { key = k; value = v; expiration = x } in
      let pool = set l.node_pool idx node' in
      let l₁ = record l { node_pool = pool; m = xsync.store k idx l.m } in
      let c : K × Slot V = (k, record { index = idx; value = v; expiration = x }) in
      let absent_here : times idx cs ≡ 0 = ground (arith, a.parts idx) in
      let linked' : Linked l₁ cs = record {
        links =
            Seg-set l.node_pool idx node' a.node none cs none a.reads (
              Seg-update (get_elem? l.node_pool) idx node' none cs none absent_here a.linked.links);
        head = a.linked.head;
        tail = a.linked.tail;
        distinct = a.linked.distinct;
      } in
      let (pool', e, outside, seg) =
        add_to_front_lem l₁ idx node' cs linked' absent_here
          (get_elem?-set l.node_pool idx idx node' a.node a.reads ∙ if_self idx _ _) in
      let same : length pool' ≡ length l.node_pool =
        outside.same_length ∙ length-set l.node_pool idx node' in
      (
        record l₁ {
          node_pool = pool';
          head = some idx;
          tail = last (some idx) cs;
          size = (l.size + 1) % 2 ^ 32;
        },
        rw
            (modify_lem l.node_pool idx (λ node. record node { key = k; value = v; expiration = x })
              a.node a.reads)
            (rw e),
        record { max_size = refl; default_ttl = refl; on_eviction = refl; capacity = refl },
        refl,
        record {
          linked = record {
            links = seg;
            head = refl;
            tail = refl;
            distinct = λ j. ground (arith, a.parts j);
          };
          free =
              Free-ext (get_elem? l.node_pool) (get_elem? pool') l.free_list fs
                (λ j q.
                  outside.same j (ground (arith, a.parts j))
                  ∙ get_elem?-set l.node_pool idx j node' a.node a.reads
                  ∙ if_other idx j _ _ (λ e. ground (arith, a.parts j)))
                a.free;
          parts = λ j. rw same (omega (arith, a.parts j));
          total = omega (arith, same, a.total);
          once = λ j. ground (arith, once j, eq_iff k j, count_of_lookup-none k cs);
          maps = λ j. xsync.load-store k j idx l.m ∙ ground (arith, maps j);
          counted = omega arith;
          roomy = omega (arith, same, a.roomy);
          small = omega arith;
        },
      )
