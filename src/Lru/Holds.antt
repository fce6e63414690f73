-- ===== src/Lru/Holds.antt =====
-- The invariant of lru.go's state: which nodes are linked and which are free, and what the map,
-- the counter and the array have to do with them.
use mappo.Prelude.{
  ℕ, ◌+◌, ◌≤◌, ◌<◌, ◌^◌, ◌≡◌, Option, none, some, List, [], ◌∷◌, arith, if◌then◌else◌, ltb, length,
  get_elem?, Comparable, ◌∙◌,
}
use mappo.Pairs.{uses, lookup, Once}
use mappo.MapOf.{MapOf}
use mappo.Lru.{Node, Lru}
use mappo.Lru.Links.{Slot, Cells, Reads, times}
use mappo.Lru.Linked.{Linked}

abbrev pub slot_index : {V : Type 0} → Option (Slot V) → Option ℕ
slot_index none = none
slot_index (some s) = some s.index

module _ {K V : Type 0} where
  -- The free list from `p` on goes through these indices.
  abbrev pub Free : Reads K V → Option ℕ → List ℕ → Type 0
  Free at p [] = p ≡ none
  Free at p (f ∷ fs) =
      (p ≡ some f) × ((node : Node K V) × (at f ≡ some node) × Free at node.next fs)

  pub Free-ext :
      (at at' : Reads K V) (p : Option ℕ) (fs : List ℕ)
      → ((j : ℕ) → 0 < uses j fs → at' j ≡ at j)
      → Free at p fs
      → Free at' p fs
  Free-ext at at' p [] h s = s
  Free-ext at at' p (f ∷ fs) h (e, (node, reads, rest)) = (
    e,
    (
      node,
      h f (ground arith) ∙ reads,
      Free-ext at at' node.next fs (λ j q. h j (omega arith)) rest,
    ),
  )

module _ {K V : Type 0} ⦃key : Comparable K⦄ {xsync : MapOf K ℕ} where
  -- The cells `cs` are linked, most recently used first, and `fs` are the free nodes: together
  -- they are all nodes of the array, each once. The map leads from each key to its node.
  pub record Holds (l : Lru xsync V) (cs : Cells K V) (fs : List ℕ) : Type 0 where
    pub linked : Linked l cs
    pub free : Free (get_elem? l.node_pool) l.free_list fs
    pub parts : (i : ℕ) → times i cs + uses i fs ≡ (if ltb i (length l.node_pool) then 1 else 0)
    pub total : length cs + length fs ≡ length l.node_pool
    pub once : Once cs
    pub maps : (k : K) → xsync.load k l.m ≡ slot_index (lookup k cs)
    pub counted : l.size ≡ length cs
    pub roomy : length l.node_pool ≤ l.capacity
    pub small : length cs < 2 ^ 31

  -- A free node is not linked.
  pub free_apart :
      (l : Lru xsync V) (cs : Cells K V) (fs : List ℕ) (j : ℕ)
      → Holds l cs fs
      → 0 < uses j fs
      → times j cs ≡ 0
  free_apart l cs fs j h q = ground (arith, h.parts j)

  pub Holds-evictions :
      (l : Lru xsync V) (log : List (K × V)) (cs : Cells K V) (fs : List ℕ)
      → Holds l cs fs
      → Holds (record l { evictions = log }) cs fs
  Holds-evictions l log cs fs h = record {
    linked = record {
      links = h.linked.links;
      head = h.linked.head;
      tail = h.linked.tail;
      distinct = h.linked.distinct;
    };
    free = h.free;
    parts = h.parts;
    total = h.total;
    once = h.once;
    maps = h.maps;
    counted = h.counted;
    roomy = h.roomy;
    small = h.small;
  }
