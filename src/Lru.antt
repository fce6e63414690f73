-- ===== src/Lru.antt =====
-- lru.go: a map with a bound, an order of use and an optional expiry. Its nodes lie in one array,
-- `nodePool`, linked by indices; a freed node is linked into a free list. A method takes each
-- reading of the clock and returns its results and the new state; the calls that it makes of
-- `onEviction` are appended to a log. An index that the code has as -1 is `none`.
pub mod Links
pub mod Linked
pub mod Unlink
pub mod Front
pub mod Holds
pub mod Drop
pub mod Touch
pub mod Insert
pub mod Models
pub mod Evict
pub mod Place
pub mod Methods
pub mod Stores
pub mod Whole
pub mod Combined
pub mod Walks
pub mod Missing
pub mod Lost
pub mod Script
pub mod Aging
mod Tests
pub mod Resets
pub mod Clears
pub mod Purges
use mappo.Prelude.{
  ℕ, zero, suc, ◌+◌, ◌-◌, ◌%◌, ◌^◌, ◌≡◌, Option, none, some, List, [], ◌∷◌, ◌++◌, Bool, true, false,
  ◌&&◌, Comparable, ◌==◌, if◌then◌else◌, ltb, leb, length, get_elem?, set, is_some,
}
use mappo.MapOf.{MapOf}
use mappo.Run.{Run, ok, panic, out_of_fuel, ◌>>=◌}
use mappo.Time.{Int64, deadline, is_expired}

-- `lruNode`
pub record Node (K V : Type 0) : Type 0 where
  pub key : K
  pub value : V
  pub expiration : Int64
  pub prev : Option ℕ
  pub next : Option ℕ

-- The counter `size`, an `atomic.Int32`, as a bit pattern.
unfoldable pub increment : ℕ → ℕ
increment size = (size + 1) % 2 ^ 32

unfoldable pub decrement : ℕ → ℕ
decrement size = (size + 2 ^ 32 - 1) % 2 ^ 32

-- `int(l.size.Load()) >= n` for a positive `n`.
unfoldable pub at_least : ℕ → ℕ → Bool
at_least size n = ltb size (2 ^ 31) && leb n size

module _ {K V : Type 0} where
  -- `nodePool[idx]`
  unfoldable pub at : List (Node K V) → ℕ → Run (Node K V)
  at pool idx = elim (get_elem? pool idx) [ none ↦ panic | some node ↦ ok node ]

  -- A write through `&nodePool[idx]`.
  unfoldable pub modify : List (Node K V) → ℕ → (Node K V → Node K V) → Run (List (Node K V))
  unfolding at
  modify pool idx f = do node ← at pool idx; ok (set pool idx (f node))

pub record Lru {K : Type 0} ⦃key : Comparable K⦄ (xsync : MapOf K ℕ) (V : Type 0) : Type 0 where
  pub max_size : ℕ
  pub default_ttl : Int64
  -- Whether `onEviction` is set, and the calls made of it.
  pub on_eviction : Bool
  pub evictions : List (K × V)
  pub m : xsync.Map
  pub head : Option ℕ
  pub tail : Option ℕ
  pub free_list : Option ℕ
  pub node_pool : List (Node K V)
  -- `cap(nodePool)`
  pub capacity : ℕ
  pub size : ℕ

module _ {K V : Type 0} ⦃key : Comparable K⦄ {xsync : MapOf K ℕ} where
  unfoldable pub add_to_front : ℕ → Lru xsync V → Run (Lru xsync V)
  unfolding modify
  add_to_front idx l = do
    pool ← modify l.node_pool idx (λ node. record node { prev = none; next = l.head })
    elim l.head [
      | some h ↦ do
        pool' ← modify pool h (λ node. record node { prev = some idx })
        ok (record l { node_pool = pool'; head = some idx })
      | none ↦ ok (record l { node_pool = pool; tail = some idx; head = some idx })
    ]

  -- The first branch of `removeFromList`: `node` goes out of the links that lead forwards.
  unfoldable pub unlink_next : ℕ → Lru xsync V → Run (Lru xsync V)
  unfolding modify
  unlink_next idx l = do
    node ← at l.node_pool idx
    elim node.prev [
      | some p ↦ do
        pool ← modify l.node_pool p (λ other. record other { next = node.next })
        ok (record l { node_pool = pool })
      | none ↦ ok (record l { head = node.next })
    ]

  -- The second branch: out of the links that lead backwards.
  unfoldable pub unlink_prev : ℕ → Lru xsync V → Run (Lru xsync V)
  unfolding modify
  unlink_prev idx l = do
    node ← at l.node_pool idx
    elim node.next [
      | some n ↦ do
        pool ← modify l.node_pool n (λ other. record other { prev = node.prev })
        ok (record l { node_pool = pool })
      | none ↦ ok (record l { tail = node.prev })
    ]

  unfoldable pub remove_from_list : ℕ → Lru xsync V → Run (Lru xsync V)
  unfolding unlink_next unlink_prev
  remove_from_list idx l = do
    l' ← unlink_next idx l
    l'' ← unlink_prev idx l'
    pool ← modify l''.node_pool idx (λ node. record node { prev = none; next = none })
    ok (record l'' { node_pool = pool })

  unfoldable pub move_to_front : ℕ → Lru xsync V → Run (Lru xsync V)
  unfolding remove_from_list add_to_front
  move_to_front idx l = do l' ← remove_from_list idx l; add_to_front idx l'

  -- The index under the key, if `Load` finds one that lies in the pool and whose node has the key.
  unfoldable pub find_node : K → Lru xsync V → Option ℕ
  find_node k l = elim (xsync.load k l.m) [
    | none ↦ none
    | some idx ↦ elim (get_elem? l.node_pool idx) [
      | none ↦ none
      | some node ↦ if node.key == k then some idx else none
    ]
  ]

  unfoldable pub peek : ℕ → K → Lru xsync V → Run (Option V)
  unfolding find_node at
  peek now k l = elim (find_node k l) [
    | none ↦ ok none
    | some idx ↦ do
      node ← at l.node_pool idx
      ok (if is_expired now node.expiration then none else some node.value)
  ]

  unfoldable pub has : ℕ → K → Lru xsync V → Run Bool
  unfolding peek
  has now k l = do found ← peek now k l; ok (is_some found)

  -- The acquired node is filled, stored under the key and linked in front.
  unfoldable pub fill_node : ℕ → K → V → Int64 → Lru xsync V → Run (Lru xsync V)
  unfolding add_to_front increment modify
  fill_node idx k v exp l = do
    pool ← modify l.node_pool idx (λ node. record node { key = k; value = v; expiration = exp })
    linked ← add_to_front idx (record l { node_pool = pool; m = xsync.store k idx l.m })
    ok (record linked { size = increment linked.size })

-- `zero_key` and `zero_value` are the zero values of the two types.
module _ {K V : Type 0} ⦃key : Comparable K⦄ {xsync : MapOf K ℕ} (zero_key : K)
    (zero_value : V) where
  -- A node of the free list, or else a new one, if the array has room.
  unfoldable pub acquire_node : Lru xsync V → Run (Option ℕ × Lru xsync V)
  unfolding at
  acquire_node l = elim l.free_list [
    | some idx ↦ do
      node ← at l.node_pool idx
      let fresh = record node { prev = none; next = none; expiration = 0 }
      ok (some idx, record l { free_list = node.next; node_pool = set l.node_pool idx fresh })
    | none ↦
        let idx = length l.node_pool in
        let fresh : Node K V = record {
          key = zero_key;
          value = zero_value;
          expiration = 0;
          prev = none;
          next = none;
        } in
        if leb l.capacity idx
        then ok (none, l)
        else ok (some idx, record l { node_pool = l.node_pool ++ fresh ∷ [] })
  ]

  unfoldable pub release_node : ℕ → Lru xsync V → Lru xsync V
  release_node idx l =
      let free : Node K V = record {
        key = zero_key;
        value = zero_value;
        expiration = 0;
        prev = none;
        next = l.free_list;
      } in
      if ltb idx (length l.node_pool)
      then record l { node_pool = set l.node_pool idx free; free_list = some idx }
      else l

  -- The key and the value are read from the node after it is released.
  unfoldable pub evict_back : Lru xsync V → Run ((K × V × Bool) × Lru xsync V)
  unfolding remove_from_list release_node at
  evict_back l = elim l.tail [
    | none ↦ ok ((zero_key, zero_value, false), l)
    | some idx ↦ do
      l' ← remove_from_list idx l
      node ← at l'.node_pool idx
      let freed = release_node idx (record l' { m = xsync.delete node.key l'.m })
      node' ← at freed.node_pool idx
      ok ((node'.key, node'.value, true), record freed { size = decrement freed.size })
  ]

  -- One round of the loops that evict.
  unfoldable pub evict_one : Lru xsync V → Run (Lru xsync V)
  unfolding evict_back
  evict_one l = do
    (evicted, l') ← evict_back l
    let log = record l' { evictions = l'.evictions ++ (evicted.0, evicted.1) ∷ [] }
    ok (if l.on_eviction then log else l')

  -- `for int(l.size.Load()) >= bound { … }`
  unfoldable pub evict_down_to : ℕ → ℕ → Lru xsync V → Run (Lru xsync V)
  unfolding evict_one at_least
  evict_down_to zero bound l = out_of_fuel
  evict_down_to (suc fuel) bound l =
      let again = evict_one l >>= evict_down_to fuel bound in
      if at_least l.size bound then again else ok l

  -- From a key that has no node: make room, take a node and fill it. Without a node it gives up.
  unfoldable pub insert_new : K → V → Int64 → Lru xsync V → Run (Lru xsync V)
  unfolding evict_down_to acquire_node fill_node
  insert_new k v exp l = do
    roomy ← evict_down_to (suc l.size) l.max_size l
    (acquired, l') ← acquire_node roomy
    elim acquired [ none ↦ ok l' | some idx ↦ fill_node idx k v exp l' ]

  unfoldable pub set_with_ttl : ℕ → K → V → Int64 → Lru xsync V → Run (Lru xsync V)
  unfolding find_node insert_new move_to_front
  set_with_ttl now k v ttl l =
      let exp = deadline now ttl in
      elim (find_node k l) [
        | some idx ↦ do
          pool ← modify l.node_pool idx (λ node. record node { value = v; expiration = exp })
          move_to_front idx (record l { node_pool = pool })
        | none ↦ insert_new k v exp l
      ]

  -- A node that is found expired, or that is deleted, leaves the list, the map and the count.
  unfoldable pub drop_node : K → ℕ → Lru xsync V → Run (Lru xsync V)
  unfolding remove_from_list release_node decrement
  drop_node k idx l = do
    l' ← remove_from_list idx l
    let freed = release_node idx (record l' { m = xsync.delete k l'.m })
    ok (record freed { size = decrement freed.size })

  unfoldable pub get : ℕ → K → Lru xsync V → Run (Option V × Lru xsync V)
  unfolding find_node drop_node move_to_front at
  get now k l = elim (find_node k l) [
    | none ↦ ok (none, l)
    | some idx ↦ do
      node ← at l.node_pool idx
      let expired = do l' ← drop_node k idx l; ok (none, l')
      let fresh = do
        l' ← move_to_front idx l
        node' ← at l'.node_pool idx
        ok (some node'.value, l')
      if is_expired now node.expiration then expired else fresh
  ]

  unfoldable pub delete : K → Lru xsync V → Run (Bool × Lru xsync V)
  unfolding find_node drop_node
  delete k l = elim (find_node k l) [
    | none ↦ ok (false, l)
    | some idx ↦ do l' ← drop_node k idx l; ok (true, l')
  ]
