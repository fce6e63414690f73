-- ===== src/Ordered/Whole.antt =====
-- The methods of ordred.go that go through the list: the walks, the two ends, `Swap`, `Reverse` and
-- `Clear`.
use mappo.Prelude.{
  ℕ, suc, Option, none, some, List, [], ◌∷◌, Bool, true, false, ◌&&◌, map, is_some, Comparable,
  if◌then◌else◌, length, nat_beq,
}
use mathlib.Core.List.{reverse as reversed}
use mappo.ContainerList.{new_list, init, push_back}
use mappo.MapOf.{MapOf}
use mappo.Run.{Run, ok, ◌>>=◌}
use mappo.Time.{Int64}
use mappo.Visit.{visit}
use mappo.Ordered.{OrderedElement, Ordered, modify, put_ordered_element, discard, in_range, attach}

-- The element before `Next` gives nil.
unfoldable pub last_element : ℕ × ℕ → List (ℕ × ℕ) → ℕ × ℕ
last_element e [] = e
last_element e (e' ∷ l) = last_element e' l

-- The loop of `Swap`: of the elements from `idx` on, the one at `i`.
unfoldable pub swap_loop : ℕ → ℕ → List (ℕ × ℕ) → Option (ℕ × ℕ) → Option (ℕ × ℕ)
swap_loop i idx [] found = found
swap_loop i idx (e ∷ l) found = swap_loop i (suc idx) l (if nat_beq idx i then some e else found)

module _ {K V : Type 0} where
  abbrev pub shown : OrderedElement K V → K × V
  shown e = (e.key, e.value)

module _ {K : Type 0} ⦃key : Comparable K⦄ (xsync : MapOf K ℕ) {V : Type 0} where
  -- `NewOrderedWithConfig`; the heap has no element yet, and what it has there is never read.
  unfoldable pub new_ordered_with_config : Bool → (ℕ → OrderedElement K V) → Ordered xsync V
  new_ordered_with_config concurrent heap = record {
    items = xsync.new_map_of;
    order = new_list;
    pooled = concurrent;
    pool = [];
    heap = heap;
    allocated = 0;
  }

  unfoldable pub new_ordered : (ℕ → OrderedElement K V) → Ordered xsync V
  new_ordered heap = new_ordered_with_config false heap

module _ {K V : Type 0} ⦃key : Comparable K⦄ {xsync : MapOf K ℕ} where
  unfoldable pub has : K → Ordered xsync V → Bool
  has k o = is_some (xsync.load k o.items)

  unfoldable pub len : Ordered xsync V → ℕ
  len o = length o.order.elements

  -- The pairs that a walk from `Front` by `Next` comes to.
  unfoldable pub walk : Ordered xsync V → List (K × V)
  walk o = map (λ e. shown (o.heap e.1)) o.order.elements

  unfoldable pub keys : Ordered xsync V → List K
  keys o = map (λ e. (o.heap e.1).key) o.order.elements

  unfoldable pub values : Ordered xsync V → List V
  values o = map (λ e. (o.heap e.1).value) o.order.elements

  unfoldable pub range : {S : Type 0} → (K → V → S → S × Bool) → Ordered xsync V → S → S
  range fn o s = visit fn (walk o) s

  unfoldable pub front : Ordered xsync V → Option (K × V)
  front o = elim o.order.elements [ [] ↦ none | e ∷ l ↦ some (shown (o.heap e.1)) ]

  unfoldable pub back : Ordered xsync V → Option (K × V)
  back o = elim o.order.elements [ [] ↦ none | e ∷ l ↦ some (shown (o.heap (last_element e l).1)) ]

  -- The key and the value are read after the element is put back.
  unfoldable pub pop : ℕ × ℕ → Ordered xsync V → Run (Option (K × V) × Ordered xsync V)
  pop e o = do o' ← discard (some e.0) (o.heap e.1).key e.1 o; ok (some (shown (o'.heap e.1)), o')

  unfoldable pub pop_front : Ordered xsync V → Run (Option (K × V) × Ordered xsync V)
  pop_front o = elim o.order.elements [ [] ↦ ok (none, o) | e ∷ l ↦ pop e o ]

  unfoldable pub pop_back : Ordered xsync V → Run (Option (K × V) × Ordered xsync V)
  pop_back o = elim o.order.elements [ [] ↦ ok (none, o) | e ∷ l ↦ pop (last_element e l) o ]

  -- The elements at `i` and `j` stay where they are and exchange their keys and values.
  unfoldable pub exchange : ℕ → ℕ → Ordered xsync V → Ordered xsync V
  exchange oi oj o =
      let a = o.heap oi in
      let b = o.heap oj in
      let heap_i = modify oi (λ e. record e { key = b.key; value = b.value }) o.heap in
      let heap = modify oj (λ e. record e { key = a.key; value = a.value }) heap_i in
      let items_i = xsync.store (heap oi).key oi o.items in
      record o { heap = heap; items = xsync.store (heap oj).key oj items_i }

  unfoldable pub swap : Int64 → Int64 → Ordered xsync V → Bool × Ordered xsync V
  swap i j o =
      let elem_i = swap_loop i 0 o.order.elements none in
      let elem_j = swap_loop j 0 o.order.elements none in
      let found : Bool × Ordered xsync V = elim elem_i [
        | none ↦ (false, o)
        | some e ↦ elim elem_j [ none ↦ (false, o) | some f ↦ (true, exchange e.1 f.1 o) ]
      ] in
      if in_range i o.order && in_range j o.order then found else (false, o)

  -- The second loop of `Reverse`, with the elements in the order in which it comes to them.
  unfoldable pub reverse_loop : List ℕ → Ordered xsync V → Ordered xsync V
  reverse_loop [] o = o
  reverse_loop (a ∷ l) o =
      let pushed = record o { order = push_back a o.order } in
      reverse_loop l (attach a (o.heap a).key (some o.order.fresh) pushed)

  -- The loop of `Clear`.
  unfoldable pub put_all : List (ℕ × ℕ) → Ordered xsync V → Ordered xsync V
  put_all [] o = o
  put_all (e ∷ l) o = put_all l (put_ordered_element e.1 o)

  unfoldable pub clear : Ordered xsync V → Ordered xsync V
  clear o =
      let freed = if o.pooled then put_all o.order.elements o else o in
      record freed { items = xsync.clear freed.items; order = init freed.order }

  unfoldable pub reverse : Ordered xsync V → Ordered xsync V
  reverse o =
      let elems = map (λ e. e.1) o.order.elements in
      reverse_loop (reversed elems) (record o { order = init o.order })
