-- ===== src/Ordered.antt =====
-- ordred.go: a map that keeps the order of insertion. Its `orderedElement`s lie on a heap, where
-- `items` and the list `order` both lead to them by address, and from where a concurrent map
-- recycles them through `elemPool`. A method returns its results and the map after it.
pub mod Whole
pub mod Holds
pub mod Middle
pub mod Places
pub mod Found
pub mod Writes
pub mod Moves
pub mod Reads
pub mod Turns
pub mod Cleared
pub mod Pick
pub mod Exchange
pub mod Swap
pub mod Lengths
pub mod Script
mod Tests
pub mod Hazards
pub mod Ends
pub mod Indexed
pub mod Removed
pub mod Beside
use mappo.Prelude.{
  ℕ, zero, suc, ◌+◌, ◌^◌, ◌≡◌, Option, none, some, List, [], ◌∷◌, ◌++◌, Bool, true, false, ◌&&◌,
  Comparable, ◌==◌, if◌then◌else◌, ltb, length, is_some, nat_beq, Option, get_elem?,
}
use mappo.ContainerList
use mappo.ContainerList.{Order, new_list, init, push_back, push_front, remove_element}
use mappo.MapOf.{MapOf}
use mappo.SyncPool.{take_out}
use mappo.Run.{Run, ok, panic, ◌>>=◌}
use mappo.Time.{Int64}

-- `orderedElement`
pub record OrderedElement (K V : Type 0) : Type 0 where
  pub key : K
  pub value : V
  pub element : Option ℕ

module _ {K V : Type 0} where
  -- A write through the pointer `a`.
  unfoldable pub modify :
      ℕ
      → (OrderedElement K V → OrderedElement K V)
      → (ℕ → OrderedElement K V)
      → ℕ
      → OrderedElement K V
  modify a f heap = λ b. if nat_beq a b then f (heap a) else heap b

-- `pooled` says whether `elemPool` is set; `pool` are the addresses put there and not taken since.
pub record Ordered {K : Type 0} ⦃key : Comparable K⦄ (xsync : MapOf K ℕ) (V : Type 0) : Type 0 where
  pub items : xsync.Map
  pub order : Order
  pub pooled : Bool
  pub pool : List ℕ
  pub heap : ℕ → OrderedElement K V
  -- The next address that no element has had.
  pub allocated : ℕ

-- The element after `n` calls of `Next`; one that is nil panics.
unfoldable pub forward : ℕ → List (ℕ × ℕ) → Run (ℕ × ℕ)
forward n [] = panic
forward zero (e ∷ l) = ok e
forward (suc n) (e ∷ l) = forward n l

-- `index >= 0 && index < o.order.Len()`
unfoldable pub in_range : Int64 → Order → Bool
in_range index order = ltb index (2 ^ 63) && ltb index (length order.elements)

module _ {K V : Type 0} ⦃key : Comparable K⦄ where
  -- The loop of `IndexOf`, with the elements that are left and the index of the first of them.
  unfoldable pub index_of_loop : K → (ℕ → OrderedElement K V) → ℕ → List (ℕ × ℕ) → Option ℕ
  index_of_loop k heap idx [] = none
  index_of_loop k heap idx (e ∷ l) =
      let rest = index_of_loop k heap (suc idx) l in if (heap e.1).key == k then some idx else rest

module _ {K V : Type 0} ⦃key : Comparable K⦄ {xsync : MapOf K ℕ} where
  unfoldable pub put_ordered_element : ℕ → Ordered xsync V → Ordered xsync V
  put_ordered_element a o =
      let heap' = modify a (λ e. record e { element = none }) o.heap in
      if o.pooled then record o { heap = heap'; pool = a ∷ o.pool } else o

  -- `oe.Key = key; oe.Value = value`
  unfoldable pub fill : ℕ → K → V → Ordered xsync V → Ordered xsync V
  fill a k v o = record o { heap = modify a (λ e. record e { key = k; value = v }) o.heap }

  -- `oe.element = e; o.items.Store(key, oe)`
  unfoldable pub attach : ℕ → K → Option ℕ → Ordered xsync V → Ordered xsync V
  attach a k element o = record o {
    heap = modify a (λ e. record e { element = element }) o.heap;
    items = xsync.store k a o.items;
  }

  -- `elem.Value = value`
  unfoldable pub write_value : ℕ → V → Ordered xsync V → Ordered xsync V
  write_value a v o = record o { heap = modify a (λ e. record e { value = v }) o.heap }

  unfoldable pub get : K → Ordered xsync V → Option V
  get k o = elim (xsync.load k o.items) [ none ↦ none | some a ↦ some (o.heap a).value ]

  unfoldable pub get_at : Int64 → Ordered xsync V → Run (Option (K × V))
  get_at index o =
      let found = do
        e ← forward index o.order.elements
        ok (some ((o.heap e.1).key, (o.heap e.1).value))
      in if in_range index o.order then found else ok none

  unfoldable pub index_of : K → Ordered xsync V → Option ℕ
  index_of k o = index_of_loop k o.heap 0 o.order.elements

  -- `order.Remove`, `items.Delete` and `putOrderedElement`, as every deletion does them.
  unfoldable pub discard : Option ℕ → K → ℕ → Ordered xsync V → Run (Ordered xsync V)
  discard element k a o = do
    order' ← remove_element element o.order
    ok (put_ordered_element a (record o { order = order'; items = xsync.delete k o.items }))

  unfoldable pub delete : K → Ordered xsync V → Run (Bool × Ordered xsync V)
  delete k o = elim (xsync.load k o.items) [
    | none ↦ ok (false, o)
    | some a ↦ do o' ← discard (o.heap a).element k a o; ok (true, o')
  ]

  unfoldable pub delete_at : Int64 → Ordered xsync V → Run (Bool × Ordered xsync V)
  delete_at index o =
      let found = do
        e ← forward index o.order.elements
        o' ← discard (some e.0) (o.heap e.1).key e.1 o
        ok (true, o')
      in if in_range index o.order then found else ok (false, o)

  unfoldable pub move_to_front : K → Ordered xsync V → Run (Bool × Ordered xsync V)
  move_to_front k o = elim (xsync.load k o.items) [
    | none ↦ ok (false, o)
    | some a ↦ do
      order' ← ContainerList.move_to_front (o.heap a).element o.order
      ok (true, record o { order = order' })
  ]

  unfoldable pub move_to_back : K → Ordered xsync V → Run (Bool × Ordered xsync V)
  move_to_back k o = elim (xsync.load k o.items) [
    | none ↦ ok (false, o)
    | some a ↦ do
      order' ← ContainerList.move_to_back (o.heap a).element o.order
      ok (true, record o { order = order' })
  ]

  -- The node that the key had leaves the list and goes to the pool; `items` still leads to it.
  unfoldable pub remove_old : K → Ordered xsync V → Run (Ordered xsync V)
  remove_old k o = elim (xsync.load k o.items) [
    | none ↦ ok o
    | some a ↦ do
      order' ← remove_element (o.heap a).element o.order
      ok (put_ordered_element a (record o { order = order' }))
  ]

-- `zero_key` and `zero_value` are the zero values of the two types. The pool may hand out any element
-- that it has, or none of them: `choice` says which.
module _ {K V : Type 0} ⦃key : Comparable K⦄ {xsync : MapOf K ℕ} (zero_key : K)
    (zero_value : V) where
  unfoldable pub get_ordered_element : ℕ → Ordered xsync V → ℕ × Ordered xsync V
  get_ordered_element choice o =
      let zero_element : OrderedElement K V = record {
        key = zero_key;
        value = zero_value;
        element = none;
      } in
      let allocate = record o {
        heap = modify o.allocated (λ e. zero_element) o.heap;
        allocated = suc o.allocated;
      } in
      elim (if o.pooled then take_out choice o.pool else none) [
        | none ↦ (o.allocated, allocate)
        | some (a, pool') ↦ (
          a,
          record o { pool = pool'; heap = modify a (λ e. record e { element = none }) o.heap },
        )
      ]

  unfoldable pub set : ℕ → K → V → Ordered xsync V → Ordered xsync V
  set choice k v o = elim (xsync.load k o.items) [
    | some a ↦ write_value a v o
    | none ↦
        let (oe, o') = get_ordered_element choice o in
        let filled = fill oe k v o' in
        attach oe k (some filled.order.fresh) (record filled { order = push_back oe filled.order })
  ]

  unfoldable pub set_back : ℕ → K → V → Ordered xsync V → Ordered xsync V
  set_back choice k v o = set choice k v o

  unfoldable pub set_front : ℕ → K → V → Ordered xsync V → Run (Ordered xsync V)
  set_front choice k v o = elim (xsync.load k o.items) [
    | some a ↦ do
      order' ← ContainerList.move_to_front (o.heap a).element o.order
      ok (write_value a v (record o { order = order' }))
    | none ↦
        let (oe, o') = get_ordered_element choice o in
        let filled = fill oe k v o' in
        ok (
          attach oe k (some filled.order.fresh)
            (record filled { order = push_front oe filled.order }))
  ]

  -- `InsertBefore` and `InsertAfter`, which differ in the call `insert` of the list. The element of
  -- the mark is read after the old node is put back.
  unfoldable pub insert_beside :
      (ℕ → Option ℕ → Order → Run (Option ℕ × Order))
      → ℕ
      → K
      → K
      → V
      → Ordered xsync V
      → Run (Bool × Ordered xsync V)
  insert_beside insert choice k mark v o = elim (xsync.load mark o.items) [
    | none ↦ ok (false, o)
    | some m ↦ do
      o₁ ← remove_old k o
      let (oe, o₂) = get_ordered_element choice o₁
      let filled = fill oe k v o₂
      (element, order') ← insert oe (filled.heap m).element filled.order
      ok (true, attach oe k element (record filled { order = order' }))
  ]

  unfoldable pub insert_before : ℕ → K → K → V → Ordered xsync V → Run (Bool × Ordered xsync V)
  insert_before choice k mark v o = insert_beside ContainerList.insert_before choice k mark v o

  unfoldable pub insert_after : ℕ → K → K → V → Ordered xsync V → Run (Bool × Ordered xsync V)
  insert_after choice k mark v o = insert_beside ContainerList.insert_after choice k mark v o
