-- ===== src/Set.antt =====
-- set.go: a set over a Go map, which may be nil. The map is the list of its elements, and `ranged`
-- is the order in which an iteration over a map visits them.
pub mod Elements
pub mod Laws
pub mod Kept
mod Tests
use mappo.Prelude.{
  ℕ, ◌+◌, Option, none, some, List, [], ◌∷◌, Bool, true, false, if◌then◌else◌, Comparable, ◌==◌,
  nat_beq, ltb, length, value_or, not,
}

module _ {T : Type 0} ⦃key : Comparable T⦄ where
  -- `_, exists := m[elem]`
  unfoldable pub member : T → List T → Bool
  member x [] = false
  member x (y ∷ l) = if y == x then true else member x l

  -- `m[elem] = struct{}{}`
  unfoldable pub insert : T → List T → List T
  unfolding member
  insert x l = if member x l then l else x ∷ l

  -- `delete(m, elem)`
  unfoldable pub erase : T → List T → List T
  erase x [] = []
  erase x (y ∷ l) = if y == x then erase x l else y ∷ erase x l

  -- `for elem := range … { m[elem] = struct{}{} }`
  unfoldable pub insert_all : List T → List T → List T
  unfolding insert
  insert_all [] m = m
  insert_all (x ∷ l) m = insert_all l (insert x m)

-- `none` is the nil map.
pub record Set (T : Type 0) : Type 0 where
  pub m : Option (List T)

module _ {T : Type 0} where
  -- What reading or iterating over the map sees, which is nothing in a nil map.
  abbrev pub content : Set T → List T
  content s = value_or s.m []

module _ {T : Type 0} ⦃key : Comparable T⦄ where
  unfoldable pub new_set : List T → Set T
  unfolding insert_all
  new_set elems = record { m = some (insert_all elems []) }

  unfoldable pub add : T → Set T → Set T
  unfolding insert
  add x s = record { m = some (insert x (content s)) }

  unfoldable pub remove : T → Set T → Set T
  unfolding erase
  remove x s = elim s.m [ none ↦ s | some m ↦ record { m = some (erase x m) } ]

  unfoldable pub has : T → Set T → Bool
  unfolding member
  has x s = elim s.m [ none ↦ false | some m ↦ member x m ]

  unfoldable pub len : Set T → ℕ
  len s = elim s.m [ none ↦ 0 | some m ↦ length m ]

  unfoldable pub clear : Set T → Set T
  clear s = record { m = some [] }

  unfoldable pub is_empty : Set T → Bool
  unfolding len
  is_empty s = nat_beq (len s) 0

  -- The loop of `Equal` and of `IsSubset`.
  unfoldable pub all_in : List T → Set T → Bool
  unfolding has
  all_in [] other = true
  all_in (x ∷ l) other = let rest = all_in l other in if has x other then rest else false

  -- `result.Add(elem)` for each visited element that is selected.
  unfoldable pub add_if : (T → Bool) → List T → Set T → Set T
  unfolding add
  add_if selected [] result = result
  add_if selected (x ∷ l) result = add_if selected l (if selected x then add x result else result)

  module _ (ranged : List T → List T) where
    unfoldable pub pop : Set T → Option T × Set T
    unfolding erase
    pop s = elim s.m [
      | none ↦ (none, s)
      | some m ↦ elim (ranged m) [
        | [] ↦ (none, s)
        | x ∷ l ↦ (some x, record { m = some (erase x m) })
      ]
    ]

    unfoldable pub elements : Set T → Option (List T)
    elements s = elim s.m [ none ↦ none | some m ↦ some (ranged m) ]

    -- `Range` for a callback that only reads the set.
    unfoldable pub range : {S : Type 0} → (T → S → S) → S → Set T → S
    range {S = S} fn s set = go (ranged (content set)) s
      where
        go : List T → S → S
        go [] s = s
        go (x ∷ l) s = go l (fn x s)

    unfoldable pub filter : (T → Bool) → Set T → Set T
    unfolding add_if new_set
    filter fn s = add_if fn (ranged (content s)) (new_set [])

    unfoldable pub clone : Set T → Set T
    unfolding add_if new_set
    clone s = add_if (λ x. true) (ranged (content s)) (new_set [])

    unfoldable pub equal : Set T → Set T → Bool
    unfolding len all_in
    equal s other = if nat_beq (len s) (len other) then all_in (ranged (content s)) other else false

    unfoldable pub is_subset : Set T → Set T → Bool
    unfolding len all_in
    is_subset s other = if ltb (len other) (len s) then false else all_in (ranged (content s)) other

    unfoldable pub is_superset : Set T → Set T → Bool
    unfolding is_subset
    is_superset s other = is_subset other s

    unfoldable pub union : Set T → Set T → Set T
    unfolding len insert_all new_set
    union s other =
        let a = ranged (content s) in
        let b = ranged (content other) in
        record {
          m = some (
              if ltb (len other) (len s)
              then insert_all b (insert_all a [])
              else insert_all a (insert_all b []));
        }

    unfoldable pub intersection : Set T → Set T → Set T
    unfolding len has add_if new_set
    intersection s other =
        if ltb (len s) (len other)
        then add_if (λ x. has x other) (ranged (content s)) (new_set [])
        else add_if (λ x. has x s) (ranged (content other)) (new_set [])

    unfoldable pub difference : Set T → Set T → Set T
    unfolding has add_if new_set
    difference s other = add_if (λ x. not (has x other)) (ranged (content s)) (new_set [])

    unfoldable pub symmetric_difference : Set T → Set T → Set T
    unfolding has add_if new_set
    symmetric_difference s other =
        add_if (λ x. not (has x s)) (ranged (content other))
          (add_if (λ x. not (has x other)) (ranged (content s)) (new_set []))
