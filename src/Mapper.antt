-- ===== src/Mapper.antt =====
-- mapper.go: a Go map with methods, which may be nil. The map is the list of its pairs, and `ranged` is
-- the order in which an iteration over a map visits them. `zero_value` is the zero value of V.
pub mod Combine
pub mod Renamed
pub mod Sorted
mod Tests
use mappo.Prelude.{
  ℕ, ◌+◌, Option, none, some, List, [], ◌∷◌, ◌++◌, Bool, true, false, if◌then◌else◌, Comparable,
  ◌==◌, nat_beq, length, value_or, is_some, map,
}
use mappo.Pairs.{lookup, remove, assign}
use mappo.Run.{Run, ok, panic, out_of_fuel, ◌>>=◌}

-- `none` is the nil map.
pub record Mapper (K V : Type 0) : Type 0 where
  pub m : Option (List (K × V))

module _ {K V : Type 0} where
  -- What reading or iterating over the map sees, which is nothing in a nil map.
  abbrev pub content : Mapper K V → List (K × V)
  content mapper = value_or mapper.m []

  abbrev pub nil : Mapper K V
  nil = record { m = none }

  unfoldable pub new_mapper : Mapper K V
  new_mapper = record { m = some [] }

  -- `NewMapperFrom` of a Go map, which it shares; `none` is the nil map.
  unfoldable pub new_mapper_from : Option (List (K × V)) → Mapper K V
  new_mapper_from m = elim m [ none ↦ nil | some l ↦ record { m = some l } ]

  -- The capacity is a hint.
  unfoldable pub new_mapper_with_capacity : ℕ → Mapper K V
  new_mapper_with_capacity capacity = record { m = some [] }

  unfoldable pub len : Mapper K V → ℕ
  len mapper = length (content mapper)

  unfoldable pub is_empty : Mapper K V → Bool
  unfolding len
  is_empty mapper = nat_beq (len mapper) 0

  -- It leaves the nil map as it is.
  unfoldable pub clear : Mapper K V → Mapper K V
  clear mapper = elim mapper.m [ none ↦ mapper | some l ↦ record { m = some [] } ]

  module _ (ranged : List (K × V) → List (K × V)) where
    -- A nil slice is empty.
    unfoldable pub to_slice : Mapper K V → List (K × V)
    to_slice mapper = elim mapper.m [ none ↦ [] | some l ↦ ranged l ]

    unfoldable pub keys : Mapper K V → List K
    unfolding to_slice
    keys mapper = map (λ e. e.0) (to_slice mapper)

    unfoldable pub values : Mapper K V → List V
    unfolding to_slice
    values mapper = map (λ e. e.1) (to_slice mapper)

module _ {K V : Type 0} ⦃key : Comparable K⦄ where
  unfoldable pub ok_get : K → Mapper K V → Option V
  unfolding lookup
  ok_get k mapper = elim mapper.m [ none ↦ none | some l ↦ lookup k l ]

  unfoldable pub get : V → K → Mapper K V → V
  unfolding ok_get
  get zero_value k mapper = value_or (ok_get k mapper) zero_value

  unfoldable pub has : K → Mapper K V → Bool
  unfolding ok_get
  has k mapper = is_some (ok_get k mapper)

  unfoldable pub pop : K → Mapper K V → Option V × Mapper K V
  unfolding lookup remove
  pop k mapper = elim mapper.m [
    | none ↦ (none, mapper)
    | some l ↦ elim (lookup k l) [
      | none ↦ (none, mapper)
      | some val ↦ (some val, record { m = some (remove k l) })
    ]
  ]

  unfoldable pub set_default : K → V → Mapper K V → V × Mapper K V
  unfolding lookup assign
  set_default k value mapper = elim mapper.m [
    | none ↦ (value, mapper)
    | some l ↦ elim (lookup k l) [
      | some existing ↦ (existing, mapper)
      | none ↦ (value, record { m = some (assign k value l) })
    ]
  ]

  -- With a nil map, the new map is a local variable that is lost; the receiver stays nil.
  unfoldable pub update : K → (Option V → V) → Mapper K V → V × Mapper K V
  unfolding lookup assign
  update k fn mapper = elim mapper.m [
    | none ↦ (fn none, mapper)
    | some l ↦ let new_val = fn (lookup k l) in (new_val, record { m = some (assign k new_val l) })
  ]

  unfoldable pub set : K → V → Mapper K V → Mapper K V
  unfolding assign
  set k value mapper = elim mapper.m [
    | none ↦ mapper
    | some l ↦ record { m = some (assign k value l) }
  ]

  unfoldable pub delete : K → Mapper K V → Mapper K V
  unfolding remove
  delete k mapper = elim mapper.m [ none ↦ mapper | some l ↦ record { m = some (remove k l) } ]

  -- The pairs that `Filter` writes to its result.
  unfoldable pub kept : (K → V → Bool) → List (K × V) → List (K × V)
  kept fn [] = []
  kept fn (e ∷ l) = let rest = kept fn l in if fn e.0 e.1 then e ∷ rest else rest

  -- `for k, v := range m { result[k] = v }`
  unfoldable pub assign_all : List (K × V) → List (K × V) → List (K × V)
  assign_all [] result = result
  assign_all (e ∷ l) result = assign_all l (assign e.0 e.1 result)

  -- The same, with what `mergeFn` makes of the two values under a key that is there.
  unfoldable pub merge_all : (K → V → V → V) → List (K × V) → List (K × V) → List (K × V)
  merge_all merge_fn [] result = result
  merge_all merge_fn (e ∷ l) result =
      let value = elim (lookup e.0 result) as (λ _. V) [
        | some existing ↦ merge_fn e.0 existing e.1
        | none ↦ e.1
      ] in
      merge_all merge_fn l (assign e.0 value result)

  -- The loops of `MapKeys` and `Invert`: a key that is there panics.
  unfoldable pub assign_new : List (K × V) → List (K × V) → Run (List (K × V))
  assign_new [] result = ok result
  assign_new (e ∷ l) result =
      let rest = assign_new l (assign e.0 e.1 result) in
      if is_some (lookup e.0 result) then panic else rest

  unfoldable pub all_equal : (V → V → Bool) → List (K × V) → List (K × V) → Bool
  all_equal value_eq [] other = true
  all_equal value_eq (e ∷ l) other =
      let rest = all_equal value_eq l other in
      let same = elim (lookup e.0 other) as (λ _. Bool) [
        | none ↦ false
        | some ov ↦ value_eq e.1 ov
      ] in
      if same then rest else false

  module _ (ranged : List (K × V) → List (K × V)) where
    unfoldable pub clone : Mapper K V → Mapper K V
    clone mapper = elim mapper.m [
      | none ↦ nil
      | some l ↦ record { m = some (assign_all (ranged l) []) }
    ]

    unfoldable pub merge_loop : List (Mapper K V) → List (K × V) → List (K × V)
    merge_loop [] result = result
    merge_loop (mapper ∷ maps) result =
        merge_loop maps (assign_all (ranged (content mapper)) result)

    unfoldable pub merge : List (Mapper K V) → Mapper K V
    merge maps = record { m = some (merge_loop maps []) }

    unfoldable pub merge_with_loop :
        (K → V → V → V) → List (Mapper K V) → List (K × V) → List (K × V)
    merge_with_loop merge_fn [] result = result
    merge_with_loop merge_fn (mapper ∷ maps) result =
        merge_with_loop merge_fn maps (merge_all merge_fn (ranged (content mapper)) result)

    -- A write to the nil map that the clone of a nil first map is panics.
    unfoldable pub merge_with : (K → V → V → V) → List (Mapper K V) → Run (Mapper K V)
    merge_with merge_fn [] = ok nil
    merge_with merge_fn (first ∷ []) = ok (clone first)
    merge_with merge_fn (first ∷ second ∷ maps) = elim (clone first).m [
      | some result ↦ ok (record { m = some (merge_with_loop merge_fn (second ∷ maps) result) })
      | none ↦
          if is_empty (record { m = some (merge_with_loop merge_fn (second ∷ maps) []) })
          then ok nil
          else panic
    ]

    unfoldable pub filter : (K → V → Bool) → Mapper K V → Mapper K V
    filter fn mapper =
        if is_empty mapper
        then nil
        else record { m = some (assign_all (kept fn (ranged (content mapper))) []) }

    unfoldable pub map_values : (V → V) → Mapper K V → Mapper K V
    map_values fn mapper = if is_empty mapper then nil else record {
      m = some (assign_all (map (λ e. (e.0, fn e.1)) (ranged (content mapper))) []);
    }

    unfoldable pub map_keys : (K → K) → Mapper K V → Run (Mapper K V)
    map_keys fn mapper =
        let renamed = do
          result ← assign_new (map (λ e. (fn e.0, e.1)) (ranged (content mapper))) []
          ok (record { m = some result })
        in if is_empty mapper then ok nil else renamed

    unfoldable pub equal : (V → V → Bool) → Mapper K V → Mapper K V → Bool
    equal value_eq mapper other =
        if nat_beq (len mapper) (len other)
        then all_equal value_eq (ranged (content mapper)) (content other)
        else false

module _ {K V : Type 0} ⦃key : Comparable V⦄ (ranged : List (K × V) → List (K × V)) where
  unfoldable pub invert : Mapper K V → Run (Mapper V K)
  invert mapper =
      let swapped = do
        result ← assign_new (map (λ e. (e.1, e.0)) (ranged (content mapper))) []
        ok (record { m = some result })
      in if is_empty mapper then ok nil else swapped

module _ {K V S : Type 0} (ranged : List (K × V) → List (K × V)) where
  -- The callback is called for each pair that is visited, with its state.
  unfoldable pub visit_each : (K → V → S → S) → List (K × V) → S → S
  visit_each fn [] state = state
  visit_each fn (e ∷ l) state = visit_each fn l (fn e.0 e.1 state)

  unfoldable pub range : (K → V → S → S) → Mapper K V → S → S
  range fn mapper state = visit_each fn (ranged (content mapper)) state

module _ {K : Type 0} ⦃key : Comparable K⦄ where
  unfoldable pub new_bool_mapper : List K → Mapper K Bool
  new_bool_mapper [] = nil
  new_bool_mapper (k ∷ ks) = record { m = some (assign_all (map (λ k. (k, true)) (k ∷ ks)) []) }

  unfoldable pub new_int_mapper : List K → Mapper K ℕ
  new_int_mapper [] = nil
  new_int_mapper (k ∷ ks) = record { m = some (assign_all (map (λ k. (k, 0)) (k ∷ ks)) []) }

  unfoldable pub new_identity_mapper : List K → Mapper K K
  new_identity_mapper [] = nil
  new_identity_mapper (k ∷ ks) = record { m = some (assign_all (map (λ k. (k, k)) (k ∷ ks)) []) }
