-- ===== src/ContainerList.antt =====
-- Go's `container/list`, as ordred.go uses it: a list whose elements keep their identity while they
-- move. An element is a number, given out in order; with it stands the element's `Value`, which in
-- ordred.go is the address of an `orderedElement`. A nil `*list.Element` is `none`, and the calls
-- that read one panic. An element that is not in the list is left alone, and inserts nothing.
use mappo.Prelude.{
  ℕ, suc, Option, none, some, List, [], ◌∷◌, ◌++◌, ◌==◌, Comparable, is_some, if◌then◌else◌,
  nat_comparable,
}
use mappo.Pairs.{lookup, remove}
use mappo.Run.{Run, ok, panic}

pub record Order : Type 0 where
  pub elements : List (ℕ × ℕ)
  -- The number of the element that is allocated next.
  pub fresh : ℕ

abbrev pub new_list : Order
new_list = record { elements = []; fresh = 0 }

-- `Init`
abbrev pub init : Order → Order
init o = record o { elements = [] }

-- The element that is pushed is `o.fresh`.
abbrev pub push_back : ℕ → Order → Order
push_back a o = record { elements = o.elements ++ (o.fresh, a) ∷ []; fresh = suc o.fresh }

abbrev pub push_front : ℕ → Order → Order
push_front a o = record { elements = (o.fresh, a) ∷ o.elements; fresh = suc o.fresh }

unfoldable pub remove_element : Option ℕ → Order → Run Order
remove_element none o = panic
remove_element (some i) o = ok (record o { elements = remove i o.elements })

unfoldable pub move_to_front : Option ℕ → Order → Run Order
move_to_front none o = panic
move_to_front (some i) o = elim (lookup i o.elements) [
  | none ↦ ok o
  | some a ↦ ok (record o { elements = (i, a) ∷ remove i o.elements })
]

unfoldable pub move_to_back : Option ℕ → Order → Run Order
move_to_back none o = panic
move_to_back (some i) o = elim (lookup i o.elements) [
  | none ↦ ok o
  | some a ↦ ok (record o { elements = remove i o.elements ++ (i, a) ∷ [] })
]

module _ {ℓ} {K V : Type ℓ} ⦃key : Comparable K⦄ where
  -- The pair next to the one whose key is `mark`.
  unfoldable pub put_before : K → K × V → List (K × V) → List (K × V)
  put_before mark x [] = []
  put_before mark x (e ∷ l) = if e.0 == mark then x ∷ e ∷ l else e ∷ put_before mark x l

  unfoldable pub put_after : K → K × V → List (K × V) → List (K × V)
  put_after mark x [] = []
  put_after mark x (e ∷ l) = if e.0 == mark then e ∷ x ∷ l else e ∷ put_after mark x l

unfoldable pub insert_before : ℕ → Option ℕ → Order → Run (Option ℕ × Order)
insert_before a none o = panic
insert_before a (some mark) o =
    let elements' = put_before mark (o.fresh, a) o.elements in
    if is_some (lookup mark o.elements)
    then ok (some o.fresh, record { elements = elements'; fresh = suc o.fresh })
    else ok (none, o)

unfoldable pub insert_after : ℕ → Option ℕ → Order → Run (Option ℕ × Order)
insert_after a none o = panic
insert_after a (some mark) o =
    let elements' = put_after mark (o.fresh, a) o.elements in
    if is_some (lookup mark o.elements)
    then ok (some o.fresh, record { elements = elements'; fresh = suc o.fresh })
    else ok (none, o)
