-- ===== src/Ordered/Moves.antt =====
-- `MoveToFront`, `MoveToBack` and `SetFront` of ordred.go against a list of pairs.
use mappo.Prelude.{
  ℕ, ◌≡◌, refl, ap, sym, ◌∙◌, none, some, List, [], ◌∷◌, ◌++◌, arith, Comparable, inl, inr, is_some,
  nat_comparable,
}
use mathlib.Core.List.{map-append, append-nil}
use mappo.Pairs.{
  lookup, count, Once, remove, count-append, remove_middle, lookup_middle, remove_absent,
}
use mappo.MapOf.{MapOf}
use mappo.Run.{ok}
use mappo.ContainerList.{push_front, Order}
use mappo.ContainerList
use mappo.Ordered.{Ordered, set_front, move_to_front, move_to_back, write_value}
use mappo.Ordered.Found.{place_new, find_lem}
use mappo.Ordered.Holds.{
  Cell, Cells, address_of, held, place, places, entry, Kept, Holds, Models, Stored-split,
  Stored-append, held-append,
}
use mappo.Ordered.Middle.{lookup_inserted, count_around}
use mappo.Ordered.Places.{count-places}
use mappo.Ordered.Writes.{write_value-Holds, absent_count}

module _ {K V : Type 0} ⦃key : Comparable K⦄ where
  -- The pairs after the one of the key has gone to the front, or to the back.
  abbrev pub raised : K → List (K × V) → List (K × V)
  raised k es = elim (lookup k es) [ none ↦ es | some v ↦ (k, v) ∷ remove k es ]

  abbrev pub lowered : K → List (K × V) → List (K × V)
  lowered k es = elim (lookup k es) [ none ↦ es | some v ↦ remove k es ++ (k, v) ∷ [] ]

module _ {K V : Type 0} ⦃key : Comparable K⦄ {xsync : MapOf K ℕ} where
  -- A cell may stand anywhere else among the others.
  moved-Holds :
      (o : Ordered xsync V) (a b a' b' : Cells K V) (k : K) (c : Cell V) (elements : List (ℕ × ℕ))
      → Holds o (a ++ (k, c) ∷ b)
      → a' ++ b' ≡ a ++ b
      → elements ≡ places a' ++ (c.element, c.address) ∷ places b'
      → Holds (record o { order = record o.order { elements = elements } }) (a' ++ (k, c) ∷ b')
  unfolding count
  moved-Holds o a b a' b' k c elements h around same =
      let (left, right) = Stored-split o.heap a ((k, c) ∷ b) h.kept.at in
      let (left', right') =
        Stored-split o.heap a' b' (rw around (Stored-append o.heap a b left right.1)) in
      let held_same = λ (i : ℕ). ap (held i) around in
      let once : Once (a' ++ (k, c) ∷ b') = λ j. omega (
        arith,
        h.kept.once j,
        count-append j a ((k, c) ∷ b),
        count-append j a' ((k, c) ∷ b'),
        count-append j a b,
        count-append j a' b',
        ap (count j) around,
      ) in
      record {
        kept = record {
          at = Stored-append o.heap a' ((k, c) ∷ b') left' (right.0, right');
          order = same ∙ sym (map-append place a' ((k, c) ∷ b'));
          elements = λ i. omega (
            arith,
            h.kept.elements i,
            count-places i a ((k, c) ∷ b),
            count-places i a' ((k, c) ∷ b'),
            count-places i a b,
            count-places i a' b',
            ap (λ l. count i (places l)) around,
          );
          addresses = λ i. omega (
            arith,
            h.kept.addresses i,
            held-append i a ((k, c) ∷ b),
            held-append i a' ((k, c) ∷ b'),
            held-append i a b,
            held-append i a' b',
            held_same i,
          );
          once = once;
        };
        maps = λ j.
            h.maps j
            ∙ ap address_of (
                lookup_inserted k j c a b h.kept.once
                ∙ sym (lookup_inserted k j c a' b' once ∙ rw around refl));
      }

  -- Where the list has the cell, and what it is without it.
  pub list_lem :
      (o : Ordered xsync V) (a b : Cells K V) (c : K × Cell V)
      → Kept o (a ++ c ∷ b)
      → (lookup c.1.element o.order.elements ≡ some c.1.address)
        × (remove c.1.element o.order.elements ≡ places (a ++ b))
        × (o.order.elements ≡ places a ++ place c ∷ places b)
        × (count c.1.element (places a) ≡ 0)
  list_lem o a b c h =
      let order = h.order ∙ map-append place a (c ∷ b) in
      let middle : Once (places a ++ place c ∷ places b) =
        λ i. ground (arith, h.elements i, ap (count i) (map-append place a (c ∷ b))) in
      (
        ap (lookup c.1.element) order
            ∙ lookup_middle c.1.element c.1.address (places a) (places b) middle,
        ap (remove c.1.element) order
            ∙ remove_middle c.1.element c.1.address (places a) (places b) middle
            ∙ sym (map-append place a b),
        order,
        (count_around c.1.element c.1.address (places a) (places b) middle).0,
      )

  raise_lem :
      (o : Ordered xsync V) (a b : Cells K V) (k : K) (c : Cell V)
      → Holds o (a ++ (k, c) ∷ b)
      → (order : Order) × (ContainerList.move_to_front (some c.element) o.order ≡ ok order)
        × Holds (record o { order = order }) ((k, c) ∷ a ++ b)
  unfolding ContainerList.move_to_front
  raise_lem o a b k c h =
      let (found, rest, _, _) = list_lem o a b (k, c) h.kept in
      (
        record o.order { elements = (c.element, c.address) ∷ remove c.element o.order.elements },
        rw (ContainerList.move_to_front, found) refl,
        moved-Holds o a b [] (a ++ b) k c _ h refl (rw rest refl),
      )

  lower_lem :
      (o : Ordered xsync V) (a b : Cells K V) (k : K) (c : Cell V)
      → Holds o (a ++ (k, c) ∷ b)
      → (order : Order) × (ContainerList.move_to_back (some c.element) o.order ≡ ok order)
        × Holds (record o { order = order }) ((a ++ b) ++ (k, c) ∷ [])
  unfolding ContainerList.move_to_back
  lower_lem o a b k c h =
      let (found, rest, _, _) = list_lem o a b (k, c) h.kept in
      (
        record o.order {
          elements = remove c.element o.order.elements ++ (c.element, c.address) ∷ [];
        },
        rw (ContainerList.move_to_back, found) refl,
        moved-Holds o a b (a ++ b) [] k c _ h (append-nil (a ++ b)) (rw rest refl),
      )

  pub move_to_front-Models :
      (k : K) (o : Ordered xsync V) (es : List (K × V))
      → Models o es
      → (o' : Ordered xsync V) × (move_to_front k o ≡ ok (is_some (lookup k es), o'))
        × Models o' (raised k es)
  unfolding move_to_front
  move_to_front-Models k o es m = elim (find_lem k o es m) [
    | inl (absent, new) ↦ (o, rw (move_to_front, absent, new) refl, rw (raised, new) m)
    | inr p ↦
        let (order, run, holds) = raise_lem o p.before p.after k p.cell p.holds in
        (
          record o { order = order },
          rw (move_to_front, p.found, p.reads, run, p.value) refl,
          record {
            cells = (k, p.cell) ∷ p.before ++ p.after;
            holds = holds;
            shows = rw (raised, p.value, map-append entry p.before p.after, p.others) refl;
          },
        )
  ]

  pub move_to_back-Models :
      (k : K) (o : Ordered xsync V) (es : List (K × V))
      → Models o es
      → (o' : Ordered xsync V) × (move_to_back k o ≡ ok (is_some (lookup k es), o'))
        × Models o' (lowered k es)
  unfolding move_to_back
  move_to_back-Models k o es m = elim (find_lem k o es m) [
    | inl (absent, new) ↦ (o, rw (move_to_back, absent, new) refl, rw (lowered, new) m)
    | inr p ↦
        let (order, run, holds) = lower_lem o p.before p.after k p.cell p.holds in
        let rest = p.before ++ p.after in
        (
          record o { order = order },
          rw (move_to_back, p.found, p.reads, run, p.value) refl,
          record {
            cells = rest ++ (k, p.cell) ∷ [];
            holds = holds;
            shows =
                map-append entry rest ((k, p.cell) ∷ [])
                ∙ rw (lowered, p.value, map-append entry p.before p.after, p.others) refl;
          },
        )
  ]

module _ {K V : Type 0} ⦃key : Comparable K⦄ {xsync : MapOf K ℕ} (zero_key : K)
    (zero_value : V) where
  pub set_front-Models :
      (choice : ℕ) (k : K) (v : V) (o : Ordered xsync V) (es : List (K × V))
      → Models o es
      → (o' : Ordered xsync V) × (set_front zero_key zero_value choice k v o ≡ ok o')
        × Models o' ((k, v) ∷ remove k es)
  unfolding set_front
  set_front-Models choice k v o es m = elim (find_lem k o es m) [
    | inl (absent, new) ↦
        let cs = m.cells in
        let (c, same, holds) =
          place_new zero_key zero_value choice k v o [] cs push_front m.holds.kept
            (absent_count k o es m new) (λ j e. m.holds.maps j)
            (λ adr. rw m.holds.kept.order refl) in
        (
          _,
          rw (set_front, absent) refl,
          record {
            cells = (k, c) ∷ cs;
            holds = holds;
            shows = rw (m.shows, same, remove_absent k es new) refl;
          },
        )
    | inr p ↦
        let (order, run, holds) = raise_lem o p.before p.after k p.cell p.holds in
        (
          write_value p.cell.address v (record o { order = order }),
          rw (set_front, p.found, p.reads, run) refl,
          record {
            cells = (k, record p.cell { value = v }) ∷ p.before ++ p.after;
            holds =
                write_value-Holds (record o { order = order }) [] (p.before ++ p.after) k p.cell v
                  holds;
            shows = rw (map-append entry p.before p.after, p.others) refl;
          },
        )
  ]
