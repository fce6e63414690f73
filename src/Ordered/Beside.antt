-- ===== src/Ordered/Beside.antt =====
-- `InsertBefore` and `InsertAfter` of ordred.go, with a key that is not the mark, against a list of
-- pairs.
use mappo.Prelude.{
  ℕ, ◌≡◌, refl, ap, sym, ◌∙◌, Option, none, some, List, [], ◌∷◌, ◌++◌, arith, false, Comparable,
  ◌==◌, inl, inr, is_some, nat_beq, nat_comparable, Option-cases,
}
use mathlib.Core.List.{map-append, append_assoc}
use mathlib.Core.Option.{some-injective}
use mathlib.Core.Path.{subst}
use mappo.Pairs.{lookup, count, remove, split_of_lookup}
use mappo.MapOf.{MapOf}
use mappo.Run.{Run, ok}
use mappo.ContainerList
use mappo.ContainerList.{put_before, put_after, Order, remove_element}
use mappo.Ordered.{
  OrderedElement, Ordered, fill, attach, get_ordered_element, insert_beside, insert_before,
  insert_after,
}
use mappo.Ordered.Found.{count-entries, find_lem, attach-Holds}
use mappo.Ordered.Holds.{
  Cell, Cells, address_of, entry, entries, Kept, Holds, Models, Stored-split, held-append,
}
use mappo.Ordered.Middle.{count_around, put_before_middle, put_after_middle}
use mappo.Ordered.Places.{acquire_lem, modify_other}
use mappo.Ordered.Removed.{remove_old_lem, Inserts, insert_before-Inserts, insert_after-Inserts}

module _ {K V : Type 0} ⦃key : Comparable K⦄ where
  -- The pairs after the key has gone next to the mark, if there is a mark.
  abbrev pub put_beside :
      (K → K × V → List (K × V) → List (K × V)) → K → K → V → List (K × V) → List (K × V)
  put_beside put k mark v es = elim (lookup mark es) [
    | none ↦ es
    | some w ↦ put mark (k, v) (remove k es)
  ]

module _ {K V : Type 0} ⦃key : Comparable K⦄ {xsync : MapOf K ℕ} (zero_key : K)
    (zero_value : V) where
  place_beside :
      (insert : ℕ → Option ℕ → Order → Run (Option ℕ × Order)) (choice : ℕ) (k : K) (v : V)
      (o : Ordered xsync V) (a b a' b' : Cells K V) (mark : K × Cell V) (m : ℕ)
      → m ≡ mark.1.address
      → Kept o (a ++ mark ∷ b)
      → a' ++ b' ≡ a ++ mark ∷ b
      → ((o' : Ordered xsync V) → Kept o' (a ++ mark ∷ b) → Inserts insert a' b' mark.1.element o')
      → count k (a' ++ b') ≡ 0
      → ((j : K) → (k == j) ≡ false → xsync.load j o.items ≡ address_of (lookup j (a' ++ b')))
      → let r = get_ordered_element zero_key zero_value choice o in
        let filled = fill r.0 k v r.1 in
        (order : Order) × (insert r.0 (filled.heap m).element filled.order
          ≡ ok (some filled.order.fresh, order))
        × (c : Cell V) × (c.value ≡ v)
        × Holds
            (attach r.0 k (some filled.order.fresh) (record filled { order = order }))
            (a' ++ (k, c) ∷ b')
  unfolding fill
  place_beside insert choice k v o a b a' b' mark m at_mark h around inserts new others =
      let r = get_ordered_element zero_key zero_value choice o in
      let q = acquire_lem zero_key zero_value choice o (a ++ mark ∷ b) h in
      let set_fields : OrderedElement K V → OrderedElement K V =
        λ e. record e { key = k; value = v } in
      let reads = (Stored-split r.1.heap a (mark ∷ b) q.kept.at).1.0 in
      let apart : nat_beq r.0 mark.1.address ≡ false =
        ground (arith, q.free, held-append r.0 a (mark ∷ b)) in
      let element =
        ap (λ (e : OrderedElement K V). e.element)
          (modify_other r.0 mark.1.address set_fields r.1.heap apart ∙ reads) in
      (
        _,
        rw (at_mark, element) (inserts r.1 q.kept r.0),
        record { address = r.0; element = r.1.order.fresh; value = v },
        refl,
        attach-Holds r.1 a' b' k v r.0 _ (rw around q.kept) new (rw around q.free) q.below refl
            (λ j e. ap (xsync.load j) q.items ∙ others j e),
      )

  -- The key goes next to the mark: `put` says how, on a list of pairs.
  beside_lem :
      (insert : ℕ → Option ℕ → Order → Run (Option ℕ × Order)) (choice : ℕ) (k mark : K) (v : V)
      (o : Ordered xsync V) (es : List (K × V)) (put : K → K × V → List (K × V) → List (K × V))
      → ((c : K × Cell V) (a b : Cells K V)
          → count c.0 a ≡ 0
          → (a' : Cells K V) × (b' : Cells K V) × (a' ++ b' ≡ a ++ c ∷ b)
            × ((o' : Ordered xsync V) → Kept o' (a ++ c ∷ b) → Inserts insert a' b' c.1.element o')
            × (put c.0 (k, v) (entries (a ++ c ∷ b)) ≡ entries a' ++ (k, v) ∷ entries b'))
      → Models o es
      → (k == mark) ≡ false
      → (o' : Ordered xsync V) × (insert_beside zero_key zero_value insert choice k mark v o
          ≡ ok (is_some (lookup mark es), o'))
        × Models o' (put_beside put k mark v es)
  unfolding insert_beside
  beside_lem insert choice k mark v o es put puts m apart = elim (find_lem mark o es m) [
    | inl (absent, new) ↦ (o, rw (insert_beside, absent, new) refl, rw (put_beside, new) m)
    | inr p ↦
        let (o₁, old, q) = remove_old_lem k o es m in
        let reach : address_of (lookup mark q.cells) ≡ some p.cell.address =
          sym (q.others mark apart) ∙ ap (xsync.load mark) q.items ∙ p.found in
        elim (Option-cases (lookup mark q.cells)) [
          | inl nothing ↦ absurd (let e : none ≡ some p.cell.address = rw nothing at reach in cc)
          | inr (mc, found) ↦
              let address : mc.address ≡ p.cell.address = some-injective _ _ (rw found at reach) in
              let (a, b, same) = split_of_lookup mark mc q.cells found in
              let kept : Kept o₁ (a ++ (mark, mc) ∷ b) = subst (Kept o₁) same q.kept in
              let (a', b', around, inserts, shown) =
                puts (mark, mc) a b (count_around mark mc a b kept.once).0 in
              let spec : put_beside put k mark v es ≡ put mark (k, v) (remove k es) =
                rw (put_beside, p.value) refl in
              let all : q.cells ≡ a' ++ b' = same ∙ sym around in
              let (order, run, c, value, holds) =
                place_beside insert choice k v o₁ a b a' b' (mark, mc) p.cell.address (sym address)
                  kept around inserts (subst (λ l. count k l ≡ 0) all q.new)
                  (λ j e. q.others j e ∙ ap (λ l. address_of (lookup j l)) all) in
              (
                _,
                rw (insert_beside, p.found, old, run, p.value) refl,
                record {
                  cells = a' ++ (k, c) ∷ b';
                  holds = holds;
                  shows =
                      map-append entry a' ((k, c) ∷ b')
                      ∙ ap (λ w. entries a' ++ (k, w) ∷ entries b') value
                      ∙ sym shown
                      ∙ ap (put mark (k, v)) (ap entries (sym same) ∙ q.shows)
                      ∙ sym spec;
                },
              )
        ]
  ]

  pub insert_before-Models :
      (choice : ℕ) (k mark : K) (v : V) (o : Ordered xsync V) (es : List (K × V))
      → Models o es
      → (k == mark) ≡ false
      → (o' : Ordered xsync V) × (insert_before zero_key zero_value choice k mark v o
          ≡ ok (is_some (lookup mark es), o'))
        × Models o' (put_beside put_before k mark v es)
  unfolding insert_before
  insert_before-Models choice k mark v o es m apart =
      beside_lem ContainerList.insert_before choice k mark v o es put_before
        (λ c a b past. (
          a,
          c ∷ b,
          refl,
          λ o' h. insert_before-Inserts o' a b c h,
          ap (put_before c.0 (k, v)) (map-append entry a (c ∷ b))
              ∙ put_before_middle c.0 c.1.value (k, v) (entries a) (entries b)
                  (count-entries c.0 a ∙ past),
        ))
        m apart

  pub insert_after-Models :
      (choice : ℕ) (k mark : K) (v : V) (o : Ordered xsync V) (es : List (K × V))
      → Models o es
      → (k == mark) ≡ false
      → (o' : Ordered xsync V) × (insert_after zero_key zero_value choice k mark v o
          ≡ ok (is_some (lookup mark es), o'))
        × Models o' (put_beside put_after k mark v es)
  unfolding insert_after
  insert_after-Models choice k mark v o es m apart =
      beside_lem ContainerList.insert_after choice k mark v o es put_after
        (λ c a b past. (
          a ++ c ∷ [],
          b,
          append_assoc a (c ∷ []) b,
          λ o' h. insert_after-Inserts o' a b c h,
          ap (put_after c.0 (k, v)) (map-append entry a (c ∷ b))
              ∙ put_after_middle c.0 c.1.value (k, v) (entries a) (entries b)
                  (count-entries c.0 a ∙ past)
              ∙ sym (append_assoc (entries a) (entry c ∷ []) ((k, v) ∷ entries b))
              ∙ ap (λ l. l ++ (k, v) ∷ entries b) (sym (map-append entry a (c ∷ []))),
        ))
        m apart
