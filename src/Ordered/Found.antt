-- ===== src/Ordered/Found.antt =====
-- What the methods of ordred.go do once they know where a key is: find, attach and discard.
use mappo.Prelude.{
  ℕ, suc, ◌+◌, ◌<◌, ◌≡◌, refl, ap, sym, ◌∙◌, none, some, List, [], ◌∷◌, ◌++◌, arith, false,
  Comparable, ◌==◌, inl, inr, ◌⊎◌, Option-cases, Bool-cases, nat_beq_iff, nat_comparable,
}
use mathlib.Core.List.{map-append}
use mathlib.Core.Path.{subst}
use mappo.Pairs.{lookup_middle, remove_middle, uses, lookup, count, Once, remove, split_of_lookup}
use mappo.MapOf.{MapOf}
use mappo.Run.{ok}
use mappo.ContainerList.{Order, remove_element}
use mappo.Ordered.{
  OrderedElement, Ordered, modify, fill, attach, discard, put_ordered_element, get_ordered_element,
}
use mappo.Ordered.Holds.{
  Cell, Cells, address_of, held, places, entry, entries, stored, Kept, Holds, Models, Stored-split,
}
use mappo.Ordered.Middle.{lookup_inserted, lookup_removed, Once-insert}
use mappo.Ordered.Whole.{shown}
use mappo.Ordered.Places.{acquire_lem, Kept-insert, Kept-remove, modify_self, modify_other}

module _ {K V : Type 0} ⦃key : Comparable K⦄ where
  pub count-entries : (k : K) (cs : Cells K V) → count k (entries cs) ≡ count k cs
  unfolding count
  count-entries k [] = refl
  count-entries k (c ∷ cs) = omega (arith, count-entries k cs)

  pub lookup-entries_absent :
      (k : K) (cs : Cells K V) → lookup k cs ≡ none → lookup k (entries cs) ≡ none
  unfolding lookup
  lookup-entries_absent k [] e = refl
  lookup-entries_absent k (c ∷ cs) e = ground (arith, lookup-entries_absent k cs)

  pub entries-Once : (cs : Cells K V) → Once cs → Once (entries cs)
  entries-Once cs h = λ k. omega (arith, h k, count-entries k cs)

module _ {K V : Type 0} ⦃key : Comparable K⦄ {xsync : MapOf K ℕ} where
  -- What there is of a key in a map that stands for `es`.
  pub record Present (k : K) (o : Ordered xsync V) (es : List (K × V)) : Type 0 where
    pub cell : Cell V
    pub before : Cells K V
    pub after : Cells K V
    pub holds : Holds o (before ++ (k, cell) ∷ after)
    pub shows : entries before ++ (k, cell.value) ∷ entries after ≡ es
    pub found : xsync.load k o.items ≡ some cell.address
    pub reads : o.heap cell.address ≡ stored (k, cell)
    pub value : lookup k es ≡ some cell.value
    pub others : remove k es ≡ entries before ++ entries after
    pub once : Once (entries before ++ (k, cell.value) ∷ entries after)

  pub find_lem :
      (k : K) (o : Ordered xsync V) (es : List (K × V))
      → Models o es
      → ((xsync.load k o.items ≡ none) × (lookup k es ≡ none)) ⊎ Present k o es
  find_lem k o es m = elim (Option-cases (lookup k m.cells)) [
    | inl nothing ↦ inl (
      m.holds.maps k ∙ ap address_of nothing,
      ap (lookup k) (sym m.shows) ∙ lookup-entries_absent k m.cells nothing,
    )
    | inr (c, found) ↦
        let (a, b, same) = split_of_lookup k c m.cells found in
        let held : Holds o (a ++ (k, c) ∷ b) = subst (Holds o) same m.holds in
        let shows = sym (map-append entry a ((k, c) ∷ b)) ∙ ap entries (sym same) ∙ m.shows in
        let once : Once (entries a ++ (k, c.value) ∷ entries b) =
          subst Once (map-append entry a ((k, c) ∷ b))
            (entries-Once (a ++ (k, c) ∷ b) held.kept.once) in
        inr (record {
          cell = c;
          before = a;
          after = b;
          holds = held;
          shows = shows;
          value = ap (lookup k) (sym shows) ∙ lookup_middle k c.value (entries a) (entries b) once;
          others = ap (remove k) (sym shows) ∙ remove_middle k c.value (entries a) (entries b) once;
          once = once;
          found = m.holds.maps k ∙ ap address_of found;
          reads = (Stored-split o.heap a ((k, c) ∷ b) held.kept.at).1.0;
        })
  ]

  -- A new element that stands between `a` and `b`, filled, attached and stored under its key.
  pub attach-Holds :
      (o : Ordered xsync V) (a b : Cells K V) (k : K) (v : V) (adr : ℕ) (order : Order)
      → Kept o (a ++ b)
      → count k (a ++ b) ≡ 0
      → held adr (a ++ b) + uses adr o.pool ≡ 0
      → adr < o.allocated
      → order ≡ record {
        elements = places a ++ (o.order.fresh, adr) ∷ places b;
        fresh = suc o.order.fresh;
      }
      → ((j : K) → (k == j) ≡ false → xsync.load j o.items ≡ address_of (lookup j (a ++ b)))
      → Holds
          (attach adr k (some o.order.fresh) (record (fill adr k v o) { order = order }))
          (a ++ (k, record { address = adr; element = o.order.fresh; value = v }) ∷ b)
  unfolding attach fill
  attach-Holds o a b k v adr order h new free below same others =
      let set_fields : OrderedElement K V → OrderedElement K V =
        λ e. record e { key = k; value = v } in
      let set_element : OrderedElement K V → OrderedElement K V =
        λ e. record e { element = some o.order.fresh } in
      let heap = modify adr set_fields o.heap in
      let c : Cell V = record { address = adr; element = o.order.fresh; value = v } in
      let here =
        modify_self adr set_element heap ∙ ap set_element (modify_self adr set_fields o.heap) in
      rw same (record {
        kept =
            Kept-insert o (xsync.store k adr o.items) (modify adr set_element heap) a b k v adr h
              new free below here
              (λ i e.
                modify_other adr i set_element heap e ∙ modify_other adr i set_fields o.heap e);
        maps = λ j. ground (
          arith,
          xsync.load-store k j adr o.items,
          others j,
          lookup_inserted k j c a b (Once-insert k c a b h.once new),
        );
      })

  -- Putting an element back clears its `element` and nothing else that is read.
  pub put_lem :
      (a i : ℕ) (o : Ordered xsync V)
      → ((put_ordered_element a o).items ≡ o.items)
        × (shown ((put_ordered_element a o).heap i) ≡ shown (o.heap i))
  unfolding put_ordered_element modify
  put_lem a i o = elim (Bool-cases o.pooled) [
    | inl pooled ↦ rw pooled (refl, ground (arith, nat_beq_iff a i))
    | inr plain ↦ rw plain (refl, refl)
  ]

  pub discard-Holds :
      (o : Ordered xsync V) (a b : Cells K V) (k : K) (c : Cell V)
      → Holds o (a ++ (k, c) ∷ b)
      → (o' : Ordered xsync V) × (discard (some c.element) k c.address o ≡ ok o')
        × Holds o' (a ++ b)
        × (shown (o'.heap c.address) ≡ (k, c.value))
  unfolding discard remove_element
  discard-Holds o a b k c h =
      let removed = record o {
        items = xsync.delete k o.items;
        order = record o.order { elements = remove c.element o.order.elements };
      } in
      let (items, reads) = put_lem c.address c.address removed in
      (
        put_ordered_element c.address removed,
        refl,
        record {
          kept = Kept-remove o (xsync.delete k o.items) a b (k, c) h.kept;
          maps = λ j.
              ap (xsync.load j) items
              ∙ ground (
                arith,
                xsync.load-delete k j o.items,
                h.maps j,
                lookup_removed k j c a b h.kept.once,
              );
        },
        reads ∙ ap shown (Stored-split o.heap a ((k, c) ∷ b) h.kept.at).1.0,
      )

module _ {K V : Type 0} ⦃key : Comparable K⦄ {xsync : MapOf K ℕ} (zero_key : K)
    (zero_value : V) where
  -- An element for a key that the list does not have, wherever `insert` puts it.
  pub place_new :
      (choice : ℕ) (k : K) (v : V) (o : Ordered xsync V) (a b : Cells K V)
      (insert : ℕ → Order → Order)
      → Kept o (a ++ b)
      → count k (a ++ b) ≡ 0
      → ((j : K) → (k == j) ≡ false → xsync.load j o.items ≡ address_of (lookup j (a ++ b)))
      → ((adr : ℕ)
          → insert adr o.order ≡ record {
            elements = places a ++ (o.order.fresh, adr) ∷ places b;
            fresh = suc o.order.fresh;
          })
      → let r = get_ordered_element zero_key zero_value choice o in
        let filled = fill r.0 k v r.1 in
        (c : Cell V) × (c.value ≡ v)
        × Holds
            (attach r.0 k
              (some filled.order.fresh)
              (record filled { order = insert r.0 filled.order }))
            (a ++ (k, c) ∷ b)
  unfolding fill
  place_new choice k v o a b insert h new others inserts =
      let r = get_ordered_element zero_key zero_value choice o in
      let q = acquire_lem zero_key zero_value choice o (a ++ b) h in
      (
        record { address = r.0; element = r.1.order.fresh; value = v },
        refl,
        attach-Holds r.1 a b k v r.0 (insert r.0 r.1.order) q.kept new q.free q.below
            (rw q.order (inserts r.0)) (λ j e. ap (xsync.load j) q.items ∙ others j e),
      )
