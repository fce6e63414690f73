-- ===== src/Ordered/Removed.antt =====
-- Before ordred.go inserts a key next to another: the key's old element goes out of the list, and
-- the list takes a new element next to the mark's.
use mappo.Prelude.{
  ℕ, suc, ◌≡◌, refl, ap, sym, ◌∙◌, Option, some, List, [], ◌∷◌, ◌++◌, arith, false, Comparable,
  ◌==◌, inl, inr, nat_comparable,
}
use mathlib.Core.List.{map-append, append_assoc}
use mappo.Pairs.{lookup, count, remove, count-append, remove_absent}
use mappo.MapOf.{MapOf}
use mappo.Run.{Run, ok}
use mappo.ContainerList
use mappo.ContainerList.{put_before, put_after, Order, remove_element}
use mappo.Ordered.{Ordered, put_ordered_element, remove_old}
use mappo.Ordered.Found.{find_lem, put_lem}
use mappo.Ordered.Holds.{Cell, Cells, address_of, place, places, entry, entries, Kept, Models}
use mappo.Ordered.Middle.{count_around, lookup_removed, put_before_middle, put_after_middle}
use mappo.Ordered.Moves.{list_lem}
use mappo.Ordered.Places.{Kept-remove}
use mappo.Ordered.Writes.{absent_count}

module _ {K V : Type 0} ⦃key : Comparable K⦄ {xsync : MapOf K ℕ} where
  -- The list without the key, whose old element `items` may still lead to.
  pub record Removed (k : K) (o o' : Ordered xsync V) (es : List (K × V)) : Type 0 where
    pub cells : Cells K V
    pub kept : Kept o' cells
    pub new : count k cells ≡ 0
    pub others : (j : K) → (k == j) ≡ false → xsync.load j o'.items ≡ address_of (lookup j cells)
    pub items : o'.items ≡ o.items
    pub shows : entries cells ≡ remove k es

  pub remove_old_lem :
      (k : K) (o : Ordered xsync V) (es : List (K × V))
      → Models o es
      → (o' : Ordered xsync V) × (remove_old k o ≡ ok o') × Removed k o o' es
  unfolding remove_old remove_element
  remove_old_lem k o es m = elim (find_lem k o es m) [
    | inl (absent, new) ↦ (
      o,
      rw (remove_old, absent) refl,
      record {
        cells = m.cells;
        kept = m.holds.kept;
        new = absent_count k o es m new;
        others = λ j e. m.holds.maps j;
        items = refl;
        shows = m.shows ∙ sym (remove_absent k es new);
      },
    )
    | inr p ↦
        let c = p.cell in
        let removed = record o {
          order = record o.order { elements = remove c.element o.order.elements };
        } in
        let (items, _) = put_lem c.address 0 removed in
        let (none_before, none_after) = count_around k c p.before p.after p.holds.kept.once in
        (
          put_ordered_element c.address removed,
          rw (remove_old, p.found, p.reads) refl,
          record {
            cells = p.before ++ p.after;
            kept = Kept-remove o o.items p.before p.after (k, c) p.holds.kept;
            new = omega (arith, count-append k p.before p.after, none_before, none_after);
            others = λ j e.
                ap (xsync.load j) items
                ∙ ground (
                  arith,
                  p.holds.maps j,
                  lookup_removed k j c p.before p.after p.holds.kept.once,
                );
            items = items;
            shows = map-append entry p.before p.after ∙ sym p.others;
          },
        )
  ]

  -- What a list's `InsertBefore` or `InsertAfter` does next to a cell.
  abbrev pub Inserts :
      (ℕ → Option ℕ → Order → Run (Option ℕ × Order))
      → Cells K V
      → Cells K V
      → ℕ
      → Ordered xsync V
      → Type 0
  Inserts insert a b mark o =
      (adr : ℕ)
      → insert adr (some mark) o.order
        ≡ ok (
          some o.order.fresh,
          record {
            elements = places a ++ (o.order.fresh, adr) ∷ places b;
            fresh = suc o.order.fresh;
          },
        )

  pub insert_before-Inserts :
      (o : Ordered xsync V) (a b : Cells K V) (c : K × Cell V)
      → Kept o (a ++ c ∷ b)
      → Inserts ContainerList.insert_before a (c ∷ b) c.1.element o
  unfolding ContainerList.insert_before
  insert_before-Inserts o a b c h adr =
      let (found, _, same, past) = list_lem o a b c h in
      rw
        (
          ContainerList.insert_before,
          found,
          same,
          put_before_middle c.1.element c.1.address (o.order.fresh, adr) (places a) (places b) past,
        )
        refl

  pub insert_after-Inserts :
      (o : Ordered xsync V) (a b : Cells K V) (c : K × Cell V)
      → Kept o (a ++ c ∷ b)
      → Inserts ContainerList.insert_after (a ++ c ∷ []) b c.1.element o
  unfolding ContainerList.insert_after
  insert_after-Inserts o a b c h adr =
      let (found, _, same, past) = list_lem o a b c h in
      rw
        (
          ContainerList.insert_after,
          found,
          same,
          put_after_middle c.1.element c.1.address (o.order.fresh, adr) (places a) (places b) past,
          map-append place a (c ∷ []),
          append_assoc (places a) (place c ∷ []) ((o.order.fresh, adr) ∷ places b),
        )
        refl
