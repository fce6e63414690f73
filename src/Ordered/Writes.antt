-- ===== src/Ordered/Writes.antt =====
-- `Set`, `SetFront` and `Delete` of ordred.go against a list of pairs.
use mappo.Prelude.{
  ℕ, ◌≡◌, refl, ap, sym, ◌∙◌, none, List, [], ◌∷◌, ◌++◌, arith, false, Comparable, inl, inr,
  is_some, nat_beq, nat_comparable,
}
use mathlib.Core.List.{map-append, append-nil}
use mathlib.Core.Path.{subst}
use mappo.Pairs.{lookup, count-append, count, remove, assign, count_of_lookup-none, remove_absent}
use mappo.MapOf.{MapOf}
use mappo.Run.{ok}
use mappo.ContainerList.{push_back}
use mappo.Ordered.{OrderedElement, Ordered, modify, write_value, set, delete}
use mappo.Ordered.Found.{place_new, find_lem, discard-Holds, count-entries}
use mappo.Ordered.Holds.{
  Cell, Cells, address_of, place, places, entry, entries, Holds, Models, Stored-split,
  Stored-append, Stored-ext, held-append,
}
use mappo.Ordered.Middle.{assign_absent, assign_middle}
use mappo.Ordered.Places.{modify_self, modify_other}

module _ {K V : Type 0} ⦃key : Comparable K⦄ where
  pub address_rewritten :
      (k j : K) (c c' : Cell V) (a b : Cells K V)
      → c'.address ≡ c.address
      → address_of (lookup j (a ++ (k, c') ∷ b)) ≡ address_of (lookup j (a ++ (k, c) ∷ b))
  unfolding lookup
  address_rewritten k j c c' [] b e = ground arith
  address_rewritten k j c c' (d ∷ a) b e = ground (arith, address_rewritten k j c c' a b e)

module _ {K V : Type 0} ⦃key : Comparable K⦄ {xsync : MapOf K ℕ} where
  -- A key that the pairs do not have is not in the list either.
  pub absent_count :
      (k : K) (o : Ordered xsync V) (es : List (K × V)) (m : Models o es)
      → lookup k es ≡ none
      → count k m.cells ≡ 0
  absent_count k o es m new =
      sym (count-entries k m.cells) ∙ ap (count k) m.shows ∙ count_of_lookup-none k es new

  -- A write to the value of a cell that is there.
  pub write_value-Holds :
      (o : Ordered xsync V) (a b : Cells K V) (k : K) (c : Cell V) (v : V)
      → Holds o (a ++ (k, c) ∷ b)
      → Holds (write_value c.address v o) (a ++ (k, record c { value = v }) ∷ b)
  unfolding write_value count lookup
  write_value-Holds o a b k c v h =
      let c' : Cell V = record c { value = v } in
      let (left, right) = Stored-split o.heap a ((k, c) ∷ b) h.kept.at in
      let adr = c.address in
      let write : OrderedElement K V → OrderedElement K V = λ e. record e { value = v } in
      let heap = modify adr write o.heap in
      let only = λ (i : ℕ) (e : nat_beq adr i ≡ false). modify_other adr i write o.heap e in
      let apart = λ (i : ℕ). held-append i a ((k, c) ∷ b) in
      let same : places (a ++ (k, c') ∷ b) ≡ places (a ++ (k, c) ∷ b) =
        map-append place a ((k, c') ∷ b) ∙ sym (map-append place a ((k, c) ∷ b)) in
      record {
        kept = record {
          at =
              Stored-append heap a ((k, c') ∷ b)
                (Stored-ext o.heap heap a
                  (λ i q. only i (ground (arith, h.kept.addresses adr, apart adr))) left)
                (
                  modify_self adr write o.heap ∙ ap write right.0,
                  Stored-ext o.heap heap b
                      (λ i q. only i (ground (arith, h.kept.addresses adr, apart adr))) right.1,
                );
          order = h.kept.order ∙ sym same;
          elements = λ i. rw same (h.kept.elements i);
          addresses =
              λ i. omega (arith, h.kept.addresses i, apart i, held-append i a ((k, c') ∷ b));
          once = λ j.
              omega (
                arith,
                h.kept.once j,
                count-append j a ((k, c) ∷ b),
                count-append j a ((k, c') ∷ b),
              );
        };
        maps = λ j. h.maps j ∙ sym (address_rewritten k j c c' a b refl);
      }

  pub delete-Models :
      (k : K) (o : Ordered xsync V) (es : List (K × V))
      → Models o es
      → (o' : Ordered xsync V) × (delete k o ≡ ok (is_some (lookup k es), o'))
        × Models o' (remove k es)
  unfolding delete
  delete-Models k o es m = elim (find_lem k o es m) [
    | inl (absent, new) ↦
        (o, rw (delete, absent, new) refl, subst (Models o) (sym (remove_absent k es new)) m)
    | inr p ↦
        let (o', run, holds, _) = discard-Holds o p.before p.after k p.cell p.holds in
        (
          o',
          rw (delete, p.found, p.reads, run, p.value) refl,
          record {
            cells = p.before ++ p.after;
            holds = holds;
            shows = map-append entry p.before p.after ∙ sym p.others;
          },
        )
  ]

module _ {K V : Type 0} ⦃key : Comparable K⦄ {xsync : MapOf K ℕ} (zero_key : K)
    (zero_value : V) where
  pub set-Models :
      (choice : ℕ) (k : K) (v : V) (o : Ordered xsync V) (es : List (K × V))
      → Models o es
      → Models (set zero_key zero_value choice k v o) (assign k v es)
  unfolding set
  set-Models choice k v o es m = elim (find_lem k o es m) [
    | inl (absent, new) ↦
        let cs = m.cells in
        let (c, same, holds) =
          place_new zero_key zero_value choice k v o cs [] push_back
            (rw (append-nil cs) m.holds.kept) (rw (append-nil cs) (absent_count k o es m new))
            (λ j e. rw (append-nil cs) (m.holds.maps j)) (λ adr. rw m.holds.kept.order refl) in
        rw (set, absent, assign_absent k v es new)
          (record {
            cells = cs ++ (k, c) ∷ [];
            holds = holds;
            shows = map-append entry cs ((k, c) ∷ []) ∙ rw (m.shows, same) refl;
          })
    | inr p ↦
        rw (set, p.found)
          (record {
            cells = p.before ++ (k, record p.cell { value = v }) ∷ p.after;
            holds = write_value-Holds o p.before p.after k p.cell v p.holds;
            shows =
                map-append entry p.before ((k, record p.cell { value = v }) ∷ p.after)
                ∙ sym (assign_middle k v p.cell.value (entries p.before) (entries p.after) p.once)
                ∙ ap (assign k v) p.shows;
          })
  ]
