-- ===== src/Ordered/Exchange.antt =====
-- Two cells of ordred.go's list that exchange their keys and values.
use mappo.Prelude.{
  ℕ, ◌+◌, ◌<◌, ◌≡◌, ap, sym, ◌∙◌, some, List, ◌∷◌, ◌++◌, map, arith, false, if◌then◌else◌, nat_beq,
  nat_beq_iff, nat_comparable, Comparable, eq_iff, ◌==◌, inl, inr, Bool-cases,
}
use mathlib.Core.List.{map-append, append_assoc}
use mathlib.Core.Path.{subst}
use mappo.Pairs.{to_nat, lookup, count, Once, count-append, Once-middle}
use mappo.MapOf.{MapOf}
use mappo.Ordered.{OrderedElement, Ordered, modify}
use mappo.Ordered.Holds.{
  Cell, Cells, held, place, places, stored, Stored, Holds, Models, Stored-split, Stored-append,
  Stored-ext, held-append,
}
use mappo.Ordered.Middle.{lookup_inserted}
use mappo.Ordered.Places.{modify_self, modify_other}
use mappo.Ordered.Whole.{exchange}

module _ {ℓ} {K W : Type ℓ} ⦃key : Comparable K⦄ where
  -- Two pairs of the middle, as a lookup sees them.
  lookup_two :
      (k k' j : K) (w w' : W) (a b d : List (K × W))
      → Once (a ++ (k, w) ∷ (b ++ (k', w') ∷ d))
      → lookup j (a ++ (k, w) ∷ (b ++ (k', w') ∷ d))
        ≡ (if k == j then some w else if k' == j then some w' else lookup j ((a ++ b) ++ d))
  lookup_two k k' j w w' a b d h =
      let assoc = append_assoc a b ((k', w') ∷ d) in
      let once : Once ((a ++ b) ++ (k', w') ∷ d) =
        subst Once (sym assoc) (Once-middle k w a (b ++ (k', w') ∷ d) h) in
      lookup_inserted k j w a (b ++ (k', w') ∷ d) h
      ∙ ap (λ o. if k == j then some w else o)
          (ap (lookup j) (sym assoc) ∙ lookup_inserted k' j w' (a ++ b) d once)

  pub count_two :
      (k k' j : K) (w w' : W) (a b d : List (K × W))
      → count j (a ++ (k, w) ∷ (b ++ (k', w') ∷ d))
        ≡ count j a + to_nat (k == j) + count j b + to_nat (k' == j) + count j d
  unfolding count
  count_two k k' j w w' a b d =
      omega
        (arith, count-append j a ((k, w) ∷ (b ++ (k', w') ∷ d)), count-append j b ((k', w') ∷ d))

module _ {K V : Type 0} where
  pub held_two :
      (i : ℕ) (c c' : K × Cell V) (a b d : Cells K V)
      → held i (a ++ c ∷ (b ++ c' ∷ d))
        ≡ held i a
          + to_nat (nat_beq c.1.address i)
          + held i b
          + to_nat (nat_beq c'.1.address i)
          + held i d
  held_two i c c' a b d =
      omega (arith, held-append i a (c ∷ (b ++ c' ∷ d)), held-append i b (c' ∷ d))

  pub map_two :
      {B : Type 0} (f : K × Cell V → B) (c c' : K × Cell V) (a b d : Cells K V)
      → map f (a ++ c ∷ (b ++ c' ∷ d)) ≡ map f a ++ f c ∷ (map f b ++ f c' ∷ map f d)
  map_two f c c' a b d =
      map-append f a (c ∷ (b ++ c' ∷ d)) ∙ ap (λ l. map f a ++ f c ∷ l) (map-append f b (c' ∷ d))

  pub Stored_two :
      (heap : ℕ → OrderedElement K V) (c c' : K × Cell V) (a b d : Cells K V)
      → Stored heap (a ++ c ∷ (b ++ c' ∷ d))
      → Stored heap a
        × ((heap c.1.address ≡ stored c)
            × (Stored heap b × ((heap c'.1.address ≡ stored c') × Stored heap d)))
  Stored_two heap c c' a b d s =
      let (left, right) = Stored-split heap a (c ∷ (b ++ c' ∷ d)) s in
      let (middle, last) = Stored-split heap b (c' ∷ d) right.1 in (left, (right.0, (middle, last)))

module _ {K V : Type 0} ⦃key : Comparable K⦄ {xsync : MapOf K ℕ} where
  -- Two elements exchange their keys and values, and `items` follows.
  pub exchanged-Holds :
      (o : Ordered xsync V) (heap : ℕ → OrderedElement K V) (items : xsync.Map) (k k' : K)
      (c c' : Cell V) (a b d : Cells K V)
      → Holds o (a ++ (k, c) ∷ (b ++ (k', c') ∷ d))
      → heap c.address ≡ stored (k', record c { value = c'.value })
      → heap c'.address ≡ stored (k, record c' { value = c.value })
      → ((i : ℕ) → nat_beq c.address i ≡ false → nat_beq c'.address i ≡ false → heap i ≡ o.heap i)
      → ((j : K)
          → xsync.load j items ≡ (
              if k == j
              then some c'.address
              else if k' == j
              then some c.address
              else xsync.load j o.items))
      → Holds
          (record o { heap = heap; items = items })
          (a ++ (k', record c { value = c'.value }) ∷ (b ++ (k, record c' { value = c.value }) ∷ d))
  exchanged-Holds o heap items k k' c c' a b d h at at' rest maps =
      let old = a ++ (k, c) ∷ (b ++ (k', c') ∷ d) in
      let e : K × Cell V = (k', record c { value = c'.value }) in
      let e' : K × Cell V = (k, record c' { value = c.value }) in
      let (left, (_, (middle, (_, right)))) = Stored_two o.heap (k, c) (k', c') a b d h.kept.at in
      let apart = λ (i : ℕ) (q : 0 < held i a + held i b + held i d).
        rest i (ground (arith, h.kept.addresses i, held_two i (k, c) (k', c') a b d))
          (ground (arith, h.kept.addresses i, held_two i (k, c) (k', c') a b d)) in
      let same : places (a ++ e ∷ (b ++ e' ∷ d)) ≡ places old =
        map_two place e e' a b d ∙ sym (map_two place (k, c) (k', c') a b d) in
      let once : Once (a ++ e ∷ (b ++ e' ∷ d)) = λ j.
        omega
          (arith, h.kept.once j, count_two k k' j c c' a b d, count_two k' k j e.1 e'.1 a b d) in
      record {
        kept = record {
          at =
              Stored-append heap a (e ∷ (b ++ e' ∷ d))
                (Stored-ext o.heap heap a (λ i q. apart i (omega arith)) left)
                (
                  at,
                  Stored-append heap b (e' ∷ d)
                      (Stored-ext o.heap heap b (λ i q. apart i (omega arith)) middle)
                      (at', Stored-ext o.heap heap d (λ i q. apart i (omega arith)) right),
                );
          order = h.kept.order ∙ sym same;
          elements = λ i. rw same (h.kept.elements i);
          addresses = λ i.
              omega (
                arith,
                h.kept.addresses i,
                held_two i (k, c) (k', c') a b d,
                held_two i e e' a b d,
              );
          once = once;
        };
        maps = λ j. ground (
          arith,
          maps j,
          h.maps j,
          lookup_two k k' j c c' a b d h.kept.once,
          lookup_two k' k j e.1 e'.1 a b d once,
          h.kept.once j,
          count_two k k' j c c' a b d,
        );
      }

module _ {K V : Type 0} ⦃key : Comparable K⦄ {xsync : MapOf K ℕ} where
  -- An element exchanged with itself stays as it is.
  pub exchange_self : (a i : ℕ) (o : Ordered xsync V) → (exchange a a o).heap i ≡ o.heap i
  unfolding exchange modify
  exchange_self a i o = elim (Bool-cases (nat_beq a i)) [
    | inl here ↦ subst (λ i. (exchange a a o).heap i ≡ o.heap i) ((nat_beq_iff a i).0 here) at
    | inr away ↦
        modify_other a i write (modify a write o.heap) away ∙ modify_other a i write o.heap away
  ]
    where
      write : OrderedElement K V → OrderedElement K V
      write e = record e { key = (o.heap a).key; value = (o.heap a).value }

      at : modify a write (modify a write o.heap) a ≡ o.heap a
      at = modify_self a write (modify a write o.heap) ∙ ap write (modify_self a write o.heap)

  pub exchange_self-Models :
      (a : ℕ) (o : Ordered xsync V) (es : List (K × V))
      → Models o es
      → xsync.load (o.heap a).key o.items ≡ some a
      → Models (exchange a a o) es
  unfolding exchange
  exchange_self-Models a o es m found =
      let kept = m.holds.kept in
      record {
        cells = m.cells;
        holds = record {
          kept = record {
            at = Stored-ext o.heap _ m.cells (λ n q. exchange_self a n o) kept.at;
            order = kept.order;
            elements = kept.elements;
            addresses = kept.addresses;
            once = kept.once;
          };
          maps = λ j.
              ap
                (λ (e : OrderedElement K V).
                  xsync.load j (xsync.store e.key a (xsync.store e.key a o.items)))
                (exchange_self a a o)
              ∙ ground (
                arith,
                found,
                eq_iff (o.heap a).key j,
                xsync.load-store (o.heap a).key j a (xsync.store (o.heap a).key a o.items),
                xsync.load-store (o.heap a).key j a o.items,
              )
              ∙ m.holds.maps j;
        };
        shows = m.shows;
      }

  -- What `exchange` makes of elements that held `a` and `b`.
  abbrev pub Exchanged : ℕ → ℕ → Ordered xsync V → OrderedElement K V → OrderedElement K V → Type 0
  Exchanged oi oj o a b =
      ((exchange oi oj o).heap oi ≡ record { key = b.key; value = b.value; element = a.element })
      × ((exchange oi oj o).heap oj ≡ record { key = a.key; value = a.value; element = b.element })
      × ((i : ℕ)
          → nat_beq oi i ≡ false
          → nat_beq oj i ≡ false
          → (exchange oi oj o).heap i ≡ o.heap i)
      × ((j : K)
          → xsync.load j (exchange oi oj o).items ≡ (
              if a.key == j then some oj else if b.key == j then some oi else xsync.load j o.items))

  pub exchange_lem :
      (oi oj : ℕ) (o : Ordered xsync V)
      → nat_beq oi oj ≡ false
      → Exchanged oi oj o (o.heap oi) (o.heap oj)
  unfolding exchange modify
  exchange_lem oi oj o apart =
      let a = o.heap oi in
      let b = o.heap oj in
      let wi : OrderedElement K V → OrderedElement K V =
        λ e. record e { key = b.key; value = b.value } in
      let wj : OrderedElement K V → OrderedElement K V =
        λ e. record e { key = a.key; value = a.value } in
      let heap_i = modify oi wi o.heap in
      let heap = modify oj wj heap_i in
      let at_i : heap oi ≡ wi a =
        modify_other oj oi wj heap_i (ground arith) ∙ modify_self oi wi o.heap in
      let at_j : heap oj ≡ wj b =
        modify_self oj wj heap_i ∙ ap wj (modify_other oi oj wi o.heap apart) in
      (
        at_i,
        at_j,
        λ i e e'. modify_other oj i wj heap_i e' ∙ modify_other oi i wi o.heap e,
        λ j.
            ap
              (λ (e : OrderedElement K V).
                xsync.load j (xsync.store e.key oj (xsync.store (heap oi).key oi o.items)))
              at_j
            ∙ ap
                (λ (e : OrderedElement K V).
                  xsync.load j (xsync.store a.key oj (xsync.store e.key oi o.items)))
                at_i
            ∙ ground (
              arith,
              xsync.load-store a.key j oj (xsync.store b.key oi o.items),
              xsync.load-store b.key j oi o.items,
            ),
      )
