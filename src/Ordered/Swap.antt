-- ===== src/Ordered/Swap.antt =====
-- `Swap` of ordred.go against a list of pairs.
use mappo.Prelude.{
  lt-cases, ℕ, ◌^◌, ◌+◌, ◌<◌, ◌≡◌, refl, ap, sym, ◌∙◌, none, some, List, ◌∷◌, ◌++◌, arith, true,
  false, nat_beq, nat_comparable, ltb, Comparable, eq_iff, eq_refl, ◌==◌, inl, inr, length,
  length-append, length-map, ◌-◌, ◌&&◌,
}
use mathlib.Core.List.{map-append, append_assoc}
use mathlib.Core.Path.{subst}
use mappo.Pairs.{lookup_middle}
use mappo.MapOf.{MapOf}
use mappo.Ordered.{OrderedElement, Ordered}
use mappo.Ordered.Holds.{
  Cell, Cells, address_of, place, places, entry, entries, stored, Holds, Models,
}
use mappo.Ordered.Whole.{swap, swap_loop, exchange}
use mappo.Ordered.Exchange.{
  exchange_self-Models, Exchanged, exchange_lem, map_two, count_two, held_two, Stored_two,
  exchanged-Holds,
}
use mappo.Ordered.{in_range}
use mappo.Ordered.Indexed.{at_lem, split_at, range-cases}
use mappo.Time.{Int64}
use mappo.Ordered.Pick.{exchanged, exchanged_lem, exchanged_self, exchanged_beyond, swap_loop_lem}

module _ {K V : Type 0} ⦃key : Comparable K⦄ {xsync : MapOf K ℕ} where
  swap_run :
      (i j : Int64) (o : Ordered xsync V) (e f : ℕ × ℕ)
      → in_range i o.order ≡ true
      → in_range j o.order ≡ true
      → swap_loop i 0 o.order.elements none ≡ some e
      → swap_loop j 0 o.order.elements none ≡ some f
      → swap i j o ≡ (true, exchange e.1 f.1 o)
  unfolding swap
  swap_run i j o e f in_i in_j loop_i loop_j = rw (swap, in_i, in_j, loop_i, loop_j) refl

  -- The cells at two indices, the first of them before the other.
  record Two (i j : ℕ) (o : Ordered xsync V) (es : List (K × V)) : Type 0 where
    first : K × Cell V
    second : K × Cell V
    before : Cells K V
    between : Cells K V
    after : Cells K V
    holds : Holds o (before ++ first ∷ (between ++ second ∷ after))
    shows : es ≡ entries before ++ entry first ∷ (entries between ++ entry second ∷ entries after)
    at_i : i ≡ length before
    at_j : j ≡ length before + 1 + length between
    loop_i : swap_loop i 0 o.order.elements none ≡ some (place first)
    loop_j : swap_loop j 0 o.order.elements none ≡ some (place second)

  two_lem :
      (i j : ℕ) (o : Ordered xsync V) (es : List (K × V))
      → Models o es
      → i < j
      → j < length es
      → Two i j o es
  two_lem i j o es m less below =
      let len : length m.cells ≡ length es =
        omega (arith, length-map m.cells entry, ap length m.shows) in
      let (a, c, rest, same, at_i) = split_at i m.cells (omega (arith, len)) in
      let (b, c', d, same', at_j) =
        split_at (j - (i + 1)) rest
          (omega (arith, len, ap length same, length-append a (c ∷ rest), at_i)) in
      let all : m.cells ≡ a ++ c ∷ (b ++ c' ∷ d) = same ∙ ap (λ r. a ++ c ∷ r) same' in
      let holds : Holds o (a ++ c ∷ (b ++ c' ∷ d)) = subst (Holds o) all m.holds in
      let elements = holds.kept.order ∙ map_two place c c' a b d in
      record {
        first = c;
        second = c';
        before = a;
        between = b;
        after = d;
        holds = holds;
        shows = sym m.shows ∙ ap entries all ∙ map_two entry c c' a b d;
        at_i = sym at_i;
        at_j = omega (arith, at_i, at_j);
        loop_i =
            ap (λ l. swap_loop i 0 l none) elements
            ∙ swap_loop_lem i 0 (places a) (place c) (places b ++ place c' ∷ places d) none
                (omega (arith, at_i, length-map a place));
        loop_j =
            ap (λ l. swap_loop j 0 l none)
              (elements ∙ sym (append_assoc (places a) (place c ∷ places b) (place c' ∷ places d)))
            ∙ swap_loop_lem j 0 (places a ++ place c ∷ places b) (place c') (places d) none (
                omega (
                  arith,
                  at_i,
                  at_j,
                  length-map a place,
                  length-map b place,
                  length-append (places a) (place c ∷ places b),
                ));
      }

  -- Exchanging the two, in either order, exchanges their pairs.
  exchange-Models :
      (i j : ℕ) (o : Ordered xsync V) (es : List (K × V)) (t : Two i j o es)
      → let adr = t.first.1.address in
        let adr' = t.second.1.address in
        Models (exchange adr adr' o) (exchanged i j es)
        × Models (exchange adr' adr o) (exchanged j i es)
  unfolding exchange
  exchange-Models i j o es t =
      let (k, c) = t.first in
      let (k', c') = t.second in
      let (_, (reads, (_, (reads', _)))) =
        Stored_two o.heap t.first t.second t.before t.between t.after t.holds.kept.at in
      let apart : nat_beq c.address c'.address ≡ false = ground (
        arith,
        t.holds.kept.addresses c.address,
        held_two c.address t.first t.second t.before t.between t.after,
      ) in
      let keys : (k == k') ≡ false = ground (
        arith,
        t.holds.kept.once k,
        eq_iff k k',
        eq_refl k,
        count_two k k' k c c' t.before t.between t.after,
      ) in
      let (at₁, at₁', rest₁, maps₁) =
        subst (Exchanged c.address c'.address o (stored t.first)) reads' (
          subst (λ a. Exchanged c.address c'.address o a (o.heap c'.address)) reads
            (exchange_lem c.address c'.address o apart)) in
      let (at₂', at₂, rest₂, maps₂) =
        subst (Exchanged c'.address c.address o (stored t.second)) reads (
          subst (λ a. Exchanged c'.address c.address o a (o.heap c.address)) reads'
            (exchange_lem c'.address c.address o (ground arith))) in
      let new =
        t.before
        ++ (k', record c { value = c'.value })
          ∷ (t.between ++ (k, record c' { value = c.value }) ∷ t.after) in
      let shows =
        map_two entry (k', record c { value = c'.value }) (k, record c' { value = c.value })
          t.before t.between t.after in
      let (spec, spec') =
        exchanged_lem i j (entry t.first) (entry t.second) (entries t.before) (entries t.between)
          (entries t.after) (t.at_i ∙ sym (length-map t.before entry))
          (omega (arith, t.at_j, length-map t.before entry, length-map t.between entry)) in
      (
        record {
          cells = new;
          holds =
              exchanged-Holds o _ _ k k' c c' t.before t.between t.after t.holds at₁ at₁' rest₁
                maps₁;
          shows = shows ∙ sym spec ∙ ap (exchanged i j) (sym t.shows);
        },
        record {
          cells = new;
          holds =
              exchanged-Holds o _ _ k k' c c' t.before t.between t.after t.holds at₂ at₂'
                (λ n e e'. rest₂ n e' e)
                (λ j'. maps₂ j' ∙ ground (arith, keys, eq_iff k j', eq_iff k' j', eq_iff k k'));
          shows = shows ∙ sym spec' ∙ ap (exchanged j i) (sym t.shows);
        },
      )

  swapped_self :
      (i : Int64) (o : Ordered xsync V) (es : List (K × V))
      → Models o es
      → in_range i o.order ≡ true
      → i < length es
      → (o' : Ordered xsync V) × (swap i i o ≡ (true, o')) × Models o' (exchanged i i es)
  swapped_self i o es m in_i below =
      let p = at_lem i o es m below in
      let adr = p.cell.1.address in
      let loop : swap_loop i 0 o.order.elements none ≡ some (place p.cell) =
        ap (λ l. swap_loop i 0 l none)
          (p.holds.kept.order ∙ map-append place p.before (p.cell ∷ p.after))
        ∙ swap_loop_lem i 0 (places p.before) (place p.cell) (places p.after) none
            (omega (arith, p.index, length-map p.before place)) in
      let found : xsync.load (o.heap adr).key o.items ≡ some adr =
        ap (λ (e : OrderedElement K V). xsync.load e.key o.items) p.reads
        ∙ p.holds.maps p.cell.0
        ∙ ap address_of (lookup_middle p.cell.0 p.cell.1 p.before p.after p.holds.kept.once) in
      (
        exchange adr adr o,
        swap_run i i o _ _ in_i in_i loop loop,
        subst (Models _) (sym (exchanged_self i es)) (exchange_self-Models adr o es m found),
      )

  swapped_inside :
      (i j : Int64) (o : Ordered xsync V) (es : List (K × V))
      → Models o es
      → in_range i o.order ≡ true
      → in_range j o.order ≡ true
      → i < length es
      → j < length es
      → (o' : Ordered xsync V) × (swap i j o ≡ (true, o')) × Models o' (exchanged i j es)
  swapped_inside i j o es m in_i in_j below_i below_j = elim (lt-cases i j) [
    | inl less ↦
        let t = two_lem i j o es m less below_j in
        (_, swap_run i j o _ _ in_i in_j t.loop_i t.loop_j, (exchange-Models i j o es t).0)
    | inr (inl same) ↦
        subst
          (λ n. (o' : Ordered xsync V) × (swap i n o ≡ (true, o')) × Models o' (exchanged i n es))
          same (swapped_self i o es m in_i below_i)
    | inr (inr more) ↦
        let t = two_lem j i o es m more below_i in
        (_, swap_run i j o _ _ in_i in_j t.loop_j t.loop_i, (exchange-Models j i o es t).1)
  ]

  -- `Swap` exchanges the pairs at two indices that are in range, and else does nothing.
  pub swap-Models :
      (i j : Int64) (o : Ordered xsync V) (es : List (K × V))
      → Models o es
      → length es < 2 ^ 63
      → (o' : Ordered xsync V) × (swap i j o ≡ (ltb i (length es) && ltb j (length es), o'))
        × Models o' (exchanged i j es)
  unfolding swap
  swap-Models i j o es m fits = elim (range-cases i o es m) [
    | inl (in_i, (_, below_i)) ↦ elim (range-cases j o es m) [
      | inl (in_j, (_, below_j)) ↦
          let (o', run, models) = swapped_inside i j o es m in_i in_j below_i below_j in
          (o', run ∙ ap (λ b. (b, o')) (ground arith), models)
      | inr (out_j, beyond) ↦ (
        o,
        rw (swap, in_i, out_j) (ap (λ b. (b, o)) (ground (arith, beyond))),
        subst (Models o) (sym (exchanged_beyond i j es (inr (ground (arith, beyond))))) m,
      )
    ]
    | inr (out_i, beyond) ↦ (
      o,
      rw (swap, out_i) (ap (λ b. (b, o)) (ground (arith, beyond))),
      subst (Models o) (sym (exchanged_beyond i j es (inl (ground (arith, beyond))))) m,
    )
  ]
