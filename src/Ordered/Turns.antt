-- ===== src/Ordered/Turns.antt =====
-- `Reverse` of ordred.go against a list of pairs.
use mappo.Prelude.{
  ℕ, ◌+◌, ◌≤◌, ◌≡◌, refl, ap, sym, ◌∙◌, some, List, [], ◌∷◌, ◌++◌, map, arith, false, if◌then◌else◌,
  nat_beq, nat_comparable, ltb, Comparable, ◌==◌,
}
use mathlib.Core.List.{map-append, append_assoc, append-nil, reverse-cons, map-map}
use mathlib.Core.List.{reverse as reversed}
use mathlib.Core.Path.{subst}
use mappo.ContainerList.{push_back, init}
use mappo.Pairs.{to_nat, uses, lookup, count, Once, count-append}
use mappo.MapOf.{MapOf}
use mappo.Ordered.{OrderedElement, Ordered, modify, attach}
use mappo.Ordered.Holds.{
  Cell, Cells, address_of, held, place, places, entry, entries, Stored, Models, Stored-split,
  Stored-append, Stored-ext, held-append,
}
use mappo.Ordered.Middle.{lookup_inserted}
use mappo.Ordered.Places.{count-places, modify_self, modify_other}
use mappo.Ordered.Whole.{reverse, reverse_loop}
use mappo.Ordered.Writes.{address_rewritten}

module _ {ℓ κ} {A : Type ℓ} {B : Type κ} where
  map-reversed : (f : A → B) (l : List A) → map f (reversed l) ≡ reversed (map f l)
  map-reversed f [] = refl
  map-reversed f (x ∷ l) =
      ap (map f) (reverse-cons x l)
      ∙ map-append f (reversed l) (x ∷ [])
      ∙ ap (λ r. r ++ f x ∷ []) (map-reversed f l)
      ∙ sym (reverse-cons (f x) (map f l))

module _ {K V : Type 0} where
  held-reversed : (i : ℕ) (cs : Cells K V) → held i (reversed cs) ≡ held i cs
  held-reversed i [] = refl
  held-reversed i (c ∷ cs) = omega (
    arith,
    ap (held i) (reverse-cons c cs),
    held-append i (reversed cs) (c ∷ []),
    held-reversed i cs,
  )

  Stored-reversed :
      (heap : ℕ → OrderedElement K V) (cs : Cells K V) → Stored heap cs → Stored heap (reversed cs)
  Stored-reversed heap [] s = tt
  Stored-reversed heap (c ∷ cs) (s, rest) =
      subst (Stored heap) (sym (reverse-cons c cs))
        (Stored-append heap (reversed cs) (c ∷ []) (Stored-reversed heap cs rest) (s, tt))

module _ {ℓ} {K W : Type ℓ} ⦃key : Comparable K⦄ where
  count-reversed : (k : K) (l : List (K × W)) → count k (reversed l) ≡ count k l
  unfolding count
  count-reversed k [] = refl
  count-reversed k (x ∷ l) = omega (
    arith,
    ap (count k) (reverse-cons x l),
    count-append k (reversed l) (x ∷ []),
    count-reversed k l,
  )

  lookup-reversed : (k : K) (l : List (K × W)) → Once l → lookup k (reversed l) ≡ lookup k l
  unfolding lookup count
  lookup-reversed k [] h = refl
  lookup-reversed k (x ∷ l) h =
      let once : Once (reversed l ++ x ∷ []) =
        λ j. omega (arith, h j, count-reversed j l, count-append j (reversed l) (x ∷ [])) in
      ap (lookup k) (reverse-cons x l)
      ∙ lookup_inserted x.0 k x.1 (reversed l) [] once
      ∙ ap (λ o. if x.0 == k then some x.1 else o)
          (ap (lookup k) (append-nil (reversed l)) ∙ lookup-reversed k l (λ j. omega (arith, h j)))

module _ {K V : Type 0} ⦃key : Comparable K⦄ {xsync : MapOf K ℕ} where
  -- `Reverse` half way: `done` is in the list again, `rest` is not yet.
  record Turned (o : Ordered xsync V) (done rest : Cells K V) : Type 0 where
    at : Stored o.heap (done ++ rest)
    order : o.order.elements ≡ places done
    elements : (i : ℕ) → count i (places done) ≤ to_nat (ltb i o.order.fresh)
    addresses : (i : ℕ) → held i (done ++ rest) + uses i o.pool ≤ to_nat (ltb i o.allocated)
    once : Once (done ++ rest)
    maps : (k : K) → xsync.load k o.items ≡ address_of (lookup k (done ++ rest))

  turn_lem :
      (o : Ordered xsync V) (done rest : Cells K V) (k : K) (c : Cell V)
      → Turned o done ((k, c) ∷ rest)
      → Turned
          (attach c.address
            (o.heap c.address).key
            (some o.order.fresh)
            (record o { order = push_back c.address o.order }))
          (done ++ (k, record c { element = o.order.fresh }) ∷ [])
          rest
  unfolding attach count
  turn_lem o done rest k c t =
      let c' : Cell V = record c { element = o.order.fresh } in
      let adr = c.address in
      let (left, right) = Stored-split o.heap done ((k, c) ∷ rest) t.at in
      let write : OrderedElement K V → OrderedElement K V =
        λ e. record e { element = some o.order.fresh } in
      let heap = modify adr write o.heap in
      let apart = λ (i : ℕ). held-append i done ((k, c) ∷ rest) in
      let only = λ (i : ℕ) (e : nat_beq adr i ≡ false). modify_other adr i write o.heap e in
      let all : (done ++ (k, c') ∷ []) ++ rest ≡ done ++ (k, c') ∷ rest =
        append_assoc done ((k, c') ∷ []) rest in
      let key_is : (o.heap adr).key ≡ k = ap (λ (e : OrderedElement K V). e.key) right.0 in
      let again : (j : K)
          → xsync.load j (xsync.store k adr o.items)
            ≡ address_of (lookup j (done ++ (k, c) ∷ rest)) =
        λ j. ground (
          arith,
          xsync.load-store k j adr o.items,
          t.maps j,
          lookup_inserted k j c done rest t.once,
        ) in
      record {
        at = rw all (
            Stored-append heap done ((k, c') ∷ rest)
              (Stored-ext o.heap heap done
                (λ i q. only i (ground (arith, t.addresses adr, apart adr))) left)
              (
                modify_self adr write o.heap ∙ ap write right.0,
                Stored-ext o.heap heap rest
                    (λ i q. only i (ground (arith, t.addresses adr, apart adr))) right.1,
              ));
        order =
            ap (λ l. l ++ (o.order.fresh, adr) ∷ []) t.order
            ∙ sym (map-append place done ((k, c') ∷ []));
        elements = λ i. ground (arith, t.elements i, count-places i done ((k, c') ∷ []));
        addresses = λ i.
            omega
              (arith, t.addresses i, apart i, ap (held i) all, held-append i done ((k, c') ∷ rest));
        once = λ j. omega (
          arith,
          t.once j,
          ap (count j) all,
          count-append j done ((k, c') ∷ rest),
          count-append j done ((k, c) ∷ rest),
        );
        maps = λ j.
            ap (λ q. xsync.load j (xsync.store q adr o.items)) key_is
            ∙ again j
            ∙ sym (address_rewritten k j c c' done rest refl)
            ∙ ap (λ l. address_of (lookup j l)) (sym all);
      }

  reverse_loop_lem :
      (rest : Cells K V) (o : Ordered xsync V) (done : Cells K V)
      → Turned o done rest
      → Models (reverse_loop (map (λ c. c.1.address) rest) o) (entries (done ++ rest))
  unfolding reverse_loop
  reverse_loop_lem [] o done t =
      let nothing = append-nil done in
      record {
        cells = done;
        holds = record {
          kept = record {
            at = subst (Stored o.heap) nothing t.at;
            order = t.order;
            elements = t.elements;
            addresses = λ i. omega (arith, t.addresses i, ap (held i) nothing);
            once = subst Once nothing t.once;
          };
          maps = λ j. t.maps j ∙ ap (λ l. address_of (lookup j l)) nothing;
        };
        shows = ap entries (sym nothing);
      }
  reverse_loop_lem ((k, c) ∷ rest) o done t =
      let c' : Cell V = record c { element = o.order.fresh } in
      let same : entries ((done ++ (k, c') ∷ []) ++ rest) ≡ entries (done ++ (k, c) ∷ rest) =
        ap entries (append_assoc done ((k, c') ∷ []) rest)
        ∙ map-append entry done ((k, c') ∷ rest)
        ∙ sym (map-append entry done ((k, c) ∷ rest)) in
      subst (Models _) same
        (reverse_loop_lem rest _ (done ++ (k, c') ∷ []) (turn_lem o done rest k c t))

  -- `Reverse` leaves the pairs in the opposite order.
  pub reverse-Models :
      (o : Ordered xsync V) (es : List (K × V)) → Models o es → Models (reverse o) (reversed es)
  unfolding reverse count
  reverse-Models o es m =
      let cs = m.cells in
      let kept = m.holds.kept in
      let start : Turned (record o { order = init o.order }) [] (reversed cs) = record {
        at = Stored-reversed o.heap cs kept.at;
        order = refl;
        elements = λ i. omega arith;
        addresses = λ i. omega (arith, kept.addresses i, held-reversed i cs);
        once = λ j. omega (arith, kept.once j, count-reversed j cs);
        maps = λ j. m.holds.maps j ∙ ap address_of (sym (lookup-reversed j cs kept.once));
      } in
      let addresses : map (λ c. c.1.address) (reversed cs)
          ≡ reversed (map (λ e. e.1) o.order.elements) =
        map-reversed (λ c. c.1.address) cs
        ∙ ap reversed (sym (map-map (λ e. e.1) place cs))
        ∙ ap (λ l. reversed (map (λ e. e.1) l)) (sym kept.order) in
      subst (λ l. Models (reverse_loop l (record o { order = init o.order })) (reversed es))
        addresses
        (subst (Models _) (map-reversed entry cs ∙ ap reversed m.shows)
          (reverse_loop_lem (reversed cs) (record o { order = init o.order }) [] start))
