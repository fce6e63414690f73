-- ===== src/Lru/Unlink.antt =====
-- `removeFromList` of lru.go on a well-linked list.
use mappo.Prelude.{
  ℕ, ◌≤◌, ◌≡◌, refl, none, some, List, [], ◌∷◌, ◌++◌, arith, get_elem?, set, get_elem?-set, ap, ◌∙◌,
  sym, Comparable,
}
use mappo.MapOf.{MapOf}
use mappo.Run.{ok}
use mappo.Lru.{Node, Lru, unlink_next, unlink_prev, remove_from_list}
use mappo.Lru.Links.{
  Slot, Cells, node_of, first, last, times, Seg, Seg-update, Seg-append, Seg-split, relink_next,
  relink_prev, last-append, times-append,
}
use mappo.Lru.Linked.{
  if_self, times_middle, times_around, modify_lem, Seg-set, Outside, Outside-set, Outside-trans,
  Linked,
}

module _ {K V : Type 0} ⦃key : Comparable K⦄ {xsync : MapOf K ℕ} where
  unlink_next_first :
      (l : Lru xsync V) (i : ℕ) (node : Node K V)
      → get_elem? l.node_pool i ≡ some node
      → node.prev ≡ none
      → unlink_next i l ≡ ok (record l { head = node.next })
  unfolding unlink_next
  unlink_next_first l i node r e = ground arith

  unlink_next_behind :
      (l : Lru xsync V) (i p : ℕ) (node other : Node K V)
      → get_elem? l.node_pool i ≡ some node
      → node.prev ≡ some p
      → get_elem? l.node_pool p ≡ some other
      → unlink_next i l
        ≡ ok (record l { node_pool = set l.node_pool p (record other { next = node.next }) })
  unfolding unlink_next
  unlink_next_behind l i p node other r e t = ground arith

  unlink_next_lem :
      (l : Lru xsync V) (a b : Cells K V) (c : K × Slot V)
      → Linked l (a ++ c ∷ b)
      → (pool : List (Node K V)) × (unlink_next c.1.index l
          ≡ ok (record l { node_pool = pool; head = first (a ++ b) none }))
        × Outside (a ++ c ∷ b) l.node_pool pool
        × Seg (get_elem? pool) none a (first b none)
        × Seg (get_elem? pool) (last none a) (c ∷ b) none
  unlink_next_lem l [] b c h = (
    l.node_pool,
    unlink_next_first l c.1.index (node_of c none (first b none)) h.links.0 refl,
    record { same_length = refl; same = λ j z. refl },
    tt,
    h.links,
  )
  unlink_next_lem l (d ∷ a) b c h =
      let old = get_elem? l.node_pool in
      let (left, right) = Seg-split old none (d ∷ a) (c ∷ b) none h.links in
      let apart = λ (j : ℕ). times-append j (d ∷ a) (c ∷ b) in
      let (q, node, end, reads, inside, t) =
        relink_next old none d a (some c.1.index) (first b none)
          (λ j. omega (arith, apart j, h.distinct j)) left in
      (
        set l.node_pool q (record node { next = first b none }),
        unlink_next_behind l c.1.index q (node_of c (last none (d ∷ a)) (first b none)) node right.0
              end reads
            ∙ ap
                (λ x. ok (record l {
                  node_pool = set l.node_pool q (record node { next = first b none });
                  head = x;
                }))
                h.head,
        Outside-set (d ∷ a ++ c ∷ b) l.node_pool q _ node reads (omega (arith, apart q)),
        Seg-set l.node_pool q _ node none (d ∷ a) (first b none) reads t,
        Seg-set l.node_pool q _ node (last none (d ∷ a)) (c ∷ b) none reads (
            Seg-update old q _ (last none (d ∷ a)) (c ∷ b) none
              (omega (arith, apart q, h.distinct q)) right),
      )

  unlink_prev_last :
      (l : Lru xsync V) (i : ℕ) (node : Node K V)
      → get_elem? l.node_pool i ≡ some node
      → node.next ≡ none
      → unlink_prev i l ≡ ok (record l { tail = node.prev })
  unfolding unlink_prev
  unlink_prev_last l i node r e = ground arith

  unlink_prev_before :
      (l : Lru xsync V) (i n : ℕ) (node other : Node K V)
      → get_elem? l.node_pool i ≡ some node
      → node.next ≡ some n
      → get_elem? l.node_pool n ≡ some other
      → unlink_prev i l
        ≡ ok (record l { node_pool = set l.node_pool n (record other { prev = node.prev }) })
  unfolding unlink_prev
  unlink_prev_before l i n node other r e t = ground arith

  unlink_prev_lem :
      (l : Lru xsync V) (a b : Cells K V) (c : K × Slot V)
      → ((j : ℕ) → times j (a ++ c ∷ b) ≤ 1)
      → l.tail ≡ last none (a ++ c ∷ b)
      → Seg (get_elem? l.node_pool) none a (first b none)
      → Seg (get_elem? l.node_pool) (last none a) (c ∷ b) none
      → (pool : List (Node K V)) × (unlink_prev c.1.index l
          ≡ ok (record l { node_pool = pool; tail = last none (a ++ b) }))
        × Outside (a ++ c ∷ b) l.node_pool pool
        × Seg (get_elem? pool) none a (first b none)
        × Seg (get_elem? pool) (last none a) b none
        × (get_elem? pool c.1.index ≡ some (node_of c (last none a) (first b none)))
  unlink_prev_lem l a [] c once tail left right = (
    l.node_pool,
    unlink_prev_last l c.1.index (node_of c (last none a) none) right.0 refl
        ∙ ap (λ x. ok (record l { tail = x })) (sym (last-append none a [])),
    record { same_length = refl; same = λ j z. refl },
    left,
    tt,
    right.0,
  )
  unlink_prev_lem l a (d ∷ b) c once tail left right =
      let old = get_elem? l.node_pool in
      let apart = λ (j : ℕ). times-append j a (c ∷ d ∷ b) in
      let new = node_of d (last none a) (first b none) in
      let i = d.1.index in
      (
        set l.node_pool i new,
        unlink_prev_before l c.1.index i (node_of c (last none a) (some i)) _ right.0 refl right.1.0
            ∙ ap (λ x. ok (record l { node_pool = set l.node_pool i new; tail = x }))
                (tail ∙ last-append none a (c ∷ d ∷ b) ∙ sym (last-append none a (d ∷ b))),
        Outside-set (a ++ c ∷ d ∷ b) l.node_pool i _ _ right.1.0 (ground (arith, apart i)),
        Seg-set l.node_pool i _ _ none a (some i) right.1.0
            (Seg-update old i _ none a (some i) (ground (arith, apart i, once i)) left),
        Seg-set l.node_pool i _ _ (last none a) (d ∷ b) none right.1.0 (
            relink_prev old (some c.1.index) (last none a) d b none
              (ground (arith, apart i, once i)) right.1),
        get_elem?-set l.node_pool i c.1.index new _ right.1.0
            ∙ ground (arith, apart i, once i, right.0),
      )

  -- On a linked list that has the node at the index between `a` and `b`, `removeFromList` links
  -- `a` to `b`, clears the links of the node, and writes no node outside the list.
  pub remove_from_list_lem :
      (l : Lru xsync V) (a b : Cells K V) (c : K × Slot V)
      → Linked l (a ++ c ∷ b)
      → (pool : List (Node K V)) × (remove_from_list c.1.index l
          ≡ ok (record l {
            node_pool = pool;
            head = first (a ++ b) none;
            tail = last none (a ++ b);
          }))
        × Outside (a ++ c ∷ b) l.node_pool pool
        × Seg (get_elem? pool) none (a ++ b) none
        × (get_elem? pool c.1.index ≡ some (node_of c none none))
  unfolding remove_from_list
  remove_from_list_lem l a b c h =
      let run = a ++ c ∷ b in
      let (pool, e, out, left, right) = unlink_next_lem l a b c h in
      let l' = record l { node_pool = pool; head = first (a ++ b) none } in
      let (pool', e', out', left', right', reads) =
        unlink_prev_lem l' a b c h.distinct h.tail left right in
      let i = c.1.index in
      let around = times_around a b c (h.distinct i) in
      let blank = node_of c none none in
      (
        set pool' i blank,
        rw (e, e', modify_lem pool' i (λ node. record node { prev = none; next = none }) _ reads),
        Outside-trans run l.node_pool pool _ out (
            Outside-trans run pool pool' _ out'
              (Outside-set run pool' i blank _ reads (times_middle a b c))),
        Seg-append (get_elem? (set pool' i blank)) none a b none
            (Seg-set pool' i blank _ none a (first b none) reads
              (Seg-update (get_elem? pool') i blank none a (first b none) around.0 left'))
            (Seg-set pool' i blank _ (last none a) b none reads
              (Seg-update (get_elem? pool') i blank (last none a) b none around.1 right')),
        get_elem?-set pool' i i blank _ reads ∙ if_self i _ _,
      )
