-- ===== src/Lru/Front.antt =====
-- `addToFront` of lru.go on a well-linked list.
use mappo.Prelude.{
  ℕ, ◌≡◌, none, some, List, [], ◌∷◌, arith, get_elem?, set, get_elem?-set, ap, ◌∙◌, Comparable,
}
use mappo.MapOf.{MapOf}
use mappo.Run.{ok}
use mappo.Lru.{Node, Lru, add_to_front}
use mappo.Lru.Links.{Cells, node_of, first, last, times, Seg, Seg-update, relink_prev}
use mappo.Lru.Linked.{
  if_self, cell_of, modify_lem, Seg-set, Outside, Outside-set, Outside-trans, Linked,
}

module _ {K V : Type 0} ⦃key : Comparable K⦄ {xsync : MapOf K ℕ} where
  add_to_front_first :
      (l : Lru xsync V) (i : ℕ) (node : Node K V)
      → get_elem? l.node_pool i ≡ some node
      → l.head ≡ none
      → add_to_front i l
        ≡ ok (record l {
          node_pool = set l.node_pool i (record node { prev = none; next = l.head });
          tail = some i;
          head = some i;
        })
  unfolding add_to_front
  add_to_front_first l i node r e = rw (modify_lem l.node_pool i _ node r) (ground arith)

  add_to_front_before :
      (l : Lru xsync V) (i h : ℕ) (node other : Node K V)
      → get_elem? l.node_pool i ≡ some node
      → l.head ≡ some h
      → get_elem? (set l.node_pool i (record node { prev = none; next = l.head })) h ≡ some other
      → add_to_front i l
        ≡ ok (record l {
          node_pool =
              set
                (set l.node_pool i (record node { prev = none; next = l.head }))
                h
                (record other { prev = some i });
          head = some i;
        })
  unfolding add_to_front
  add_to_front_before l i h node other r e t = rw (modify_lem l.node_pool i _ node r) (
      ground (
        arith,
        modify_lem (set l.node_pool i (record node { prev = none; next = l.head })) h
            (λ node. record node { prev = some i }) other t,
      ))

  -- `addToFront` of a node that is not in the list links it before the first, with its key, value
  -- and expiry, and writes no node outside the list.
  pub add_to_front_lem :
      (l : Lru xsync V) (i : ℕ) (node : Node K V) (cs : Cells K V)
      → Linked l cs
      → times i cs ≡ 0
      → get_elem? l.node_pool i ≡ some node
      → (pool : List (Node K V)) × (add_to_front i l
          ≡ ok (record l { node_pool = pool; head = some i; tail = last (some i) cs }))
        × Outside (cell_of i node ∷ cs) l.node_pool pool
        × Seg (get_elem? pool) none (cell_of i node ∷ cs) none
  add_to_front_lem l i node [] h z r =
      let new = node_of (cell_of i node) none none in
      (
        set l.node_pool i new,
        add_to_front_first l i node r h.head
            ∙ ap
                (λ x. ok (record l {
                  node_pool = set l.node_pool i (record node { prev = none; next = x });
                  tail = some i;
                  head = some i;
                }))
                h.head,
        Outside-set (cell_of i node ∷ []) l.node_pool i new node r (ground arith),
        (get_elem?-set l.node_pool i i new node r ∙ if_self i _ _, tt),
      )
  add_to_front_lem l i node (d ∷ cs) h z r =
      let j = d.1.index in
      let c = cell_of i node in
      let new = node_of c none (some j) in
      let pool = set l.node_pool i new in
      let kept =
        Seg-set l.node_pool i new node none (d ∷ cs) none r
          (Seg-update (get_elem? l.node_pool) i new none (d ∷ cs) none z h.links) in
      let back = node_of d (some i) (first cs none) in
      let here : get_elem? pool i ≡ some new =
        get_elem?-set l.node_pool i i new node r ∙ if_self i _ _ in
      (
        set pool j back,
        add_to_front_before l i j node (node_of d none (first cs none)) r h.head (
              ap (λ x. get_elem? (set l.node_pool i (record node { prev = none; next = x })) j)
                h.head
              ∙ kept.0)
            ∙ ap
                (λ x. ok (record l {
                  node_pool =
                      set (set l.node_pool i (record node { prev = none; next = x })) j back;
                  head = some i;
                }))
                h.head
            ∙ ap (λ x. ok (record l { node_pool = set pool j back; head = some i; tail = x }))
                h.tail,
        Outside-trans (c ∷ d ∷ cs) l.node_pool pool (set pool j back)
            (Outside-set (c ∷ d ∷ cs) l.node_pool i new node r (ground arith))
            (Outside-set (c ∷ d ∷ cs) pool j back _ kept.0 (ground arith)),
        (
          get_elem?-set pool j i back _ kept.0 ∙ ground (arith, here),
          Seg-set pool j back _ (some i) (d ∷ cs) none kept.0 (
              relink_prev (get_elem? pool) none (some i) d cs none (ground (arith, h.distinct j))
                kept),
        ),
      )
