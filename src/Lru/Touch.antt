-- ===== src/Lru/Touch.antt =====
-- A linked node is rewritten and moved to the front: `Set` of a key that is there, and `Get`.
use mappo.Prelude.{
  ℕ, ◌≡◌, refl, none, some, List, [], ◌∷◌, ◌++◌, arith, length, get_elem?, set, get_elem?-set,
  length-set, length-append, ap, ◌∙◌, sym, Comparable, eq_iff,
}
use mappo.MapOf.{MapOf}
use mappo.Pairs.{lookup, Once, remove_middle, lookup_middle, lookup-remove, count, count-append}
use mappo.Run.{ok}
use mappo.Lru.{Node, Lru, move_to_front, modify}
use mappo.Time.{Int64}
use mappo.Lru.Holds.{Holds, Free-ext, slot_index, free_apart}
use mappo.Lru.Links.{
  Slot, Cells, node_of, first, last, Seg, Seg-update, Seg-append, Seg-split, times-append,
  first-append, last-append,
}
use mappo.Lru.Linked.{Linked, Seg-set, times_around, times_middle, if_self, if_other, modify_lem}
use mappo.Lru.Unlink.{remove_from_list_lem}
use mappo.Lru.Front.{add_to_front_lem}

module _ {K V : Type 0} ⦃key : Comparable K⦄ where
  -- A pair of the middle may stand in front: nothing is looked up otherwise.
  pub lookup_to_front :
      (k j : K) (v : V) (a b : List (K × V))
      → Once (a ++ (k, v) ∷ b)
      → lookup j ((k, v) ∷ a ++ b) ≡ lookup j (a ++ (k, v) ∷ b)
  unfolding lookup
  lookup_to_front k j v a b h = ground (
    arith,
    eq_iff k j,
    lookup_middle k v a b h,
    lookup-remove k j (a ++ (k, v) ∷ b) (h j),
    ap (lookup j) (remove_middle k v a b h),
  )

  index_rewritten :
      (k j : K) (s s' : Slot V) (a b : Cells K V)
      → s'.index ≡ s.index
      → slot_index (lookup j (a ++ (k, s') ∷ b)) ≡ slot_index (lookup j (a ++ (k, s) ∷ b))
  unfolding lookup
  index_rewritten k j s s' [] b e = ground arith
  index_rewritten k j s s' (d ∷ a) b e = ground (arith, index_rewritten k j s s' a b e)

module _ {K V : Type 0} ⦃key : Comparable K⦄ {xsync : MapOf K ℕ} where
  -- `moveToFront` of a linked node puts its cell in front of the others.
  pub move_to_front-Holds :
      (l : Lru xsync V) (a b : Cells K V) (c : K × Slot V) (fs : List ℕ)
      → Holds l (a ++ c ∷ b) fs
      → (pool : List (Node K V)) × (move_to_front c.1.index l
          ≡ ok (record l {
            node_pool = pool;
            head = some c.1.index;
            tail = last (some c.1.index) (a ++ b);
          }))
        × Seg (get_elem? pool) none (c ∷ a ++ b) none
        × Holds
            (record l {
              node_pool = pool;
              head = some c.1.index;
              tail = last (some c.1.index) (a ++ b);
            })
            (c ∷ a ++ b)
            fs
  unfolding move_to_front count
  move_to_front-Holds l a b c fs h =
      let i = c.1.index in
      let run = a ++ c ∷ b in
      let (pool, e, out, seg, reads) = remove_from_list_lem l a b c h.linked in
      let apart = λ (j : ℕ). times-append j a (c ∷ b) in
      let together = λ (j : ℕ). times-append j a b in
      let around = times_around a b c (h.linked.distinct i) in
      let l' = record l {
        node_pool = pool;
        head = first (a ++ b) none;
        tail = last none (a ++ b);
      } in
      let linked' : Linked l' (a ++ b) = record {
        links = seg;
        head = refl;
        tail = refl;
        distinct = λ j. omega (arith, apart j, together j, h.linked.distinct j);
      } in
      let (pool', e', out', seg') =
        add_to_front_lem l' i (node_of c none none) (a ++ b) linked'
          (omega (arith, together i, around.0, around.1)) reads in
      let len = length-append a (c ∷ b) in
      let len' = length-append a b in
      let same : length pool' ≡ length l.node_pool = out'.same_length ∙ out.same_length in
      (
        pool',
        rw e e',
        seg',
        record {
          linked = record {
            links = seg';
            head = refl;
            tail = refl;
            distinct = λ j. omega (arith, apart j, together j, h.linked.distinct j);
          };
          free =
              Free-ext (get_elem? l.node_pool) (get_elem? pool') l.free_list fs
                (λ j q.
                  let z = free_apart l run fs j h q in
                  out'.same j (omega (arith, apart j, together j, z)) ∙ out.same j z)
                h.free;
          parts = λ j. rw same (omega (arith, apart j, together j, h.parts j));
          total = omega (arith, len, len', same, h.total);
          once = λ j. omega (arith, count-append j a b, count-append j a (c ∷ b), h.once j);
          maps = λ k. h.maps k ∙ ap slot_index (sym (lookup_to_front c.0 k c.1 a b h.once));
          counted = omega (arith, len, len', h.counted);
          roomy = omega (arith, same, h.roomy);
          small = omega (arith, len, len', h.small);
        },
      )

  -- Writing the value and the expiry of a linked node changes its cell in place.
  pub rewrite-Holds :
      (l : Lru xsync V) (a b : Cells K V) (k : K) (s : Slot V) (fs : List ℕ) (v : V) (x : Int64)
      → Holds l (a ++ (k, s) ∷ b) fs
      → (pool : List (Node K V)) × (modify l.node_pool s.index
            (λ node. record node { value = v; expiration = x })
          ≡ ok pool)
        × Holds
            (record l { node_pool = pool })
            (a ++ (k, record { index = s.index; value = v; expiration = x }) ∷ b)
            fs
  unfolding count
  rewrite-Holds l a b k s fs v x h =
      let i = s.index in
      let c : K × Slot V = (k, s) in
      let s' : Slot V = record { index = i; value = v; expiration = x } in
      let c' : K × Slot V = (k, s') in
      let old = get_elem? l.node_pool in
      let (left, right) = Seg-split old none a (c ∷ b) none h.linked.links in
      let node = node_of c' (last none a) (first b none) in
      let pool = set l.node_pool i node in
      let around = times_around a b c (h.linked.distinct i) in
      let apart = λ (j : ℕ). times-append j a (c ∷ b) in
      let apart' = λ (j : ℕ). times-append j a (c' ∷ b) in
      let same = length-set l.node_pool i node in
      (
        pool,
        modify_lem l.node_pool i (λ node. record node { value = v; expiration = x }) _ right.0,
        record {
          linked = record {
            links =
                Seg-append (get_elem? pool) none a (c' ∷ b) none
                  (Seg-set l.node_pool i node _ none a (some i) right.0
                    (Seg-update old i node none a (some i) around.0 left))
                  (
                    get_elem?-set l.node_pool i i node _ right.0 ∙ if_self i _ _,
                    Seg-set l.node_pool i node _ (some i) b none right.0
                        (Seg-update old i node (some i) b none around.1 right.1),
                  );
            head = h.linked.head ∙ first-append a (c ∷ b) none ∙ sym (first-append a (c' ∷ b) none);
            tail = h.linked.tail ∙ last-append none a (c ∷ b) ∙ sym (last-append none a (c' ∷ b));
            distinct = λ j. omega (arith, apart j, apart' j, h.linked.distinct j);
          };
          free =
              Free-ext old (get_elem? pool) l.free_list fs
                (λ j q.
                  get_elem?-set l.node_pool i j node _ right.0
                  ∙ if_other i j _ _
                      (λ e. ground (arith, free_apart l (a ++ c ∷ b) fs j h q, times_middle a b c)))
                h.free;
          parts = λ j. rw same (omega (arith, apart j, apart' j, h.parts j));
          total = omega (arith, length-append a (c ∷ b), length-append a (c' ∷ b), same, h.total);
          once = λ j. omega (arith, count-append j a (c ∷ b), count-append j a (c' ∷ b), h.once j);
          maps = λ j. h.maps j ∙ sym (index_rewritten k j s s' a b refl);
          counted = omega (arith, length-append a (c ∷ b), length-append a (c' ∷ b), h.counted);
          roomy = omega (arith, same, h.roomy);
          small = omega (arith, length-append a (c ∷ b), length-append a (c' ∷ b), h.small);
        },
      )
