-- ===== src/Lru/Drop.antt =====
-- A node leaves the list, the map and the count: `Delete`, an expired `Get`, an eviction.
use mappo.Prelude.{
  ℕ, ◌≡◌, refl, Option, none, some, List, ◌∷◌, ◌++◌, true, arith, ltb, length, get_elem?, set,
  get_elem?-set, length-set, length-append, ap, ◌∙◌, Comparable, lt_of_get_elem?,
}
use mappo.MapOf.{MapOf}
use mappo.Pairs.{lookup, remove_middle, Once-middle, lookup-remove}
use mappo.Run.{ok}
use mappo.Lru.{Node, Lru, drop_node, release_node, decrement}
use mappo.Lru.Holds.{Holds, Free-ext, free_apart}
use mappo.Lru.Links.{Slot, Cells, first, last, Seg-update, times-append}
use mappo.Lru.Linked.{Seg-set, times_around, times_middle, if_self, if_other}
use mappo.Lru.Unlink.{remove_from_list_lem}

module _ {K V : Type 0} (zero_key : K) (zero_value : V) where
  -- What `releaseNode` writes.
  abbrev pub free_node : Option ℕ → Node K V
  free_node next = record {
    key = zero_key;
    value = zero_value;
    expiration = 0;
    prev = none;
    next = next;
  }

module _ {K V : Type 0} ⦃key : Comparable K⦄ {xsync : MapOf K ℕ} (zero_key : K)
    (zero_value : V) where
  -- `drop_node` of the node between `a` and `b` leaves `a` and `b`, frees the node, and does
  -- nothing else to the state.
  pub drop_node_lem :
      (l : Lru xsync V) (a b : Cells K V) (c : K × Slot V) (fs : List ℕ)
      → Holds l (a ++ c ∷ b) fs
      → (pool : List (Node K V)) × (drop_node zero_key zero_value c.0 c.1.index l
          ≡ ok (record l {
            node_pool = pool;
            head = first (a ++ b) none;
            tail = last none (a ++ b);
            m = xsync.delete c.0 l.m;
            free_list = some c.1.index;
            size = decrement l.size;
          }))
        × (get_elem? pool c.1.index ≡ some (free_node zero_key zero_value l.free_list))
        × Holds
            (record l {
              node_pool = pool;
              head = first (a ++ b) none;
              tail = last none (a ++ b);
              m = xsync.delete c.0 l.m;
              free_list = some c.1.index;
              size = decrement l.size;
            })
            (a ++ b)
            (c.1.index ∷ fs)
  unfolding drop_node release_node decrement
  drop_node_lem l a b c fs h =
      let (pool, e, out, seg, reads) = remove_from_list_lem l a b c h.linked in
      let i = c.1.index in
      let node = free_node zero_key zero_value l.free_list in
      let apart = λ (j : ℕ). times-append j a (c ∷ b) in
      let together = λ (j : ℕ). times-append j a b in
      let around = times_around a b c (h.linked.distinct i) in
      let len = length-append a (c ∷ b) in
      let len' = length-append a b in
      let same : length (set pool i node) ≡ length l.node_pool =
        length-set pool i node ∙ out.same_length in
      let inside : ltb i (length pool) ≡ true = ground (arith, lt_of_get_elem? pool i _ reads) in
      (
        set pool i node,
        rw (e, inside),
        get_elem?-set pool i i node _ reads ∙ if_self i _ _,
        record {
          linked = record {
            links = Seg-set pool i node _ none (a ++ b) none reads (
                Seg-update (get_elem? pool) i node none (a ++ b) none
                  (omega (arith, together i, around.0, around.1)) seg);
            head = refl;
            tail = refl;
            distinct = λ j. omega (arith, apart j, together j, h.linked.distinct j);
          };
          free = (
            refl,
            (
              node,
              get_elem?-set pool i i node _ reads ∙ if_self i _ _,
              Free-ext (get_elem? l.node_pool) (get_elem? (set pool i node)) l.free_list fs
                  (λ j q.
                    let z = free_apart l (a ++ c ∷ b) fs j h q in
                    get_elem?-set pool i j node _ reads
                    ∙ if_other i j _ _ (λ e. ground (arith, z, times_middle a b c))
                    ∙ out.same j z)
                  h.free,
            ),
          );
          parts = λ j. rw same (omega (arith, apart j, together j, h.parts j));
          total = omega (arith, len, len', same, h.total);
          once = Once-middle c.0 c.1 a b h.once;
          maps = λ k.
              xsync.load-delete c.0 k l.m
              ∙ ground (
                arith,
                h.maps k,
                lookup-remove c.0 k (a ++ c ∷ b) (h.once k),
                ap (lookup k) (remove_middle c.0 c.1 a b h.once),
              );
          counted = omega (arith, len, len', h.counted, h.small);
          roomy = omega (arith, same, h.roomy);
          small = omega (arith, len, len', h.small);
        },
      )
