-- ===== src/Lru/Models.antt =====
-- What the state of lru.go stands for: its entries, most recently used first.
use mappo.Prelude.{
  ℕ, suc, ◌+◌, ◌≤◌, ◌<◌, ◌^◌, ◌≡◌, refl, Option, none, some, List, [], ◌∷◌, ◌++◌, arith, length,
  get_elem?, Comparable, ◌==◌, ap, eq_refl, ◌∙◌,
}
use mappo.MapOf.{MapOf}
use mappo.Pairs.{lookup, remove, lookup_middle, count, to_nat}
use mappo.Time.{Int64}
use mappo.Lru.{Lru, find_node}
use mappo.Lru.Holds.{Holds, slot_index}
use mappo.Lru.Links.{Slot, Cells, node_of, first, last, Seg-split}

pub record Stored (V : Type 0) : Type 0 where
  pub value : V
  pub expiration : Int64

abbrev pub stored : {V : Type 0} → Slot V → Stored V
stored s = record { value = s.value; expiration = s.expiration }

abbrev pub stored? : {V : Type 0} → Option (Slot V) → Option (Stored V)
stored? none = none
stored? (some s) = some (stored s)

module _ {K V : Type 0} where
  -- The cells without their places.
  abbrev pub entries : Cells K V → List (K × Stored V)
  entries [] = []
  entries (c ∷ cs) = (c.0, stored c.1) ∷ entries cs

  pub length-entries : (cs : Cells K V) → length (entries cs) ≡ length cs
  length-entries [] = refl
  length-entries (c ∷ cs) = ap suc (length-entries cs)

  pub entries-append : (a b : Cells K V) → entries (a ++ b) ≡ entries a ++ entries b
  entries-append [] b = refl
  entries-append (c ∷ a) b = ap (λ r. (c.0, stored c.1) ∷ r) (entries-append a b)

module _ {K V : Type 0} ⦃key : Comparable K⦄ where
  pub lookup-entries : (k : K) (cs : Cells K V) → lookup k (entries cs) ≡ stored? (lookup k cs)
  unfolding lookup
  lookup-entries k [] = refl
  lookup-entries k (c ∷ cs) = ground (arith, lookup-entries k cs)

  pub count-entries : (k : K) (cs : Cells K V) → count k (entries cs) ≡ count k cs
  unfolding count
  count-entries k [] = refl
  count-entries k (c ∷ cs) = ap (λ n. to_nat (c.0 == k) + n) (count-entries k cs)

  pub remove-entries : (k : K) (cs : Cells K V) → remove k (entries cs) ≡ entries (remove k cs)
  unfolding remove
  remove-entries k [] = refl
  remove-entries k (c ∷ cs) = ground (arith, remove-entries k cs)

module _ {K V : Type 0} ⦃key : Comparable K⦄ {xsync : MapOf K ℕ} where
  -- The state is well formed and holds the entries `es`.
  pub record Models (l : Lru xsync V) (es : List (K × Stored V)) : Type 0 where
    pub cells : Cells K V
    pub unused : List ℕ
    pub holds : Holds l cells unused
    pub shows : entries cells ≡ es
    pub bounded : length es ≤ l.max_size
    pub positive : 0 < l.max_size
    pub small : l.max_size < 2 ^ 31

  -- The configuration is the same.
  pub record Same (l l' : Lru xsync V) : Type 0 where
    pub max_size : l'.max_size ≡ l.max_size
    pub default_ttl : l'.default_ttl ≡ l.default_ttl
    pub on_eviction : l'.on_eviction ≡ l.on_eviction
    pub capacity : l'.capacity ≡ l.capacity

  pub Same-trans : (l l' l'' : Lru xsync V) → Same l l' → Same l' l'' → Same l l''
  Same-trans l l' l'' s t = record {
    max_size = t.max_size ∙ s.max_size;
    default_ttl = t.default_ttl ∙ s.default_ttl;
    on_eviction = t.on_eviction ∙ s.on_eviction;
    capacity = t.capacity ∙ s.capacity;
  }

  pub node_at :
      (l : Lru xsync V) (a b : Cells K V) (c : K × Slot V) (fs : List ℕ)
      → Holds l (a ++ c ∷ b) fs
      → get_elem? l.node_pool c.1.index ≡ some (node_of c (last none a) (first b none))
  node_at l a b c fs h = (Seg-split (get_elem? l.node_pool) none a (c ∷ b) none h.linked.links).1.0

  -- The node that the methods find for a key is the one that is linked under it.
  pub find_node_middle :
      (l : Lru xsync V) (a b : Cells K V) (k : K) (s : Slot V) (fs : List ℕ)
      → Holds l (a ++ (k, s) ∷ b) fs
      → find_node k l ≡ some s.index
  unfolding find_node
  find_node_middle l a b k s fs h =
      let found : xsync.load k l.m ≡ some s.index =
        h.maps k ∙ ap slot_index (lookup_middle k s a b h.once) in
      rw (found, find_node, node_at l a b (k, s) fs h, eq_refl k)

  pub find_node_absent :
      (l : Lru xsync V) (k : K) (cs : Cells K V) (fs : List ℕ)
      → Holds l cs fs
      → lookup k cs ≡ none
      → find_node k l ≡ none
  unfolding find_node
  find_node_absent l k cs fs h e = rw (h.maps k, e, find_node)
