-- ===== src/Lru/Clears.antt =====
-- What `Clear` of lru.go leaves and what it tells `onEviction`.
use mappo.Prelude.{
  ℕ, ◌≡◌, refl, Option, none, some, List, [], ◌∷◌, ◌++◌, arith, if◌then◌else◌, get_elem?,
  Comparable, ◌==◌, eq_refl, ◌∙◌, ap, sym, Bool-cases, Option-cases, inl, inr,
}
use mathlib.Core.Path.{subst}
use mappo.MapOf.{MapOf}
use mappo.Pairs.{lookup, Once, count, Once-tail, apart_of_Once, split_of_lookup}
use mappo.Lru.{Node, Lru}
use mappo.Lru.Holds.{Holds, slot_index}
use mappo.Lru.Links.{Slot, Cells, first, last, node_of}
use mappo.Lru.Models.{Models, Same, Stored, stored?, lookup-entries, node_at}
use mappo.Lru.Resets.{empty_Holds}
use mappo.Lru.Whole.{clear, cleared}

module _ {V : Type 0} where
  abbrev pub value? : Option (Stored V) → Option V
  value? none = none
  value? (some s) = some s.value

  slot_of_index :
      (o : Option (Slot V)) (idx : ℕ)
      → slot_index o ≡ some idx
      → (slot : Slot V) × (o ≡ some slot) × (slot.index ≡ idx)
  slot_of_index none idx e = cc
  slot_of_index (some slot) idx e = (slot, refl, cc)

  none_of_index : (o : Option (Slot V)) → slot_index o ≡ none → o ≡ none
  none_of_index none e = refl
  none_of_index (some slot) e = cc

module _ {K V : Type 0} where
  -- What the node at an index is told with.
  abbrev node_value : List (Node K V) → Option ℕ → Option V
  node_value pool none = none
  node_value pool (some idx) = elim (get_elem? pool idx) [
    | none ↦ none
    | some node ↦ some node.value
  ]

  node_value_of :
      (pool : List (Node K V)) (idx : ℕ) (node : Node K V)
      → get_elem? pool idx ≡ some node
      → node_value pool (some idx) ≡ some node.value
  node_value_of pool idx node e = rw (e, node_value) refl

module _ {K V : Type 0} ⦃key : Comparable K⦄ where
  -- Each index leads to a node with the key.
  abbrev Leads : List (Node K V) → List (K × ℕ) → Type 0
  Leads pool [] = Unit
  Leads pool ((k, idx) ∷ pairs) =
      ((node : Node K V) × (get_elem? pool idx ≡ some node) × (node.key ≡ k)) × Leads pool pairs

  count-cleared :
      (pool : List (Node K V)) (pairs : List (K × ℕ)) (j : K)
      → Leads pool pairs
      → count j (cleared pool pairs) ≡ count j pairs
  unfolding cleared count
  count-cleared pool [] j h = refl
  count-cleared pool ((k, idx) ∷ pairs) j ((node, reads, same), rest) =
      rw (reads, cleared, same, count-cleared pool pairs j rest) refl

  lookup-cleared :
      (pool : List (Node K V)) (pairs : List (K × ℕ)) (j : K)
      → Leads pool pairs
      → lookup j (cleared pool pairs) ≡ node_value pool (lookup j pairs)
  unfolding cleared lookup
  lookup-cleared pool [] j h = refl
  lookup-cleared pool ((k, idx) ∷ pairs) j ((node, reads, same), rest) =
      elim (Bool-cases (k == j)) [
        | inl here ↦ rw (reads, cleared, same, here) (sym (node_value_of pool idx node reads))
        | inr other ↦ rw (reads, cleared, same, other) (lookup-cleared pool pairs j rest)
      ]

  Leads-of_lookup :
      (pool : List (Node K V)) (pairs : List (K × ℕ))
      → Once pairs
      → ((k : K) (idx : ℕ)
          → lookup k pairs ≡ some idx
          → (node : Node K V) × (get_elem? pool idx ≡ some node) × (node.key ≡ k))
      → Leads pool pairs
  unfolding lookup
  Leads-of_lookup pool [] once h = tt
  Leads-of_lookup pool ((k, idx) ∷ pairs) once h = (
    h k idx (rw (eq_refl k) refl),
    Leads-of_lookup pool pairs (Once-tail k idx pairs once)
        (λ j i q. h j i (rw (apart_of_Once k j idx i pairs once q) q)),
  )

module _ {K V : Type 0} ⦃key : Comparable K⦄ {xsync : MapOf K ℕ} where
  node_of_load :
      (l : Lru xsync V) (cs : Cells K V) (fs : List ℕ) (k : K) (idx : ℕ)
      → Holds l cs fs
      → xsync.load k l.m ≡ some idx
      → (slot : Slot V) × (lookup k cs ≡ some slot)
        × (node : Node K V) × (get_elem? l.node_pool idx ≡ some node)
        × (node.key ≡ k)
        × (node.value ≡ slot.value)
  node_of_load l cs fs k idx h e =
      let (slot, found, place) = slot_of_index (lookup k cs) idx (sym (h.maps k) ∙ e) in
      let (a, b, split) = split_of_lookup k slot cs found in
      let h' = subst (λ x. Holds l x fs) split h in
      (
        slot,
        found,
        node_of (k, slot) (last none a) (first b none),
        ap (get_elem? l.node_pool) (sym place) ∙ node_at l a b (k, slot) fs h',
        refl,
        refl,
      )

  read_back :
      (l : Lru xsync V) (es : List (K × Stored V)) (m : Models l es) (j : K)
      → node_value l.node_pool (xsync.load j l.m) ≡ value? (lookup j es)
  read_back l es m j =
      let seen : stored? (lookup j m.cells) ≡ lookup j es =
        sym (lookup-entries j m.cells) ∙ ap (lookup j) m.shows in
      elim (Option-cases (xsync.load j l.m)) [
        | inl none_there ↦
            let gone = none_of_index (lookup j m.cells) (sym (m.holds.maps j) ∙ none_there) in
            ap (node_value l.node_pool) none_there
            ∙ ap (λ o. value? (stored? o)) (sym gone)
            ∙ ap value? seen
        | inr (idx, there) ↦
            let (slot, found, node, reads, _, value) =
              node_of_load l m.cells m.unused j idx m.holds there in
            ap (node_value l.node_pool) there
            ∙ node_value_of l.node_pool idx node reads
            ∙ ap some value
            ∙ ap (λ o. value? (stored? o)) (sym found)
            ∙ ap value? seen
      ]

  -- `Clear` leaves an empty map with the same configuration. `onEviction`, if there is one, is called once for
  -- each key that had an entry, expired or not, with its value.
  pub clear-Models :
      (l : Lru xsync V) (es : List (K × Stored V))
      → Models l es
      → Models (clear l) []
        × Same l (clear l)
        × (log : List (K × V)) × ((clear l).evictions
            ≡ (if l.on_eviction then l.evictions ++ log else l.evictions))
        × Once log
        × ((j : K) → lookup j log ≡ value? (lookup j es))
  unfolding clear
  clear-Models l es m =
      let pairs = xsync.range l.m in
      let leads = Leads-of_lookup l.node_pool pairs (xsync.range-Once l.m) (λ k idx e.
        let (_, _, node, reads, same, _) =
          node_of_load l m.cells m.unused k idx m.holds (sym (xsync.lookup-range k l.m) ∙ e) in
        (node, reads, same)) in
      (
        record {
          cells = [];
          unused = [];
          holds = empty_Holds _ refl refl refl refl refl (λ k. xsync.load-clear k l.m);
          shows = refl;
          bounded = omega arith;
          positive = m.positive;
          small = m.small;
        },
        record { max_size = refl; default_ttl = refl; on_eviction = refl; capacity = refl },
        cleared l.node_pool pairs,
        refl,
        λ j. omega (arith, count-cleared l.node_pool pairs j leads, xsync.range-Once l.m j),
        λ j.
            lookup-cleared l.node_pool pairs j leads
            ∙ ap (node_value l.node_pool) (xsync.lookup-range j l.m)
            ∙ read_back l es m j,
      )
