-- ===== src/Lru/Linked.antt =====
-- Well-linked lists of lru.go's nodes, and what one write to the array does to a run of them.
use mappo.Prelude.{
  ℕ, ◌≤◌, ◌<◌, ◌≡◌, ◌≢◌, Option, none, some, List, ◌∷◌, ◌++◌, arith, if◌then◌else◌, nat_beq, length,
  get_elem?, set, get_elem?-set, length-set, ◌∙◌, Comparable,
}
use mappo.MapOf.{MapOf}
use mappo.Run.{ok}
use mappo.Lru.{Node, Lru, at, modify}
use mappo.Lru.Links.{Slot, Cells, first, last, times, update, Seg, Seg-ext, times-append}

pub if_self {ℓ} : {A : Type ℓ} (i : ℕ) (x y : A) → (if nat_beq i i then x else y) ≡ x
if_self i x y = ground arith

pub if_other {ℓ} : {A : Type ℓ} (i j : ℕ) (x y : A) → i ≢ j → (if nat_beq i j then x else y) ≡ y
if_other i j x y h = ground arith

module _ {K V : Type 0} where
  -- The node at an index, as a cell.
  abbrev pub cell_of : ℕ → Node K V → K × Slot V
  cell_of i node =
      (node.key, record { index = i; value = node.value; expiration = node.expiration })

  pub times_middle : (a b : Cells K V) (c : K × Slot V) → 0 < times c.1.index (a ++ c ∷ b)
  times_middle a b c = ground (arith, times-append c.1.index a (c ∷ b))

  pub times_around :
      (a b : Cells K V) (c : K × Slot V)
      → times c.1.index (a ++ c ∷ b) ≤ 1
      → (times c.1.index a ≡ 0) × (times c.1.index b ≡ 0)
  times_around a b c h = ground (arith, times-append c.1.index a (c ∷ b))

  pub at_of :
      (pool : List (Node K V)) (i : ℕ) (node : Node K V)
      → get_elem? pool i ≡ some node
      → at pool i ≡ ok node
  unfolding at
  at_of pool i node e = rw (e, at)

  pub modify_lem :
      (pool : List (Node K V)) (q : ℕ) (f : Node K V → Node K V) (node : Node K V)
      → get_elem? pool q ≡ some node
      → modify pool q f ≡ ok (set pool q (f node))
  unfolding modify
  modify_lem pool q f node h = rw (h, at)

  pub Seg-set :
      (pool : List (Node K V)) (q : ℕ) (node old : Node K V) (p : Option ℕ) (cs : Cells K V)
      (n : Option ℕ)
      → get_elem? pool q ≡ some old
      → Seg (update (get_elem? pool) q node) p cs n
      → Seg (get_elem? (set pool q node)) p cs n
  Seg-set pool q node old p cs n h =
      Seg-ext (update (get_elem? pool) q node) (get_elem? (set pool q node)) p cs n
        (λ j _. get_elem?-set pool q j node old h)

  -- A pool of the same length that reads the same at every index outside a run.
  pub record Outside (run : Cells K V) (pool pool' : List (Node K V)) : Type 0 where
    pub same_length : length pool' ≡ length pool
    pub same : (j : ℕ) → times j run ≡ 0 → get_elem? pool' j ≡ get_elem? pool j

  pub Outside-set :
      (run : Cells K V) (pool : List (Node K V)) (q : ℕ) (node old : Node K V)
      → get_elem? pool q ≡ some old
      → 0 < times q run
      → Outside run pool (set pool q node)
  Outside-set run pool q node old h p = record {
    same_length = length-set pool q node;
    same = λ j z. get_elem?-set pool q j node old h ∙ ground arith;
  }

  pub Outside-trans :
      (run : Cells K V) (pool pool' pool'' : List (Node K V))
      → Outside run pool pool'
      → Outside run pool' pool''
      → Outside run pool pool''
  Outside-trans run pool pool' pool'' h k = record {
    same_length = k.same_length ∙ h.same_length;
    same = λ j z. k.same j z ∙ h.same j z;
  }

module _ {K V : Type 0} ⦃key : Comparable K⦄ {xsync : MapOf K ℕ} where
  -- The head and the tail of the state are those of the run, whose nodes are distinct.
  pub record Linked (l : Lru xsync V) (cs : Cells K V) : Type 0 where
    pub links : Seg (get_elem? l.node_pool) none cs none
    pub head : l.head ≡ first cs none
    pub tail : l.tail ≡ last none cs
    pub distinct : (j : ℕ) → times j cs ≤ 1
