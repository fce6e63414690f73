-- ===== src/Lru/Links.antt =====
-- Runs of nodes of lru.go that are linked both ways, and what writing one node does to a run.
use mappo.Prelude.{
  ℕ, ◌+◌, ◌≤◌, ◌<◌, ◌≡◌, ◌≢◌, refl, Option, some, List, [], ◌∷◌, ◌++◌, arith, if◌then◌else◌,
  nat_beq, ◌∙◌,
}
use mappo.Pairs.{to_nat}
use mappo.Time.{Int64}
use mappo.Lru.{Node}

-- What a linked node holds beside its key, and where it lies.
pub record Slot (V : Type 0) : Type 0 where
  pub index : ℕ
  pub value : V
  pub expiration : Int64

-- The nodes of a run, in order.
abbrev pub Cells : Type 0 → Type 0 → Type 0
Cells K V = List (K × Slot V)

-- What an index reads.
abbrev pub Reads : Type 0 → Type 0 → Type 0
Reads K V = ℕ → Option (Node K V)

module _ {K V : Type 0} where
  abbrev pub node_of : K × Slot V → Option ℕ → Option ℕ → Node K V
  node_of c p n = record {
    key = c.0;
    value = c.1.value;
    expiration = c.1.expiration;
    prev = p;
    next = n;
  }

  abbrev pub first : Cells K V → Option ℕ → Option ℕ
  first [] n = n
  first (c ∷ cs) n = some c.1.index

  abbrev pub last : Option ℕ → Cells K V → Option ℕ
  last p [] = p
  last p (c ∷ cs) = last (some c.1.index) cs

  -- How often an index stands in a run.
  abbrev pub times : ℕ → Cells K V → ℕ
  times i [] = 0
  times i (c ∷ cs) = to_nat (nat_beq c.1.index i) + times i cs

  abbrev pub update : Reads K V → ℕ → Node K V → Reads K V
  update at i node j = if nat_beq i j then some node else at j

  -- The nodes are linked in this order, from `p` before them to `n` behind them.
  abbrev pub Seg : Reads K V → Option ℕ → Cells K V → Option ℕ → Type 0
  Seg at p [] n = Unit
  Seg at p (c ∷ cs) n =
      (at c.1.index ≡ some (node_of c p (first cs n))) × Seg at (some c.1.index) cs n

  pub times-append : (i : ℕ) (a b : Cells K V) → times i (a ++ b) ≡ times i a + times i b
  times-append i [] b = omega arith
  times-append i (c ∷ a) b = omega (arith, times-append i a b)

  pub first-append : (a b : Cells K V) (n : Option ℕ) → first (a ++ b) n ≡ first a (first b n)
  first-append [] b n = refl
  first-append (c ∷ a) b n = refl

  pub last-append : (p : Option ℕ) (a b : Cells K V) → last p (a ++ b) ≡ last (last p a) b
  last-append p [] b = refl
  last-append p (c ∷ a) b = last-append (some c.1.index) a b

  update_ne : (at : Reads K V) (i j : ℕ) (node : Node K V) → i ≢ j → update at i node j ≡ at j
  update_ne at i j node h = ground arith

  times_apart :
      (q : ℕ) (c : K × Slot V) (cs : Cells K V)
      → times q (c ∷ cs) ≤ 1
      → 0 < times q cs
      → q ≢ c.1.index
  times_apart q c cs h p = ground arith

  -- A run is the same in memory that reads the same at its indices.
  pub Seg-ext :
      (at at' : Reads K V) (p : Option ℕ) (cs : Cells K V) (n : Option ℕ)
      → ((j : ℕ) → 0 < times j cs → at' j ≡ at j)
      → Seg at p cs n
      → Seg at' p cs n
  Seg-ext at at' p [] n h s = tt
  Seg-ext at at' p (c ∷ cs) n h s = (
    ground (arith, h c.1.index),
    Seg-ext at at' (some c.1.index) cs n (λ j q. h j (omega arith)) s.1,
  )

  -- Writing a node that is not in the run leaves the run alone.
  pub Seg-update :
      (at : Reads K V) (i : ℕ) (node : Node K V) (p : Option ℕ) (cs : Cells K V) (n : Option ℕ)
      → times i cs ≡ 0
      → Seg at p cs n
      → Seg (update at i node) p cs n
  Seg-update at i node p [] n h s = tt
  Seg-update at i node p (c ∷ cs) n h s =
      (ground arith, Seg-update at i node (some c.1.index) cs n (omega arith) s.1)

  pub Seg-append :
      (at : Reads K V) (p : Option ℕ) (a b : Cells K V) (n : Option ℕ)
      → Seg at p a (first b n)
      → Seg at (last p a) b n
      → Seg at p (a ++ b) n
  Seg-append at p [] b n s t = t
  Seg-append at p (c ∷ a) b n s t =
      (rw first-append s.0, Seg-append at (some c.1.index) a b n s.1 t)

  pub Seg-split :
      (at : Reads K V) (p : Option ℕ) (a b : Cells K V) (n : Option ℕ)
      → Seg at p (a ++ b) n
      → Seg at p a (first b n) × Seg at (last p a) b n
  Seg-split at p [] b n s = (tt, s)
  Seg-split at p (c ∷ a) b n s =
      let (t, u) = Seg-split at (some c.1.index) a b n s.1 in ((rw first-append at s.0, t), u)

  -- Rewriting the forward link of the last node of a run.
  pub relink_next :
      (at : Reads K V) (p : Option ℕ) (c : K × Slot V) (cs : Cells K V) (n n' : Option ℕ)
      → ((j : ℕ) → times j (c ∷ cs) ≤ 1)
      → Seg at p (c ∷ cs) n
      → (q : ℕ) × (node : Node K V) × (last p (c ∷ cs) ≡ some q)
        × (at q ≡ some node)
        × (0 < times q (c ∷ cs))
        × Seg (update at q (record node { next = n' })) p (c ∷ cs) n'
  relink_next at p c [] n n' once s =
      (c.1.index, node_of c p n, refl, s.0, ground arith, (ground arith, tt))
  relink_next at p c (d ∷ cs) n n' once s =
      let (q, node, end, reads, inside, t) =
        relink_next at (some c.1.index) d cs n n' (λ j. omega (arith, once j)) s.1 in
      (
        q,
        node,
        end,
        reads,
        omega arith,
        (update_ne at q c.1.index _ (times_apart q c (d ∷ cs) (once q) inside) ∙ s.0, t),
      )

  -- Rewriting the backward link of the first node of a run.
  pub relink_prev :
      (at : Reads K V) (p p' : Option ℕ) (c : K × Slot V) (cs : Cells K V) (n : Option ℕ)
      → times c.1.index cs ≡ 0
      → Seg at p (c ∷ cs) n
      → Seg (update at c.1.index (node_of c p' (first cs n))) p' (c ∷ cs) n
  relink_prev at p p' c cs n h s =
      (ground arith, Seg-update at c.1.index _ (some c.1.index) cs n h s.1)
