-- ===== src/Ordered/Holds.antt =====
-- The invariant of ordred.go's state: the list and `items` lead to the same elements, no two of
-- them at one address, and the pool has addresses that neither leads to.
use mappo.Prelude.{
  ℕ, ◌+◌, ◌≤◌, ◌<◌, ◌≡◌, ◌∙◌, Option, none, some, List, [], ◌∷◌, ◌++◌, map, arith, nat_beq, ltb,
  Comparable, nat_comparable,
}
use mappo.Pairs.{to_nat, uses, lookup, count, Once}
use mappo.MapOf.{MapOf}
use mappo.Ordered.{OrderedElement, Ordered}

-- Where an element is, and what it holds.
pub record Cell (V : Type 0) : Type 0 where
  pub address : ℕ
  pub element : ℕ
  pub value : V

abbrev pub Cells : Type 0 → Type 0 → Type 0
Cells K V = List (K × Cell V)

abbrev pub address_of : {V : Type 0} → Option (Cell V) → Option ℕ
address_of none = none
address_of (some c) = some c.address

module _ {K V : Type 0} where
  -- How many cells are at the address.
  abbrev pub held : ℕ → Cells K V → ℕ
  held i [] = 0
  held i (c ∷ cs) = to_nat (nat_beq c.1.address i) + held i cs

  abbrev pub place : K × Cell V → ℕ × ℕ
  place c = (c.1.element, c.1.address)

  abbrev pub places : Cells K V → List (ℕ × ℕ)
  places cs = map place cs

  abbrev pub entry : K × Cell V → K × V
  entry c = (c.0, c.1.value)

  abbrev pub entries : Cells K V → List (K × V)
  entries cs = map entry cs

  abbrev pub stored : K × Cell V → OrderedElement K V
  stored c = record { key = c.0; value = c.1.value; element = some c.1.element }

  abbrev pub Stored : (ℕ → OrderedElement K V) → Cells K V → Type 0
  Stored heap [] = Unit
  Stored heap (c ∷ cs) = (heap c.1.address ≡ stored c) × Stored heap cs

  pub held-append : (i : ℕ) (a b : Cells K V) → held i (a ++ b) ≡ held i a + held i b
  held-append i [] b = omega arith
  held-append i (c ∷ a) b = omega (arith, held-append i a b)

  pub Stored-ext :
      (heap heap' : ℕ → OrderedElement K V) (cs : Cells K V)
      → ((i : ℕ) → 0 < held i cs → heap' i ≡ heap i)
      → Stored heap cs
      → Stored heap' cs
  Stored-ext heap heap' [] same s = tt
  Stored-ext heap heap' (c ∷ cs) same (s, rest) = (
    same c.1.address (ground arith) ∙ s,
    Stored-ext heap heap' cs (λ i q. same i (omega arith)) rest,
  )

  pub Stored-append :
      (heap : ℕ → OrderedElement K V) (a b : Cells K V)
      → Stored heap a
      → Stored heap b
      → Stored heap (a ++ b)
  Stored-append heap [] b s t = t
  Stored-append heap (c ∷ a) b (s, rest) t = (s, Stored-append heap a b rest t)

  pub Stored-split :
      (heap : ℕ → OrderedElement K V) (a b : Cells K V)
      → Stored heap (a ++ b)
      → Stored heap a × Stored heap b
  Stored-split heap [] b s = (tt, s)
  Stored-split heap (c ∷ a) b (s, rest) = let (t, u) = Stored-split heap a b rest in ((s, t), u)

module _ {K V : Type 0} ⦃key : Comparable K⦄ {xsync : MapOf K ℕ} where
  -- The list leads to the cells `cs`, in their order.
  pub record Kept (o : Ordered xsync V) (cs : Cells K V) : Type 0 where
    pub at : Stored o.heap cs
    pub order : o.order.elements ≡ places cs
    pub elements : (i : ℕ) → count i (places cs) ≤ to_nat (ltb i o.order.fresh)
    pub addresses : (i : ℕ) → held i cs + uses i o.pool ≤ to_nat (ltb i o.allocated)
    pub once : Once cs

  -- So does `items`.
  pub record Holds (o : Ordered xsync V) (cs : Cells K V) : Type 0 where
    pub kept : Kept o cs
    pub maps : (k : K) → xsync.load k o.items ≡ address_of (lookup k cs)

  -- The map stands for these pairs, in this order.
  pub record Models (o : Ordered xsync V) (es : List (K × V)) : Type 0 where
    pub cells : Cells K V
    pub holds : Holds o cells
    pub shows : entries cells ≡ es
