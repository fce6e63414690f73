-- ===== src/Cache/Entries.antt =====
-- Which entries a cache of cache.go holds after calls of its methods, while otter evicts entries and
-- the program changes items.
use mappo.Prelude.{
  ℕ, ◌≤◌, ◌<◌, ◌≡◌, refl, ap, sym, ◌∙◌, Option, none, some, Bool, true, false, if◌then◌else◌,
  Comparable, ◌==◌, eq_iff, ◌⊎◌, arith, Bool-cases, Option-cases, inl, inr,
}
use mathlib.Core.Option.{some-injective}
use mathlib.Core.Path.{subst}
use mappo.Cache.{
  Cache, Item, load, store, store_ttl, load_or_store, delete, load_and_delete, has_expired,
  take_current,
}
use mappo.Cache.Combined.{update_item, update_op, compute_op, kept}
use mappo.Cache.Stored.{load_or_store-view}
use mappo.Cache.View.{load_cases}
use mappo.Cache.Whole.{clear, close}
use mappo.Otter.{Otter, Pointer, write_op, cancel_op}
use mappo.Otter.Laws.{entry_after, get-compute}
use mappo.Time.{Int64}

-- An item that has been made.
abbrev pub Made : Pointer → ℕ → Type 0
Made p allocated = (a : ℕ) × (p ≡ some a) × (a < allocated)

module _ {V : Type 0} where
  -- The functions that are passed to `Compute` leave an item.
  update-Made :
      (now : ℕ) (heap : ℕ → Item V) (old : Option Pointer) (p : Pointer)
      → entry_after old (update_op now heap old) ≡ some p
      → old ≡ some p
  unfolding update_op
  update-Made now heap none p e = cc
  update-Made now heap (some none) p e = e
  update-Made now heap (some (some b)) p e = ground (arith)

  take-Made :
      (now : ℕ) (heap : ℕ → Item V) (old : Option Pointer) (p : Pointer)
      → entry_after old (take_current now heap old).1 ≡ some p
      → old ≡ some p
  unfolding take_current
  take-Made now heap none p e = cc
  take-Made now heap (some none) p e = e
  take-Made now heap (some (some b)) p e = elim (Bool-cases (has_expired now (heap b).exp)) [
    | inl dead ↦ absurd (let no : none ≡ some p = rw dead at e in cc)
    | inr kept ↦ absurd (let no : none ≡ some p = rw kept at e in cc)
  ]

  pub compute-Made :
      (now : ℕ) (heap : ℕ → Item V) (a : ℕ) (old : Option Pointer) (p : Pointer)
      → entry_after old (compute_op now heap a old) ≡ some p
      → (old ≡ some p) ⊎ (p ≡ some a)
  unfolding compute_op
  compute-Made now heap a old p e = elim (Option-cases (kept now heap old)) [
    | inl missing ↦
        let wrote : compute_op now heap a old ≡ (some a, write_op) =
          rw (compute_op, missing) refl in
        inr (sym (some-injective _ _ (sym (ap (entry_after old) wrote) ∙ e)))
    | inr (b, found) ↦
        let left : compute_op now heap a old ≡ (some b, cancel_op) = rw (compute_op, found) refl in
        inl (sym (ap (entry_after old) left) ∙ e)
  ]

module _ {K : Type 0} ⦃key : Comparable K⦄ {otter : Otter K} {V : Type 0} where
  -- Every entry has an item; none has a nil pointer.
  pub record HasItems (c : Cache otter V) : Type 0 where
    pub entries :
        (k : K) (p : Pointer) → otter.get_if_present k c.inner ≡ some p → Made p c.allocated

  -- What is there after a call was there before, or has an item.
  pub record From (c d : Cache otter V) : Type 0 where
    pub grows : c.allocated ≤ d.allocated
    pub closes : c.closed ≡ true → d.closed ≡ true
    pub entries :
        (k : K) (p : Pointer)
        → otter.get_if_present k d.inner ≡ some p
        → (otter.get_if_present k c.inner ≡ some p) ⊎ Made p d.allocated

  pub From-HasItems : (c d : Cache otter V) → From c d → HasItems c → HasItems d
  From-HasItems c d f h = record {
    entries = λ k p e. elim (f.entries k p e) [
      | inl old ↦ let (a, is, made) = h.entries k p old in (a, is, omega (arith, f.grows))
      | inr new ↦ new
    ];
  }

  pub From-same : (c : Cache otter V) → From c c
  From-same c = record { grows = omega arith; closes = λ e. e; entries = λ k p e. inl e }

  pub From-trans : (c d e : Cache otter V) → From c d → From d e → From c e
  From-trans c d e f g = record {
    grows = omega (arith, f.grows, g.grows);
    closes = λ shut. g.closes (f.closes shut);
    entries = λ k p q. elim (g.entries k p q) [
      | inl old ↦ elim (f.entries k p old) [
        | inl older ↦ inl older
        | inr (a, is, made) ↦ inr (a, is, omega (arith, g.grows))
      ]
      | inr new ↦ inr new
    ];
  }

  -- One entry at most changes: it goes, or has an item.
  pub From-entry :
      (k : K) (o : Option Pointer) (c d : Cache otter V)
      → c.allocated ≤ d.allocated
      → (c.closed ≡ true → d.closed ≡ true)
      → ((j : K)
          → otter.get_if_present j d.inner ≡ (if k == j then o else otter.get_if_present j c.inner))
      → ((p : Pointer)
          → o ≡ some p
          → (otter.get_if_present k c.inner ≡ some p) ⊎ Made p d.allocated)
      → From c d
  From-entry k o c d grows closes reads entry = record {
    grows = grows;
    closes = closes;
    entries = λ j p e. elim (Bool-cases (k == j)) [
      | inl same ↦
          let is : o ≡ some p = rw same at (sym (reads j) ∙ e) in
          subst (λ i. (otter.get_if_present i c.inner ≡ some p) ⊎ Made p d.allocated)
            ((eq_iff k j).0 same) (entry p is)
      | inr other ↦ inl (rw other at (sym (reads j) ∙ e))
    ];
  }

  pub load-From : (now : ℕ) (k : K) (c : Cache otter V) → From c (load now k c).1
  load-From now k c = elim (load_cases now k c) [
    | inl (inl (_, run)) ↦ rw run (From-same c)
    | inl (inr (_, _, run)) ↦ rw run (
        From-entry k none c _ (omega arith) (λ e. e) (λ j. otter.get-invalidate k j c.inner)
          (λ p e. cc))
    | inr (a, _, run) ↦
        rw run (record { grows = omega arith; closes = λ e. e; entries = λ j p e. inl e })
  ]

  From-if : (b : Bool) (c d : Cache otter V) → From c d → From c (if b then c else d)
  From-if true c d f = From-same c
  From-if false c d f = f

  pub From-if_pair :
      {A : Type 0} (b : Bool) (x y : A) (c d : Cache otter V)
      → From c d
      → (let r : A × Cache otter V = if b then (x, c) else (y, d) in From c r.1)
  From-if_pair true x y c d f = From-same c
  From-if_pair false x y c d f = f

  -- The entry of one key is written.
  pub set-From :
      (k : K) (a : ℕ) (c d : Cache otter V)
      → a < c.allocated
      → c.allocated ≤ d.allocated
      → (c.closed ≡ true → d.closed ≡ true)
      → d.inner ≡ otter.set k (some a) c.inner
      → From c d
  set-From k a c d made grows closes is =
      From-entry k (some (some a)) c d grows closes
        (λ j. ap (otter.get_if_present j) is ∙ otter.get-set k j (some a) c.inner)
        (λ p e. inr (a, sym (some-injective _ _ e), omega arith))

  pub store-From :
      (k : K) (a : ℕ) (c : Cache otter V) → a < c.allocated → From c (store k (some a) c)
  unfolding store
  store-From k a c made = From-if c.closed c _ (set-From k a c _ made (omega arith) (λ e. e) refl)

  pub store_ttl-From :
      (now : ℕ) (k : K) (a : ℕ) (ttl : Int64) (c : Cache otter V)
      → a < c.allocated
      → From c (store_ttl now k (some a) ttl c)
  unfolding store_ttl
  store_ttl-From now k a ttl c made =
      From-if c.closed c _ (set-From k a c _ made (omega arith) (λ e. e) refl)

  pub load_or_store-From :
      (now : ℕ) (k : K) (a : ℕ) (c : Cache otter V)
      → a < c.allocated
      → From c (load_or_store now k (some a) c).1
  unfolding load_or_store
  load_or_store-From now k a c made = elim (Bool-cases c.closed) [
    | inl shut ↦ simp (load_or_store, shut) (From-same c)
    | inr opened ↦ elim (load_or_store-view now k a c opened) [
      | inl (b, _, run) ↦ rw run (From-same c)
      | inr (_, run) ↦ rw run (set-From k a c _ made (omega arith) (λ e. e) refl)
    ]
  ]

  pub delete-From : (k : K) (c : Cache otter V) → From c (delete k c)
  unfolding delete
  delete-From k c = From-if c.closed c _ (
      From-entry k none c _ (omega arith) (λ e. e) (λ j. otter.get-invalidate k j c.inner)
        (λ p e. cc))

  pub load_and_delete-From :
      (now : ℕ) (k : K) (c : Cache otter V) → From c (load_and_delete now k c).1
  unfolding load_and_delete
  load_and_delete-From now k c = From-if_pair c.closed _ _ c _ (
      From-entry k _ c _ (omega arith) (λ e. e)
        (λ j. get-compute otter k j (λ current. (take_current now c.heap current).1) c.inner)
        (λ p e. inl (take-Made now c.heap (otter.get_if_present k c.inner) p e)))

  pub update_item-From :
      (now : ℕ) (k : K) (change : Item V → Item V) (c : Cache otter V)
      → From c (update_item now k change c).1
  unfolding update_item
  update_item-From now k change c = From-if_pair c.closed _ _ c _ (
      From-entry k _ c _ (omega arith) (λ e. e)
        (λ j. get-compute otter k j (update_op now c.heap) c.inner)
        (λ p e. inl (update-Made now c.heap (otter.get_if_present k c.inner) p e)))

  pub empty-From :
      (c d : Cache otter V)
      → c.allocated ≤ d.allocated
      → (c.closed ≡ true → d.closed ≡ true)
      → ((k : K) → otter.get_if_present k d.inner ≡ none)
      → From c d
  empty-From c d grows closes none_left = record {
    grows = grows;
    closes = closes;
    entries = λ k p e. absurd (let gone = none_left k in cc);
  }

  pub clear-From : (c : Cache otter V) → From c (clear c)
  unfolding clear
  clear-From c =
      From-if c.closed c _
        (empty-From c _ (omega arith) (λ e. e) (λ k. otter.get-invalidate_all k c.inner))

  pub close-From : (c : Cache otter V) → From c (close c)
  unfolding close
  close-From c =
      From-if c.closed c _
        (empty-From c _ (omega arith) (λ e. refl) (λ k. otter.get-invalidate_all k c.inner))
