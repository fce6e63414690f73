-- ===== src/Cache/View.antt =====
-- What a reader of cache.go sees of a key at a time.
use mappo.Prelude.{
  ℕ, ◌+◌, ◌≤◌, ◌≡◌, refl, ap, sym, ◌∙◌, Option, none, some, true, if◌then◌else◌, Comparable, ◌==◌,
  eq_iff, ltb, nat_beq, ◌&&◌, ◌⊎◌, arith, Bool-cases, Option-cases, inl, inr,
}
use mappo.Cache.{Cache, Item, is_zero, has_expired, unix_nano, exp_after, modify, load}
use mappo.Cache.Combined.{live}
use mappo.Otter.{Otter, Pointer}
use mappo.Time.{Int64, is_positive}

-- An item that has expired stays expired.
pub has_expired_mono :
    (now later exp : ℕ) → now ≤ later → has_expired now exp ≡ true → has_expired later exp ≡ true
unfolding has_expired is_zero
has_expired_mono now later exp h e = ground arith

pub has_expired-exp_after :
    (now later : ℕ) (ttl : Int64)
    → has_expired later (exp_after now ttl) ≡ (is_positive ttl && ltb (now + ttl) later)
unfolding has_expired is_zero exp_after is_positive
has_expired-exp_after now later ttl = ground arith

module _ {V : Type 0} where
  -- Which items are live depends on their deadlines alone.
  pub live_same :
      (now : ℕ) (heap heap' : ℕ → Item V) (o : Option Pointer)
      → ((a : ℕ) → o ≡ some (some a) → (heap' a).exp ≡ (heap a).exp)
      → live now heap' o ≡ live now heap o
  unfolding live
  live_same now heap heap' none h = refl
  live_same now heap heap' (some none) h = refl
  live_same now heap heap' (some (some a)) h = rw (h a refl) refl

  -- What is not live now is not live later.
  pub live_later :
      (now later : ℕ) (heap : ℕ → Item V) (o : Option Pointer)
      → now ≤ later
      → live now heap o ≡ none
      → live later heap o ≡ none
  unfolding live
  live_later now later heap none h e = refl
  live_later now later heap (some none) h e = refl
  live_later now later heap (some (some a)) h e =
      ground (arith, has_expired_mono now later (heap a).exp)

  pub modify_self :
      (a : ℕ) (change : Item V → Item V) (heap : ℕ → Item V)
      → modify a change heap a ≡ change (heap a)
  unfolding modify
  modify_self a change heap = ground arith

  -- The item that `Load` returns is marked as used.
  abbrev pub marked_heap : ℕ → Pointer → (ℕ → Item V) → ℕ → Item V
  marked_heap now none heap = heap
  marked_heap now (some a) heap = modify a (λ it. record it { last_accessed = unix_nano now }) heap

  -- A change that leaves the deadline leaves it at every address.
  pub exp-modify :
      (a b : ℕ) (change : Item V → Item V) (heap : ℕ → Item V)
      → (change (heap b)).exp ≡ (heap b).exp
      → (modify a change heap b).exp ≡ (heap b).exp
  unfolding modify
  exp-modify a b change heap same = elim (Bool-cases (nat_beq a b)) [
    | inl e ↦ rw e same
    | inr e ↦ rw e refl
  ]

module _ {K : Type 0} ⦃key : Comparable K⦄ {otter : Otter K} {V : Type 0} where
  -- The item that a key has now, if it has one.
  unfoldable pub view : ℕ → K → Cache otter V → Pointer
  view now k c = if c.closed then none else live now c.heap (otter.get_if_present k c.inner)

  abbrev pub invalidated : K → Cache otter V → Cache otter V
  invalidated k c = record c { inner = otter.invalidate k c.inner }

  abbrev pub marked : ℕ → ℕ → Cache otter V → Cache otter V
  marked now a c = record c { heap = marked_heap now (some a) c.heap }

  -- `Load` finds nothing, or takes an entry away that has expired, or marks the item that it finds.
  pub load_cases :
      (now : ℕ) (k : K) (c : Cache otter V)
      → (((view now k c ≡ none) × (load now k c ≡ (none, c)))
          ⊎ ((view now k c ≡ none)
              × (live now c.heap (otter.get_if_present k c.inner) ≡ none)
              × (load now k c ≡ (none, invalidated k c))))
        ⊎ ((a : ℕ) × (view now k c ≡ some a) × (load now k c ≡ (some a, marked now a c)))
  unfolding load view live
  load_cases now k c = elim (Bool-cases c.closed) [
    | inl shut ↦ inl (inl (rw (view, shut) refl, simp (load, shut)))
    | inr opened ↦ elim (Option-cases (otter.get_if_present k c.inner)) [
      | inl e ↦ inl (inl (rw (view, opened, e) refl, simp (load, opened, e)))
      | inr (none, e) ↦ inl (inl (rw (view, opened, e) refl, simp (load, opened, e)))
      | inr (some a, e) ↦ elim (Bool-cases (has_expired now (c.heap a).exp)) [
        | inl dead ↦
            inl (
              inr
                (rw (view, opened, e, dead) refl, rw (e, dead) refl, simp (load, opened, e, dead)))
        | inr kept ↦ inr (a, rw (view, opened, e, kept) refl, simp (load, opened, e, kept))
      ]
    ]
  ]

  -- An entry that is gone is not seen, and one that was not seen is not missed.
  view-invalidated :
      (now later : ℕ) (k j : K) (c : Cache otter V)
      → now ≤ later
      → live now c.heap (otter.get_if_present k c.inner) ≡ none
      → view later j (invalidated k c) ≡ view later j c
  unfolding view live
  view-invalidated now later k j c h dead = elim (Bool-cases (k == j)) [
    | inl e ↦
        let is = (eq_iff k j).0 e in
        let gone : live later c.heap (otter.get_if_present j c.inner) ≡ none =
          live_later now later c.heap _ h
            (ap (λ i. live now c.heap (otter.get_if_present i c.inner)) (sym is) ∙ dead) in
        rw (view, otter.get-invalidate, e, gone) refl
    | inr e ↦ rw (view, otter.get-invalidate, e) refl
  ]

  view-marked :
      (now later a : ℕ) (j : K) (c : Cache otter V) → view later j (marked now a c) ≡ view later j c
  unfolding view
  view-marked now later a j c =
      ap (λ p. if c.closed then none else p)
        (live_same later c.heap _ (otter.get_if_present j c.inner)
          (λ b e. exp-modify a b (λ it. record it { last_accessed = unix_nano now }) c.heap refl))

  -- `Load` returns the item that the key has now, if it has one. The heap changes only in that item's
  -- mark of when it was used, and whatever is read of any key now or later is unchanged.
  pub load-view :
      (now later : ℕ) (k j : K) (c : Cache otter V)
      → now ≤ later
      → ((load now k c).0 ≡ view now k c)
        × ((load now k c).1.heap ≡ marked_heap now (view now k c) c.heap)
        × (view later j (load now k c).1 ≡ view later j c)
  load-view now later k j c h = elim (load_cases now k c) [
    | inl (inl (gone, run)) ↦ rw (gone, run) (refl, refl, refl)
    | inl (inr (gone, dead, run)) ↦
        rw (gone, run) (refl, refl, view-invalidated now later k j c h dead)
    | inr (a, there, run) ↦ rw (there, run) (refl, refl, view-marked now later a j c)
  ]

  pub view-load :
      (now later : ℕ) (k j : K) (c : Cache otter V)
      → now ≤ later
      → view later j (load now k c).1 ≡ view later j c
  view-load now later k j c h = let (_, _, same) = load-view now later k j c h in same
