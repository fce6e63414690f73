-- ===== src/Cache/Stored.antt =====
-- The writes of cache.go as a reader sees them.
use mappo.Prelude.{
  ℕ, ◌+◌, ◌≤◌, ◌≡◌, ◌≢◌, refl, ap, sym, ◌∙◌, Option, none, some, Bool, true, false, if◌then◌else◌,
  Comparable, ◌==◌, eq_iff, ltb, nat_beq, is_some, ◌&&◌, ◌||◌, ◌⊎◌, arith, Bool-cases, Option-cases,
  inl, inr,
}
use mappo.Cache.{
  Cache, Item, has_expired, exp_after, modify, store_ttl, load_or_store, replace_expired,
  load_and_delete, take_current,
}
use mappo.Cache.Combined.{live, update_item, update_op, refresh_ttl}
use mappo.Cache.View.{view, live_same, live_later, modify_self, has_expired-exp_after}
use mappo.Otter.Laws.{entry_after, get-compute}
use mappo.Otter.{Otter, Pointer}
use mappo.Time.{Int64, is_positive}

-- Whether an entry has the item at `a`.
abbrev pub has_item : ℕ → Option Pointer → Bool
has_item a none = false
has_item a (some none) = false
has_item a (some (some b)) = nat_beq a b

has_item_iff : (a : ℕ) (o : Option Pointer) → has_item a o ≡ true → o ≡ some (some a)
unfolding has_item
has_item_iff a none e = cc
has_item_iff a (some none) e = cc
has_item_iff a (some (some b)) e =
    let is : b ≡ a = ground (arith, e) in ap (λ (n : ℕ). some (some n)) is

has_item_self : (a : ℕ) → has_item a (some (some a)) ≡ true
unfolding has_item
has_item_self a = ground arith

module _ {V : Type 0} where
  -- An item with a new deadline.
  pub live-exp_after :
      (now later a : ℕ) (ttl : Int64) (heap : ℕ → Item V)
      → live later (modify a (λ it. record it { exp = exp_after now ttl }) heap) (some (some a))
        ≡ (if is_positive ttl && ltb (now + ttl) later then none else some a)
  unfolding live
  live-exp_after now later a ttl heap =
      let new = modify_self a (λ it. record it { exp = exp_after now ttl }) heap in
      ap (λ (b : Bool). if b then none else some a)
        (ap (λ it. has_expired later it.exp) new ∙ has_expired-exp_after now later ttl)

  -- A change at `a` is not seen through another pointer.
  pub live-modify_other :
      (later a : ℕ) (change : Item V → Item V) (heap : ℕ → Item V) (o : Option Pointer)
      → o ≢ some (some a)
      → live later (modify a change heap) o ≡ live later heap o
  unfolding modify
  live-modify_other later a change heap o apart =
      live_same later heap (modify a change heap) o (λ b e. elim (Bool-cases (nat_beq a b)) [
        | inl same ↦
            let is : b ≡ a = ground (arith, same) in
            absurd (apart (e ∙ ap (λ (n : ℕ). some (some n)) is))
        | inr other ↦ rw (modify, other) refl
      ])

  -- A new deadline is seen in the entries that have the item, and in no other.
  live-renewed :
      (now later a : ℕ) (ttl : Int64) (heap : ℕ → Item V) (o : Option Pointer)
      → live later (modify a (λ it. record it { exp = exp_after now ttl }) heap) o ≡ (
          if has_item a o
          then (if is_positive ttl && ltb (now + ttl) later then none else some a)
          else live later heap o)
  live-renewed now later a ttl heap o =
      let change = λ (it : Item V). record it { exp = exp_after now ttl } in
      elim (Bool-cases (has_item a o)) [
        | inl e ↦ rw e (
            ap (live later (modify a change heap)) (has_item_iff a o e)
            ∙ live-exp_after now later a ttl heap)
        | inr e ↦ rw e (
            live-modify_other later a change heap o (λ is.
              let yes = ap (has_item a) is ∙ has_item_self a in
              absurd (let no = sym e ∙ yes in cc)))
      ]

  deleted_is :
      (now : ℕ) (heap : ℕ → Item V) (old : Option Pointer)
      → (take_current now heap old).0 ≡ live now heap old
  unfolding take_current live
  deleted_is now heap none = refl
  deleted_is now heap (some none) = refl
  deleted_is now heap (some (some a)) = ground (arith)

  gone_later :
      (now later : ℕ) (heap : ℕ → Item V) (old : Option Pointer)
      → now ≤ later
      → live later heap (entry_after old (take_current now heap old).1) ≡ none
  unfolding take_current live
  gone_later now later heap none h = refl
  gone_later now later heap (some none) h = refl
  gone_later now later heap (some (some a)) h = elim (Bool-cases (has_expired now (heap a).exp)) [
    | inl dead ↦ rw dead refl
    | inr kept ↦ rw kept refl
  ]

module _ {V : Type 0} where
  same_entry :
      (now : ℕ) (heap : ℕ → Item V) (old : Option Pointer) (a : ℕ)
      → live now heap old ≡ some a
      → (b : Bool) (other : Option Pointer) → (b ≡ true → old ≡ other)
      → (if b then entry_after old (update_op now heap old) else other) ≡ other
  unfolding live update_op
  same_entry now heap old a there false other e = refl
  same_entry now heap none a there true other e = cc
  same_entry now heap (some none) a there true other e = cc
  same_entry now heap (some (some b)) a there true other e =
      elim (Bool-cases (has_expired now (heap b).exp)) [
        | inl dead ↦ absurd (let no : none ≡ some a = rw dead at there in cc)
        | inr kept ↦ rw kept (e refl)
      ]

  dead_entry :
      (now later : ℕ) (heap : ℕ → Item V) (old : Option Pointer)
      → now ≤ later
      → live now heap old ≡ none
      → live later heap (entry_after old (update_op now heap old)) ≡ live later heap old
  unfolding live update_op
  dead_entry now later heap none h dead = refl
  dead_entry now later heap (some none) h dead = refl
  dead_entry now later heap (some (some b)) h dead =
      elim (Bool-cases (has_expired now (heap b).exp)) [
        | inl gone ↦ rw gone (sym (live_later now later heap (some (some b)) h dead))
        | inr kept ↦ absurd (let no : some b ≡ none = rw kept at dead in cc)
      ]

-- What is read after a write of one key.
by_key :
    {A B : Type 0} (b : Bool) (f : A → B) (x y : A) (z : B)
    → f x ≡ z
    → f (if b then x else y) ≡ (if b then z else f y)
by_key true f x y z e = e
by_key false f x y z e = refl

module _ {K : Type 0} ⦃key : Comparable K⦄ {otter : Otter K} {V : Type 0} where
  -- `StoreTTL` in a cache that is not closed: the key, and every key whose entry is the same item,
  -- has the item until its time to live is over, or for good; all else is read as before.
  pub view-store_ttl :
      (now later : ℕ) (k j : K) (a : ℕ) (ttl : Int64) (c : Cache otter V)
      → c.closed ≡ false
      → view later j (store_ttl now k (some a) ttl c) ≡ (
          if k == j || has_item a (otter.get_if_present j c.inner)
          then (if is_positive ttl && ltb (now + ttl) later then none else some a)
          else view later j c)
  unfolding view store_ttl
  view-store_ttl now later k j a ttl c opened = elim (Bool-cases (k == j)) [
    | inl e ↦ rw (view, store_ttl, opened, otter.get-set, e) (live-exp_after now later a ttl c.heap)
    | inr e ↦
        rw (view, store_ttl, opened, otter.get-set, e)
          (live-renewed now later a ttl c.heap (otter.get_if_present j c.inner))
  ]

  -- `LoadOrStore` in a cache that is not closed returns the item that the key has now, with true, and
  -- changes nothing; if the key has none, it puts its own item under the key and returns that, with
  -- false.
  pub load_or_store-view :
      (now : ℕ) (k : K) (a : ℕ) (c : Cache otter V)
      → c.closed ≡ false
      → ((b : ℕ) × (view now k c ≡ some b) × (load_or_store now k (some a) c ≡ ((some b, true), c)))
        ⊎ ((view now k c ≡ none)
            × (load_or_store now k (some a) c
                ≡ ((some a, false), record c { inner = otter.set k (some a) c.inner })))
  unfolding view load_or_store live replace_expired
  load_or_store-view now k a c opened =
      let first = otter.set_if_absent_lem k (some a) c.inner in
      let second = otter.compute_lem k (replace_expired now c.heap a) c.inner in
      elim (Option-cases (otter.get_if_present k c.inner)) [
        | inl e ↦ inr (rw (view, opened, e) refl, simp (load_or_store, opened, first, e))
        | inr (none, e) ↦ inr (rw (view, opened, e) refl, simp (load_or_store, opened, first, e))
        | inr (some b, e) ↦ elim (Bool-cases (has_expired now (c.heap b).exp)) [
          | inl dead ↦
              let same : nat_beq a a ≡ true = ground arith in
              inr (
                rw (view, opened, e, dead) refl,
                simp (load_or_store, opened, first, e, dead, second, replace_expired, same),
              )
          | inr kept ↦ inl (
            b,
            rw (view, opened, e, kept) refl,
            simp (load_or_store, opened, first, e, kept, second, replace_expired)
                (ap (λ shut. ((some b, true), record c { closed = shut })) (sym opened)),
          )
        ]
      ]

  -- `LoadAndDelete` in a cache that is not closed.
  pub load_and_delete-view :
      (now later : ℕ) (k j : K) (c : Cache otter V)
      → c.closed ≡ false
      → now ≤ later
      → ((load_and_delete now k c).0 ≡ (view now k c, is_some (view now k c)))
        × (view later j (load_and_delete now k c).1 ≡ (if k == j then none else view later j c))
  unfolding view load_and_delete
  load_and_delete-view now later k j c opened h =
      let old = otter.get_if_present k c.inner in
      let fn = λ (current : Option Pointer). (take_current now c.heap current).1 in
      (
        simp (load_and_delete, view, opened) (ap (λ p. (p, is_some p)) (deleted_is now c.heap old)),
        simp (load_and_delete, view, opened)
            (ap (live later c.heap) (get-compute otter k j fn c.inner)
              ∙ by_key (k == j) (live later c.heap) _ _ _ (gone_later now later c.heap old h)),
      )

  -- What `Compute` leaves when the item is updated.
  get-update :
      (now : ℕ) (k j : K) (c : Cache otter V) (a : ℕ)
      → live now c.heap (otter.get_if_present k c.inner) ≡ some a
      → otter.get_if_present j (otter.compute k (update_op now c.heap) c.inner).1
        ≡ otter.get_if_present j c.inner
  get-update now k j c a there =
      get-compute otter k j (update_op now c.heap) c.inner
      ∙ same_entry now c.heap (otter.get_if_present k c.inner) a there (k == j)
          (otter.get_if_present j c.inner)
          (λ e. ap (λ i. otter.get_if_present i c.inner) ((eq_iff k j).0 e))

  unseen :
      (now later : ℕ) (k j : K) (c : Cache otter V)
      → now ≤ later
      → live now c.heap (otter.get_if_present k c.inner) ≡ none
      → live later c.heap (
          if k == j
          then entry_after
              (otter.get_if_present k c.inner)
              (update_op now c.heap (otter.get_if_present k c.inner))
          else otter.get_if_present j c.inner)
        ≡ live later c.heap (otter.get_if_present j c.inner)
  unseen now later k j c h gone = elim (Bool-cases (k == j)) [
    | inl e ↦ rw e (
        dead_entry now later c.heap (otter.get_if_present k c.inner) h gone
        ∙ ap (λ i. live later c.heap (otter.get_if_present i c.inner)) ((eq_iff k j).0 e))
    | inr e ↦ rw e refl
  ]

  -- `RefreshTTL` in a cache that is not closed tells whether the key has an item now. If it has, the
  -- item gets the new deadline for every key that has it; all else is read as before.
  pub refresh_ttl-view :
      (now later : ℕ) (k j : K) (ttl : Int64) (c : Cache otter V)
      → c.closed ≡ false
      → now ≤ later
      → ((view now k c ≡ none)
          × ((refresh_ttl now k ttl c).0 ≡ false)
          × (view later j (refresh_ttl now k ttl c).1 ≡ view later j c))
        ⊎ ((a : ℕ) × (view now k c ≡ some a)
            × ((refresh_ttl now k ttl c).0 ≡ true)
            × (view later j (refresh_ttl now k ttl c).1 ≡ (
                if has_item a (otter.get_if_present j c.inner)
                then (if is_positive ttl && ltb (now + ttl) later then none else some a)
                else view later j c)))
  unfolding view refresh_ttl update_item
  refresh_ttl-view now later k j ttl c opened h =
      let old = otter.get_if_present k c.inner in
      elim (Option-cases (live now c.heap old)) [
        | inl gone ↦ inl (
          simp (view, opened, gone),
          simp (refresh_ttl, opened, gone),
          simp (refresh_ttl, view, opened, gone)
              (ap (live later c.heap) (get-compute otter k j (update_op now c.heap) c.inner)
                ∙ unseen now later k j c h gone),
        )
        | inr (a, there) ↦ inr (
          a,
          simp (view, opened, there),
          simp (refresh_ttl, opened, there),
          simp (refresh_ttl, view, opened, there)
              (ap (live later (modify a (λ it. record it { exp = exp_after now ttl }) c.heap))
                  (get-update now k j c a there)
                ∙ live-renewed now later a ttl c.heap (otter.get_if_present j c.inner)),
        )
      ]
