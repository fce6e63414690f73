-- ===== src/Cache/Fresh.antt =====
-- A new item of cache.go, put under a key after a `Load` of it.
use mappo.Prelude.{
  ℕ, ◌+◌, ◌≤◌, ◌≡◌, ◌≢◌, refl, ap, sym, ◌∙◌, Option, none, some, Bool, true, false, if◌then◌else◌,
  Comparable, ◌==◌, ltb, nat_beq, ◌&&◌, arith, Bool-cases, inl, inr,
}
use mathlib.Core.Option.{some-injective}
use mappo.Cache.{Cache, Item, has_expired, exp_after, modify, new_item, load, unix_nano}
use mappo.Cache.Combined.{live}
use mappo.Cache.Entries.{HasItems, From-HasItems, load-From}
use mappo.Cache.Stored.{live-modify_other}
use mappo.Cache.View.{view, load_cases, view-load, modify_self, has_expired-exp_after, live_later}
use mappo.Otter.{Otter, Pointer}
use mappo.Time.{Int64, is_positive}

-- What is read after a write of one key.
by_cases :
    {A B : Type 0} (b : Bool) (f : A → B) (x y : A) (z w : B)
    → f x ≡ z
    → f y ≡ w
    → f (if b then x else y) ≡ (if b then z else w)
by_cases true f x y z w e e' = e
by_cases false f x y z w e e' = e'

module _ {V : Type 0} where
  value-modify :
      (a b : ℕ) (t : Int64) (heap : ℕ → Item V)
      → (modify a (λ it. record it { last_accessed = t }) heap b).value ≡ (heap b).value
  unfolding modify
  value-modify a b t heap = elim (Bool-cases (nat_beq a b)) [
    | inl e ↦ rw e refl
    | inr e ↦ rw e refl
  ]

module _ {K : Type 0} ⦃key : Comparable K⦄ {otter : Otter K} {V : Type 0} where
  -- The cache after a new item was put under the key.
  pub record Fresh (k : K) (value : Option V) (now : ℕ) (ttl : Int64) (c d : Cache otter V)
      : Type 0 where
    pub opened : d.closed ≡ false
    pub heap :
        d.heap
        ≡ modify c.allocated
            (λ it. record { value = value; last_accessed = 0; exp = exp_after now ttl })
            c.heap
    pub entries :
        (j : K)
        → otter.get_if_present j d.inner
          ≡ (if k == j then some (some c.allocated) else otter.get_if_present j c.inner)

  -- No entry has the item that is made next.
  unused :
      (j : K) (c : Cache otter V)
      → HasItems c
      → otter.get_if_present j c.inner ≢ some (some c.allocated)
  unused j c h e =
      let (a, is, made) = h.entries j (some c.allocated) e in
      absurd (omega (arith, some-injective _ _ is))

  pub view_opened :
      (now : ℕ) (k : K) (c : Cache otter V)
      → c.closed ≡ false
      → view now k c ≡ live now c.heap (otter.get_if_present k c.inner)
  unfolding view
  view_opened now k c opened = rw (view, opened) refl

  -- The key has a new item with the value, until its time to live is over, if it has one; other keys
  -- are read at that time as before.
  abbrev pub Puts : K → Option V → ℕ → Int64 → ℕ → K → Cache otter V → Cache otter V → Type 0
  Puts k value now ttl later j c d =
      ((d.heap c.allocated).value ≡ value)
      × (view later j d ≡ (
          if k == j
          then (if is_positive ttl && ltb (now + ttl) later then none else some c.allocated)
          else view later j c))

  Fresh-Puts :
      (k j : K) (value : Option V) (now later : ℕ) (ttl : Int64) (c d : Cache otter V)
      → c.closed ≡ false
      → HasItems c
      → Fresh k value now ttl c d
      → Puts k value now ttl later j c d
  unfolding live
  Fresh-Puts k j value now later ttl c d opened h f =
      let new = λ (it : Item V).
        (let x : Item V = record { value = value; last_accessed = 0; exp = exp_after now ttl } in
          x) in
      let here = ap (λ g. g c.allocated) f.heap ∙ modify_self c.allocated new c.heap in
      let own : live later d.heap (some (some c.allocated))
          ≡ (if is_positive ttl && ltb (now + ttl) later then none else some c.allocated) =
        ap (λ (b : Bool). if b then none else some c.allocated)
          (ap (λ it. has_expired later it.exp) here ∙ has_expired-exp_after now later ttl) in
      let other =
        ap (λ g. live later g (otter.get_if_present j c.inner)) f.heap
        ∙ live-modify_other later c.allocated new c.heap (otter.get_if_present j c.inner)
            (unused j c h)
        ∙ sym (view_opened later j c opened) in
      (
        ap (λ it. it.value) here,
        view_opened later j d f.opened
            ∙ ap (live later d.heap) (f.entries j)
            ∙ by_cases (k == j) (live later d.heap) _ _ _ _ own other,
      )

  pub load-opened :
      (now : ℕ) (k : K) (c : Cache otter V)
      → c.closed ≡ false
      → ((load now k c).1.closed ≡ false) × ((load now k c).1.allocated ≡ c.allocated)
  load-opened now k c opened = elim (load_cases now k c) [
    | inl (inl (_, run)) ↦ rw run (opened, refl)
    | inl (inr (_, _, run)) ↦ rw run (opened, refl)
    | inr (a, _, run) ↦ rw run (opened, refl)
  ]

  pub Puts-after_load :
      (now then_now later : ℕ) (k j : K) (value : Option V) (ttl : Int64) (c d : Cache otter V)
      → c.closed ≡ false
      → HasItems c
      → now ≤ later
      → Fresh k value then_now ttl (load now k c).1 d
      → Puts k value then_now ttl later j c d
  Puts-after_load now then_now later k j value ttl c d opened h q f =
      let c₁ = (load now k c).1 in
      let after = λ (n : ℕ) (p : Pointer).
        (if k == j
          then (if is_positive ttl && ltb (then_now + ttl) later then none else some n)
          else p) in
      let (open₁, next) = load-opened now k c opened in
      let (stored, read) =
        Fresh-Puts k j value then_now later ttl c₁ d open₁
          (From-HasItems c c₁ (load-From now k c) h) f in
      (
        ap (λ n. (d.heap n).value) (sym next) ∙ stored,
        read
            ∙ ap (λ (n : ℕ). after n (view later j c₁)) next
            ∙ ap (after c.allocated) (view-load now later k j c q),
      )

  pub value-load :
      (now : ℕ) (k : K) (b : ℕ) (c : Cache otter V)
      → ((load now k c).1.heap b).value ≡ (c.heap b).value
  value-load now k b c = elim (load_cases now k c) [
    | inl (inl (_, run)) ↦ rw run refl
    | inl (inr (_, _, run)) ↦ rw run refl
    | inr (a, _, run) ↦ rw run (value-modify a b (unix_nano now) c.heap)
  ]

  -- A new item, which no entry has, is not seen.
  pub view-new_item :
      (now later then_now : ℕ) (k : K) (value : Option V) (ttl : Int64) (c : Cache otter V)
      → c.closed ≡ false
      → HasItems c
      → now ≤ later
      → view now k c ≡ none
      → view later k (new_item value (exp_after then_now ttl) (load now k c).1).1 ≡ none
  unfolding new_item
  view-new_item now later then_now k value ttl c opened h q gone =
      let c₁ = (load now k c).1 in
      let (open₁, _) = load-opened now k c opened in
      let has = From-HasItems c c₁ (load-From now k c) h in
      view_opened later k (new_item value (exp_after then_now ttl) c₁).1 open₁
      ∙ live-modify_other later c₁.allocated _ c₁.heap (otter.get_if_present k c₁.inner)
          (unused k c₁ has)
      ∙ sym (view_opened later k c₁ open₁)
      ∙ view-load now later k k c q
      ∙ view_opened later k c opened
      ∙ live_later now later c.heap _ q (sym (view_opened now k c opened) ∙ gone)
