-- ===== src/Cache/Steps.antt =====
-- Sequences of calls of cache.go: what stays true of the cache, and what is left when it is closed.
use mappo.Prelude.{
  ℕ, suc, ◌≤◌, ◌<◌, ◌≡◌, refl, ap, sym, ◌∙◌, Option, none, some, [], Bool, true, false, Comparable,
  ◌⊎◌, arith, Bool-cases, Option-cases, inl, inr,
}
use mathlib.Core.Path.{subst}
use mappo.Cache
use mappo.Cache.Combined
use mappo.Cache.Whole
use mappo.Cache.{Cache, Item, has_expired, new_cache, new_item, exp_after}
use mappo.Cache.Combined.{live, kept, value_of, compute_op}
use mappo.Cache.Entries
use mappo.Cache.Entries.{
  HasItems, From, From-HasItems, From-same, From-trans, From-entry, compute-Made,
}
use mappo.Cache.Whole.{range_loop, range, keys, len}
use mappo.Otter.{Otter, Pointer, cancel_op}
use mappo.Otter.Laws.{entry_after, get-compute}
use mappo.Run.{ok, panic, ok-injective}
use mappo.Time.{Int64}

module _ {K : Type 0} ⦃key : Comparable K⦄ {otter : Otter K} {V : Type 0} where
  new_item-From : (value : Option V) (exp : ℕ) (c : Cache otter V) → From c (new_item value exp c).1
  unfolding new_item
  new_item-From value exp c = record {
    grows = omega arith;
    closes = λ e. e;
    entries = λ k p e. inl e;
  }

  get_or_set-From :
      (now₁ now₂ now₃ : ℕ) (k : K) (value : Option V) (ttl : Int64) (c d : Cache otter V)
      (r : Option V × Bool)
      → Combined.get_or_set now₁ now₂ now₃ k value ttl c ≡ ok (r, d)
      → From c d
  unfolding Combined.get_or_set new_item value_of
  get_or_set-From now₁ now₂ now₃ k value ttl c d r e =
      let c₁ = (Cache.load now₁ k c).1 in
      let c₂ = (new_item value (exp_after now₂ ttl) c₁).1 in
      let s = Cache.load_or_store now₃ k (some c₁.allocated) c₂ in
      let first = Entries.load-From now₁ k c in
      let last = From-trans c c₁ s.1 first (
        From-trans c₁ c₂ s.1 (new_item-From value (exp_after now₂ ttl) c₁)
          (Entries.load_or_store-From now₃ k c₁.allocated c₂ (omega arith))) in
      let ends =
        λ (d' : Cache otter V) (f : From c d') (r' : Option V × Bool)
            (run : Combined.get_or_set now₁ now₂ now₃ k value ttl c ≡ ok (r', d')).
          subst (From c) (ap (λ x. x.1) (ok-injective (r', d') (r, d) (sym run ∙ e))) f in
      elim (Option-cases (Cache.load now₁ k c).0) [
        | inr (a, found) ↦
            ends c₁ first ((c₁.heap a).value, true) (simp (Combined.get_or_set, found))
        | inl missing ↦ elim (Bool-cases s.0.1) [
          | inr stored ↦
              ends s.1 last (value, false) (simp (Combined.get_or_set, missing, new_item, stored))
          | inl loaded ↦ elim (Option-cases s.0.0) [
            | inr (b, there) ↦
                ends s.1 last ((s.1.heap b).value, true)
                  (simp (Combined.get_or_set, missing, new_item, loaded, there))
            | inl nil ↦
                let stuck : Combined.get_or_set now₁ now₂ now₃ k value ttl c ≡ panic =
                  simp (Combined.get_or_set, missing, new_item, loaded, nil) in
                absurd (let no : panic ≡ ok (r, d) = sym stuck ∙ e in cc)
          ]
        ]
      ]

  get_or_compute-From :
      {S : Type 0} (now₁ now₂ : ℕ) (k : K) (fn : S → S × (Option V × Int64)) (state : S)
      (c : Cache otter V)
      → From c (Combined.get_or_compute now₁ now₂ k fn state c).1
  unfolding Combined.get_or_compute new_item compute_op
  get_or_compute-From now₁ now₂ k fn state c =
      let c₁ = (Cache.load now₁ k c).1 in
      let old = otter.get_if_present k c₁.inner in
      let first = Entries.load-From now₁ k c in
      let op = compute_op now₂ c₁.heap c₁.allocated in
      let fresh = (new_item (fn state).1.0 (exp_after now₂ (fn state).1.1) c₁).1 in
      let inner' = (otter.compute k op c₁.inner).1 in
      Entries.From-if_pair c.closed _ _ c _ (elim (Option-cases (Cache.load now₁ k c).0) [
        | inr (a, found) ↦ rw found first
        | inl missing ↦ elim (Option-cases (kept now₂ c₁.heap old)) [
          | inr (b, there) ↦
              let cancels : op old ≡ (some b, cancel_op) = rw (compute_op, there) refl in
              simp (missing, there)
                (From-trans c c₁ _ first (
                  From-entry k (entry_after old (op old)) c₁ (record c₁ { inner = inner' })
                    (omega arith) (λ e. e) (λ j. get-compute otter k j op c₁.inner)
                    (λ p e. inl (sym (ap (entry_after old) cancels) ∙ e))))
          | inl none_left ↦
              simp (missing, none_left)
                (From-trans c c₁ _ first (
                  From-entry k (entry_after old (op old)) c₁ (record fresh { inner = inner' })
                    (omega arith) (λ e. e) (λ j. get-compute otter k j op c₁.inner)
                    (λ p e. made (compute-Made now₂ c₁.heap c₁.allocated old p e))))
        ]
      ])
    where
      made :
          {A : Type 0} {p : Pointer} {a : ℕ}
          → A ⊎ (p ≡ some a)
          → A ⊎ ((b : ℕ) × (p ≡ some b) × (b < suc a))
      made (inl old) = inl old
      made {a = a} (inr is) = inr (a, is, omega arith)

  -- One call of a method, an eviction, or what the program does to items, of which it may make more.
  pub data Step (c : Cache otter V) : Cache otter V → Type 1 where
    load : (now : ℕ) (k : K) → Step c (Cache.load now k c).1
    store : (k : K) (a : ℕ) → a < c.allocated → Step c (Cache.store k (some a) c)
    store_ttl :
        (now : ℕ) (k : K) (a : ℕ) (ttl : Int64)
        → a < c.allocated
        → Step c (Cache.store_ttl now k (some a) ttl c)
    load_or_store :
        (now : ℕ) (k : K) (a : ℕ)
        → a < c.allocated
        → Step c (Cache.load_or_store now k (some a) c).1
    delete : (k : K) → Step c (Cache.delete k c)
    load_and_delete : (now : ℕ) (k : K) → Step c (Cache.load_and_delete now k c).1
    get_or_set :
        (now₁ now₂ now₃ : ℕ) (k : K) (value : Option V) (ttl : Int64) (r : Option V × Bool)
        {d : Cache otter V}
        → Combined.get_or_set now₁ now₂ now₃ k value ttl c ≡ ok (r, d)
        → Step c d
    get_or_compute :
        {S : Type 0} (now₁ now₂ : ℕ) (k : K) (fn : S → S × (Option V × Int64)) (state : S)
        → Step c (Combined.get_or_compute now₁ now₂ k fn state c).1
    update_item :
        (now : ℕ) (k : K) (change : Item V → Item V)
        → Step c (Combined.update_item now k change c).1
    clear : Step c (Whole.clear c)
    close : Step c (Whole.close c)
    evict : (k : K) → Step c (record c { inner = otter.evict k c.inner })
    change :
        (heap : ℕ → Item V) (allocated : ℕ)
        → c.allocated ≤ allocated
        → Step c (record c { heap = heap; allocated = allocated })

  pub data Reach (c : Cache otter V) : Cache otter V → Type 1 where
    here : Reach c c
    next : {d e : Cache otter V} → Reach c d → Step d e → Reach c e

  step-From : (c d : Cache otter V) → Step c d → From c d
  step-From c d (load now k) = Entries.load-From now k c
  step-From c d (store k a made) = Entries.store-From k a c made
  step-From c d (store_ttl now k a ttl made) = Entries.store_ttl-From now k a ttl c made
  step-From c d (load_or_store now k a made) = Entries.load_or_store-From now k a c made
  step-From c d (delete k) = Entries.delete-From k c
  step-From c d (load_and_delete now k) = Entries.load_and_delete-From now k c
  step-From c d (get_or_set now₁ now₂ now₃ k value ttl r run) =
      get_or_set-From now₁ now₂ now₃ k value ttl c d r run
  step-From c d (get_or_compute now₁ now₂ k fn state) = get_or_compute-From now₁ now₂ k fn state c
  step-From c d (update_item now k f) = Entries.update_item-From now k f c
  step-From c d clear = Entries.clear-From c
  step-From c d close = Entries.close-From c
  step-From c d (evict k) =
      From-entry k none c (record c { inner = otter.evict k c.inner }) (omega arith) (λ e. e)
        (λ j. otter.get-evict k j c.inner) (λ p e. cc)
  step-From c d (change heap allocated grows) = record {
    grows = grows;
    closes = λ e. e;
    entries = λ k p e. inl e;
  }

  pub Reach-HasItems : (c d : Cache otter V) → HasItems c → Reach c d → HasItems d
  Reach-HasItems c d h here = h
  Reach-HasItems c e h (next {d} reached step) =
      From-HasItems d e (step-From d e step) (Reach-HasItems c d h reached)

  pub new_cache-HasItems :
      (n : ℕ) (heap : ℕ → Item V) (allocated : ℕ)
      → HasItems (new_cache {otter = otter} n heap allocated)
  unfolding new_cache
  new_cache-HasItems n heap allocated = record {
    entries = λ k p e. absurd (let gone = otter.get-new k n in cc);
  }

  -- After `Close` and any further calls, `Load` finds nothing and changes nothing, `Len` is 0 and
  -- `Keys` is empty.
  pub load-close :
      (now : ℕ) (k : K) (c d : Cache otter V)
      → Reach (Whole.close c) d
      → (Cache.load now k d ≡ (none, d)) × (len d ≡ 0) × (keys now d ≡ ok [])
  unfolding Cache.load len keys range Whole.close
  load-close now k c d reached =
      let shut = stays (Whole.close c) d reached closing in
      (simp (Cache.load, shut), simp (len, shut), simp (keys, range, shut))
    where
      closing : (Whole.close c).closed ≡ true
      closing = elim (Bool-cases c.closed) [
        | inl e ↦ simp (Whole.close, e)
        | inr e ↦ simp (Whole.close, e)
      ]

      stays : (c d : Cache otter V) → Reach c d → c.closed ≡ true → d.closed ≡ true
      stays c d here e = e
      stays c d (next {d = f} reached step) e = (step-From f d step).closes (stays c f reached e)
