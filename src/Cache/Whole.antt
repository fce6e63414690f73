-- ===== src/Cache/Whole.antt =====
-- The methods of cache.go that go through all entries, its counters and its end; and closer.go.
use mappo.Prelude.{
  ℕ, ◌^◌, ◌%◌, Option, none, some, List, [], ◌∷◌, ◌++◌, Bool, true, if◌then◌else◌, Comparable,
}
use mappo.Cache.{Cache, Item, has_expired}
use mappo.Otter.{Otter, Pointer}
use mappo.Run.{Run, ok, panic}
use mappo.Time.{Int64}

-- `int64` fields, as bit patterns.
pub record CacheStats : Type 0 where
  pub hits : Int64
  pub misses : Int64
  pub evictions : Int64
  pub size : Int64
  pub capacity : Int64

abbrev pub no_stats : CacheStats
no_stats = record { hits = 0; misses = 0; evictions = 0; size = 0; capacity = 0 }

module _ {K V S : Type 0} where
  -- The loop of `Range` over the entries of otter. The callback gets a pointer; its state comes back,
  -- and whether to go on. An entry whose pointer is nil panics.
  unfoldable pub range_loop :
      ℕ → (ℕ → Item V) → (K → ℕ → S → S × Bool) → List (K × Pointer) → S → Run S
  range_loop now heap fn [] state = ok state
  range_loop now heap fn ((k, none) ∷ l) state = panic
  range_loop now heap fn ((k, some a) ∷ l) state =
      let skipped = range_loop now heap fn l state in
      let r = fn k a state in
      let rest = range_loop now heap fn l r.0 in
      if has_expired now (heap a).exp then skipped else if r.1 then rest else ok r.0

module _ {K : Type 0} ⦃key : Comparable K⦄ {otter : Otter K} {V : Type 0} where
  unfoldable pub len : Cache otter V → ℕ
  len c = if c.closed then 0 else otter.estimated_size c.inner

  unfoldable pub clear : Cache otter V → Cache otter V
  clear c = if c.closed then c else record c { inner = otter.invalidate_all c.inner }

  unfoldable pub range : {S : Type 0} → ℕ → (K → ℕ → S → S × Bool) → S → Cache otter V → Run S
  range now fn state c =
      if c.closed then ok state else range_loop now c.heap fn (otter.all c.inner) state

  unfoldable pub keys : ℕ → Cache otter V → Run (List K)
  keys now c = range now (λ k it out. (out ++ k ∷ [], true)) [] c

  unfoldable pub stats : Cache otter V → CacheStats
  stats c =
      let (hits, misses, evictions) = otter.stats c.inner in
      let counted : CacheStats = record {
        hits = hits % 2 ^ 64;
        misses = misses % 2 ^ 64;
        evictions = evictions % 2 ^ 64;
        size = len c % 2 ^ 64;
        capacity = otter.get_maximum c.inner % 2 ^ 64;
      } in
      if c.closed then no_stats else counted

  unfoldable pub close : Cache otter V → Cache otter V
  close c = if c.closed then c else record c { closed = true; inner = otter.invalidate_all c.inner }

module _ {K S : Type 0} where
  -- The handler of deletions that `NewCache` gives to otter, with what `OnDelete` does to a state.
  unfoldable pub on_deletion : Option (K → ℕ → S → S) → K → Pointer → S → S
  on_deletion none k p state = state
  on_deletion (some on_delete) k none state = state
  on_deletion (some on_delete) k (some a) state = on_delete k a state

module _ {V S : Type 0} where
  -- `Closer` of closer.go: the type assertions to an interface with `Close() error`, and to one with
  -- `Close()`, give what the call does to a state.
  unfoldable pub closer :
      (V → Option (S → S)) → (V → Option (S → S)) → (ℕ → Item V) → Pointer → Option (S → S)
  closer close_error close_plain heap none = none
  closer close_error close_plain heap (some a) = elim (heap a).value [
    | none ↦ none
    | some v ↦ elim (close_error v) [ some close ↦ some close | none ↦ close_plain v ]
  ]

module _ {K V S : Type 0} where
  unfoldable pub closer_delete :
      (V → Option (S → S)) → (V → Option (S → S)) → (ℕ → Item V) → K → Pointer → S → S
  closer_delete close_error close_plain heap k p state =
      elim (closer close_error close_plain heap p) [ none ↦ state | some fn ↦ fn state ]
