-- ===== src/Cache/Shown.antt =====
-- What `Range` and `Keys` of cache.go show after any calls.
use mappo.Prelude.{
  ℕ, ◌≤◌, ◌≡◌, refl, ap, sym, ◌∙◌, none, some, List, [], ◌∷◌, ◌++◌, map, Bool, true, if◌then◌else◌,
  Comparable, ◌==◌, eq_refl, arith, Bool-cases, inl, inr,
}
use mathlib.Core.Option.{none-ne-some}
use mappo.Cache.{Cache, Item, has_expired, new_cache}
use mappo.Cache.Combined.{live, kept}
use mappo.Cache.Steps.{Reach, Reach-HasItems, new_cache-HasItems}
use mappo.Cache.View.{view}
use mappo.Cache.Whole.{range_loop, range, keys}
use mappo.Otter.{Otter, Pointer}
use mappo.Pairs.{lookup, count, Once, Once-tail, lookup_of_count-zero}
use mappo.Run.{ok}
use mappo.Visit.{visit, visit_append}

-- The entries with their items, but for those that have expired.
module _ {K V : Type 0} where
  unfoldable pub live_pairs : ℕ → (ℕ → Item V) → List (K × Pointer) → List (K × ℕ)
  live_pairs now heap [] = []
  live_pairs now heap ((k, none) ∷ l) = live_pairs now heap l
  live_pairs now heap ((k, some a) ∷ l) =
      if has_expired now (heap a).exp then live_pairs now heap l else (k, a) ∷ live_pairs now heap l

module _ {K : Type 0} ⦃key : Comparable K⦄ where
  rest_items :
      (k : K) (o : Pointer) (l : List (K × Pointer))
      → Once ((k, o) ∷ l)
      → ((j : K) (p : Pointer) → lookup j ((k, o) ∷ l) ≡ some p → (a : ℕ) × (p ≡ some a))
      → (j : K) (p : Pointer) → lookup j l ≡ some p
      → (a : ℕ) × (p ≡ some a)
  unfolding lookup count
  rest_items k o l once items j p e = elim (Bool-cases (k == j)) [
    | inl same ↦
        let gone : lookup j l ≡ none = lookup_of_count-zero j l (ground (arith, once j, same)) in
        absurd (none-ne-some p (sym gone ∙ e))
    | inr other ↦ items j p (rw other e)
  ]

module _ {K V : Type 0} ⦃key : Comparable K⦄ where
  count-live_pairs-le :
      (now : ℕ) (heap : ℕ → Item V) (j : K) (l : List (K × Pointer))
      → count j (live_pairs now heap l) ≤ count j l
  unfolding count live_pairs
  count-live_pairs-le now heap j [] = omega arith
  count-live_pairs-le now heap j ((k, none) ∷ l) = omega (arith, count-live_pairs-le now heap j l)
  count-live_pairs-le now heap j ((k, some a) ∷ l) =
      ground (arith, count-live_pairs-le now heap j l)

  lookup-live_pairs :
      (now : ℕ) (heap : ℕ → Item V) (j : K) (l : List (K × Pointer))
      → Once l
      → lookup j (live_pairs now heap l) ≡ live now heap (lookup j l)
  unfolding lookup live_pairs live count
  lookup-live_pairs now heap j [] once = refl
  lookup-live_pairs now heap j ((k, none) ∷ l) once = ground (
    arith,
    lookup-live_pairs now heap j l (Once-tail k none l once),
    once j,
    lookup_of_count-zero j l,
  )
  lookup-live_pairs now heap j ((k, some a) ∷ l) once = ground (
    arith,
    lookup-live_pairs now heap j l (Once-tail k (some a) l once),
    once j,
    lookup_of_count-zero j l,
  )

  -- No entry has a nil pointer.
  range_loop-visit :
      {S : Type 0} (now : ℕ) (heap : ℕ → Item V) (fn : K → ℕ → S → S × Bool)
      (l : List (K × Pointer)) (s : S)
      → Once l
      → ((k : K) (p : Pointer) → lookup k l ≡ some p → (a : ℕ) × (p ≡ some a))
      → range_loop now heap fn l s ≡ ok (visit fn (live_pairs now heap l) s)
  unfolding range_loop visit live_pairs lookup
  range_loop-visit {S} now heap fn [] s once items = refl
  range_loop-visit {S} now heap fn ((k, none) ∷ l) s once items =
      let (a, is) = items k none (rw (eq_refl k) refl) in absurd (none-ne-some a is)
  range_loop-visit {S} now heap fn ((k, some a) ∷ l) s once items =
      let rest = λ (s : S).
        range_loop-visit now heap fn l s (Once-tail k (some a) l once)
          (rest_items k (some a) l once items) in
      elim (Bool-cases (has_expired now (heap a).exp)) [
        | inl dead ↦ rw dead (rest s)
        | inr kept ↦ elim (Bool-cases (fn k a s).1) [
          | inl on ↦ rw (kept, on) (rest (fn k a s).0)
          | inr off ↦ rw (kept, off) refl
        ]
      ]

module _ {K : Type 0} ⦃key : Comparable K⦄ {otter : Otter K} {V : Type 0} where
  -- In a cache that calls lead to from a new one, there is a list of pairs, with no key twice, that
  -- reads under each key as the cache does now. `Range` and `Keys` do not panic: `Range` shows its
  -- callback these pairs, until it stops, and `Keys` returns their keys.
  pub range-Shown :
      {S : Type 0} (now n : ℕ) (heap : ℕ → Item V) (allocated : ℕ) (fn : K → ℕ → S → S × Bool)
      (s : S) (c : Cache otter V)
      → Reach (new_cache n heap allocated) c
      → (l : List (K × ℕ)) × Once l
        × ((k : K) → lookup k l ≡ view now k c)
        × (range now fn s c ≡ ok (visit fn l s))
        × (keys now c ≡ ok (map (λ e. e.0) l))
  unfolding range keys view visit lookup count
  range-Shown {S} now n heap allocated fn s c reached =
      let h =
        Reach-HasItems (new_cache n heap allocated) c (new_cache-HasItems n heap allocated)
          reached in
      let items : (k : K) (p : Pointer)
          → lookup k (otter.all c.inner) ≡ some p
          → (a : ℕ) × (p ≡ some a) =
        λ k p e. let (a, is, _) = h.entries k p (sym (otter.lookup-all k c.inner) ∙ e) in (a, is) in
      let all = otter.all c.inner in
      let once = otter.all-Once c.inner in
      elim (Bool-cases c.closed) [
        | inl shut ↦ (
          [],
          λ k. omega arith,
          λ k. rw (view, shut) refl,
          simp (range, shut),
          simp (keys, range, shut),
        )
        | inr opened ↦ (
          live_pairs now c.heap all,
          λ k. omega (arith, count-live_pairs-le now c.heap k all, once k),
          λ k.
              lookup-live_pairs now c.heap k all once
              ∙ ap (live now c.heap) (otter.lookup-all k c.inner)
              ∙ sym (rw (view, opened) refl),
          simp (range, opened) (range_loop-visit now c.heap fn all s once items),
          simp (keys, range, opened)
              (range_loop-visit now c.heap (λ k it out. (out ++ k ∷ [], true)) all [] once items
                ∙ ap ok (visit_append (λ k it. k) (live_pairs now c.heap all) [])),
        )
      ]
