-- ===== src/Lru/Walks.antt =====
-- What `Range`, `Keys` and `Values` of lru.go show.
use mappo.Prelude.{
  ℕ, zero, suc, ◌+◌, ◌<◌, ◌≤◌, ◌^◌, ◌≡◌, refl, Option, none, some, List, [], ◌∷◌, ◌++◌, Bool, true,
  false, arith, if◌then◌else◌, length, get_elem?, Comparable, ◌∙◌, ap, map, Bool-cases, inl, inr,
  ltb, ◌||◌, ◌&&◌, ◌⊎◌,
}
use mappo.MapOf.{MapOf}
use mappo.Run.{ok}
use mappo.Time.{Int64, deadline, is_positive, is_expired, is_expired-deadline}
use mappo.Visit.{visit, visit_append}
use mappo.Lru.{Node, Lru}
use mappo.Lru.Combined.{negate}
use mappo.Lru.Links.{Cells, Seg, first}
use mappo.Lru.Models.{Models, Stored, entries}
use mappo.Lru.Whole.{range_from, range, keys, values, is_shown}

module _ {K V : Type 0} where
  -- The pairs that a walk at a time shows.
  abbrev pub shown : ℕ → List (K × Stored V) → List (K × V)
  shown now [] = []
  shown now ((k, s) ∷ es) =
      if is_shown now s.expiration then (k, s.value) ∷ shown now es else shown now es

  range_from-visit :
      {S : Type 0} (fuel now : ℕ) (fn : K → V → S → S × Bool) (pool : List (Node K V))
      (p : Option ℕ) (cs : Cells K V) (s : S)
      → Seg (get_elem? pool) p cs none
      → length cs ≤ fuel
      → range_from fuel now fn pool (first cs none) s ≡ ok (visit fn (shown now (entries cs)) s)
  unfolding range_from visit
  range_from-visit fuel now fn pool p [] s seg h = refl
  range_from-visit zero now fn pool p (c ∷ cs) s seg h = absurd (omega arith)
  range_from-visit (suc fuel) now fn pool p (c ∷ cs) s seg h =
      elim (Bool-cases (is_shown now c.1.expiration)) [
        | inr hidden ↦
            rw (seg.0, range_from, hidden)
              (range_from-visit fuel now fn pool (some c.1.index) cs s seg.1 (omega arith))
        | inl seen ↦ elim (Bool-cases (fn c.0 c.1.value s).1) [
          | inl on ↦
              rw (seg.0, range_from, seen, on)
                (range_from-visit fuel now fn pool (some c.1.index) cs _ seg.1 (omega arith))
          | inr stop ↦ rw (seg.0, range_from, seen, stop) refl
        ]
      ]

module _ {K V : Type 0} ⦃key : Comparable K⦄ {xsync : MapOf K ℕ} where
  range_shown :
      {S : Type 0} (now : ℕ) (fn : K → V → S → S × Bool) (s : S) (l : Lru xsync V)
      (es : List (K × Stored V))
      → Models l es
      → range now fn s l ≡ ok (visit fn (shown now es) s)
  unfolding range
  range_shown now fn s l es m =
      let walk =
        range_from-visit (suc (length l.node_pool)) now fn l.node_pool none m.cells s
          m.holds.linked.links (omega (arith, m.holds.total)) in
      rw m.holds.linked.head (walk ∙ ap (λ x. ok (visit fn (shown now x) s)) m.shows)

  -- `Range` ends and shows its callback, until it stops, the entries that are not hidden as
  -- expired, most recently used first; `Keys` and `Values` list their keys and their values.
  pub range-Models :
      {S : Type 0} (now : ℕ) (fn : K → V → S → S × Bool) (s : S) (l : Lru xsync V)
      (es : List (K × Stored V))
      → Models l es
      → (range now fn s l ≡ ok (visit fn (shown now es) s))
        × (keys now l ≡ ok (map (λ e. e.0) (shown now es)))
        × (values now l ≡ ok (map (λ e. e.1) (shown now es)))
  unfolding keys values
  range-Models now fn s l es m = (
    range_shown now fn s l es m,
    range_shown now (λ k v seen. (seen ++ k ∷ [], true)) [] l es m
        ∙ ap ok (visit_append (λ k v. k) (shown now es) []),
    range_shown now (λ k v seen. (seen ++ v ∷ [], true)) [] l es m
        ∙ ap ok (visit_append (λ k v. v) (shown now es) []),
  )

-- An entry that was stored before the year 2262 is hidden, if it expires at all, as soon as its
-- time has come; `Get` and `Peek` still return it at that very nanosecond.
pub is_shown-deadline :
    (stored_at now : ℕ) (ttl : Int64)
    → (is_positive ttl ≡ false) ⊎ (stored_at + ttl < 2 ^ 63)
    → now < 2 ^ 63
    → (is_shown now (deadline stored_at ttl)
        ≡ (negate (is_positive ttl) || ltb now (stored_at + ttl)))
      × (is_expired now (deadline stored_at ttl) ≡ (is_positive ttl && ltb (stored_at + ttl) now))
unfolding is_shown deadline
is_shown-deadline stored_at now ttl h n =
    (ground (arith, h), is_expired-deadline stored_at now ttl h n)
