-- ===== src/Concurrent/Clears.antt =====
-- `ClearIf` of concurrent.go.
use mappo.Prelude.{
  ℕ, ◌+◌, ◌≡◌, refl, Option, none, some, Bool, false, Comparable, eq_iff, if◌then◌else◌, arith,
  Bool-cases, is_some, inl, inr, ◌||◌, List, [], ◌∷◌, ap,
}
use mappo.Pairs.{lookup, count, to_nat, Once, Once-tail, lookup_of_count-zero}
use mappo.MapOf.Laws.{size-delete}
use mappo.MapOf.{MapOf}
use mappo.Run.{ok}
use mappo.Concurrent.{Entry, Concurrent, clear_if_loop, clear_if, len}
use mappo.Time.{is_expired}
use mappo.Concurrent.Sweep.{
  Loaded, NoNil, HasNoNil, Loaded-delete, Loaded-head, Loaded-tail, NoNil-range, range-Loaded,
}

module _ {ℓ} {K V : Type ℓ} ⦃key : Comparable K⦄ (xsync : MapOf K (Option (Entry V))) where
  -- Whether `ClearIf` removes what the map holds under a key.
  pub is_doomed : (K → ℕ) → (K → V → Bool) → K → Option (Option (Entry V)) → Bool
  is_doomed now should_remove k none = false
  is_doomed now should_remove k (some none) = false
  is_doomed now should_remove k (some (some e)) =
      is_expired (now k) e.expiration || should_remove k e.value

  clear_if_loop_lem :
      (now : K → ℕ) (should_remove : K → V → Bool) (l : List (K × Option (Entry V))) (total : ℕ)
      (c : Concurrent xsync)
      → NoNil l
      → Once l
      → Loaded xsync l c
      → (n : ℕ) × (c' : Concurrent xsync) × (clear_if_loop xsync now should_remove l total c
          ≡ ok (n, c'))
        × (n + xsync.size c' ≡ total + xsync.size c)
        × ((j : K)
            → xsync.load j c'
              ≡ (if is_doomed now should_remove j (lookup j l) then none else xsync.load j c))
  unfolding clear_if_loop is_doomed lookup count
  clear_if_loop_lem now p [] total c nonil once h = (total, c, refl, refl, λ j. refl)
  clear_if_loop_lem now p ((k, none) ∷ l) total c nonil once h = elim nonil [ ]
  clear_if_loop_lem now p ((k, some e) ∷ l) total c nonil once h =
      elim (Bool-cases (is_expired (now k) e.expiration || p k e.value)) [
        | inl gone ↦
            let (n, c', run, size, loads) =
              clear_if_loop_lem now p l (total + 1) (xsync.delete k c) nonil
                (Once-tail k (some e) l once) (Loaded-delete xsync k (some e) l c once h) in
            (
              n,
              c',
              ground arith,
              omega (
                arith,
                size-delete xsync k c,
                ap (λ o. to_nat (is_some o)) (Loaded-head xsync k (some e) l c h),
              ),
              λ j. ground (arith, loads j, xsync.load-delete k j c, eq_iff k j),
            )
        | inr kept ↦
            let (n, c', run, size, loads) =
              clear_if_loop_lem now p l total c nonil (Once-tail k (some e) l once)
                (Loaded-tail xsync k (some e) l c once h) in
            (
              n,
              c',
              ground arith,
              size,
              λ j. ground (
                arith,
                loads j,
                eq_iff k j,
                Loaded-head xsync k (some e) l c h,
                lookup_of_count-zero j l,
                once j,
              ),
            )
      ]

  -- On a map that holds no nil pointer, `ClearIf` removes exactly the entries that have expired
  -- when they are visited and those whose value the predicate selects, and keeps every other
  -- entry; the result and the size of the map after it add up to the size before.
  pub clear_if-load :
      (now : K → ℕ) (should_remove : K → V → Bool) (c : Concurrent xsync)
      → HasNoNil xsync c
      → (n : ℕ) × (c' : Concurrent xsync) × (clear_if xsync now should_remove c ≡ ok (n, c'))
        × (n + len xsync c' ≡ len xsync c)
        × ((j : K)
            → xsync.load j c'
              ≡ (if is_doomed now should_remove j (xsync.load j c) then none else xsync.load j c))
  unfolding clear_if len
  clear_if-load now p c h =
      let (n, c', run, size, loads) =
        clear_if_loop_lem now p (xsync.range c) 0 c (NoNil-range xsync c h) (xsync.range-Once c)
          (range-Loaded xsync c) in
      (n, c', run, omega arith, λ j. rw xsync.lookup-range at (loads j))
