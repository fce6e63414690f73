-- ===== src/Concurrent/Reach.antt =====
-- Which calls of concurrent.go leave a nil pointer behind, and what it does to later calls.
use mappo.Prelude.{
  ℕ, ◌≡◌, refl, Option, none, some, Bool, true, Comparable, ◌==◌, eq_refl, if◌then◌else◌, arith,
  Option-cases, Bool-cases, is_some, inl, inr, ◌≢◌, List, [], ◌∷◌, ◌++◌, ◌+◌,
}
use mathlib.Core.Path.{subst}
use mappo.Pairs.{lookup}
use mappo.MapOf.{MapOf}
use mappo.Run.{ok, panic}
use mappo.Concurrent
use mappo.Concurrent.Expiry.{view}
use mappo.Concurrent.Sweep.{HasNoNil}
use mappo.Concurrent.Writes.{set_if_absent-load, replace-load, load-compute_entry}
use mappo.Concurrent.{Entry, Concurrent, range_loop, clear_if_loop, compute_entry}
use mappo.Time.{Int64, is_expired}

module _ {ℓ} {K V : Type ℓ} ⦃key : Comparable K⦄ (xsync : MapOf K (Option (Entry V))) where
  -- One call of a method other than `Replace` and `CompareAndSwap` that returns.
  pub data Step (c : Concurrent xsync) : Concurrent xsync → Type (ℓ + 1) where
    get : (now : ℕ) (k : K) → Step c (Concurrent.get xsync now k c).1
    set : (k : K) (v : V) → Step c (Concurrent.set xsync k v c)
    set_ttl :
        (now : ℕ) (k : K) (v : V) (ttl : Int64) → Step c (Concurrent.set_ttl xsync now k v ttl c)
    set_if_absent :
        (k : K) (v : V) (r : V × Bool) {c' : Concurrent xsync}
        → Concurrent.set_if_absent xsync k v c ≡ ok (r, c')
        → Step c c'
    compute :
        (zero_value : V) (then_now now : ℕ) (k : K) (fn : Option V → V × Bool)
        → Step c (Concurrent.compute xsync zero_value then_now now k fn c).1
    delete : (k : K) → Step c (Concurrent.delete xsync k c).1
    clear : Step c (Concurrent.clear xsync c)
    range :
        (S : Type ℓ) (now : ℕ) (fn : K → V → S → S × Bool) (s s' : S) {c' : Concurrent xsync}
        → Concurrent.range xsync now fn s c ≡ ok (s', c')
        → Step c c'
    clear_if :
        (now : K → ℕ) (should_remove : K → V → Bool) (n : ℕ) {c' : Concurrent xsync}
        → Concurrent.clear_if xsync now should_remove c ≡ ok (n, c')
        → Step c c'

  -- The maps that such calls make of a new one.
  pub data Reach : Concurrent xsync → Type (ℓ + 1) where
    new : Reach xsync.new_map_of
    next : {c d : Concurrent xsync} → Reach c → Step c d → Reach d

  HasNoNil-of_load :
      (k : K) (o : Option (Option (Entry V))) (c d : Concurrent xsync)
      → o ≢ some none
      → ((j : K) → xsync.load j d ≡ (if k == j then o else xsync.load j c))
      → HasNoNil xsync c
      → HasNoNil xsync d
  HasNoNil-of_load k o c d fine loads h j e = elim (Bool-cases (k == j)) [
    | inl same ↦ fine (ground (arith, loads j))
    | inr other ↦ h j (ground (arith, loads j))
  ]

  HasNoNil-delete :
      (k : K) (c : Concurrent xsync) → HasNoNil xsync c → HasNoNil xsync (xsync.delete k c)
  HasNoNil-delete k c =
      HasNoNil-of_load k none c (xsync.delete k c) (λ e. cc) (λ j. xsync.load-delete k j c)

  HasNoNil-store :
      (k : K) (x : Entry V) (c : Concurrent xsync)
      → HasNoNil xsync c
      → HasNoNil xsync (xsync.store k (some x) c)
  HasNoNil-store k x c =
      HasNoNil-of_load k (some (some x)) c (xsync.store k (some x) c) (λ e. cc)
        (λ j. xsync.load-store k j (some x) c)

  HasNoNil-get :
      (now : ℕ) (k : K) (c : Concurrent xsync)
      → HasNoNil xsync c
      → HasNoNil xsync (Concurrent.get xsync now k c).1
  unfolding Concurrent.get
  HasNoNil-get now k c h = elim (Option-cases (xsync.load k c)) [
    | inl e ↦ rw (e, Concurrent.get) h
    | inr (none, e) ↦ absurd (h k e)
    | inr (some x, e) ↦ elim (Bool-cases (is_expired now x.expiration)) [
      | inl dead ↦ rw (e, Concurrent.get, dead) (HasNoNil-delete k c h)
      | inr kept ↦ rw (e, Concurrent.get, kept) h
    ]
  ]

  HasNoNil-range_loop :
      {S : Type ℓ} (now : ℕ) (fn : K → V → S → S × Bool) (l : List (K × Option (Entry V))) (s : S)
      (c : Concurrent xsync) {s' : S} {c' : Concurrent xsync}
      → range_loop xsync now fn l s c ≡ ok (s', c')
      → HasNoNil xsync c
      → HasNoNil xsync c'
  unfolding range_loop
  HasNoNil-range_loop now fn [] s c {c' = c'} e h =
      let same : c ≡ c' = cc in subst (HasNoNil xsync) same h
  HasNoNil-range_loop now fn ((k, none) ∷ l) s c e h = cc
  HasNoNil-range_loop now fn ((k, some x) ∷ l) s c {c' = c'} e h =
      elim (Bool-cases (is_expired now x.expiration)) [
        | inl dead ↦
            HasNoNil-range_loop now fn l s (xsync.delete k c) (rw dead at e) (HasNoNil-delete k c h)
        | inr kept ↦ elim (Bool-cases (fn k x.value s).1) [
          | inl more ↦
              HasNoNil-range_loop now fn l (fn k x.value s).0 c (rw more at (rw kept at e)) h
          | inr stop ↦ let same : c ≡ c' = ground arith in subst (HasNoNil xsync) same h
        ]
      ]

  HasNoNil-clear_if_loop :
      (now : K → ℕ) (p : K → V → Bool) (l : List (K × Option (Entry V))) (total : ℕ)
      (c : Concurrent xsync) {n : ℕ} {c' : Concurrent xsync}
      → clear_if_loop xsync now p l total c ≡ ok (n, c')
      → HasNoNil xsync c
      → HasNoNil xsync c'
  unfolding clear_if_loop
  HasNoNil-clear_if_loop now p [] total c {c' = c'} e h =
      let same : c ≡ c' = cc in subst (HasNoNil xsync) same h
  HasNoNil-clear_if_loop now p ((k, none) ∷ l) total c e h = cc
  HasNoNil-clear_if_loop now p ((k, some x) ∷ l) total c {n = n} {c' = c'} e h =
      let gone = λ (q : clear_if_loop xsync now p l (total + 1) (xsync.delete k c) ≡ ok (n, c')).
        HasNoNil-clear_if_loop now p l (total + 1) (xsync.delete k c) q (HasNoNil-delete k c h) in
      elim (Bool-cases (is_expired (now k) x.expiration)) [
        | inl dead ↦ gone (rw dead at e)
        | inr kept ↦ elim (Bool-cases (p k x.value)) [
          | inl chosen ↦ gone (rw chosen at (rw kept at e))
          | inr other ↦ HasNoNil-clear_if_loop now p l total c (rw other at (rw kept at e)) h
        ]
      ]

  HasNoNil-compute :
      (zero_value : V) (then_now now : ℕ) (k : K) (fn : Option V → V × Bool) (c : Concurrent xsync)
      → HasNoNil xsync c
      → HasNoNil xsync (Concurrent.compute xsync zero_value then_now now k fn c).1
  unfolding Concurrent.compute
  HasNoNil-compute zero_value then_now now k fn c h =
      HasNoNil-get now k (xsync.compute k (compute_entry then_now fn) c) (
        HasNoNil-of_load k _ c _ (ground arith) (λ j. load-compute_entry xsync then_now k j fn c) h)

  HasNoNil-set_if_absent :
      (k : K) (v : V) (r : V × Bool) (c : Concurrent xsync) {c' : Concurrent xsync}
      → Concurrent.set_if_absent xsync k v c ≡ ok (r, c')
      → HasNoNil xsync c
      → HasNoNil xsync c'
  HasNoNil-set_if_absent k v r c {c' = c'} e h j q =
      let (d, run, loads) = set_if_absent-load xsync k j v c (h k) in
      let same : d ≡ c' = ground arith in
      let other : xsync.load j d ≢ some none = ground (arith, h j) in other (rw same q)

  Step-HasNoNil : {c d : Concurrent xsync} → Step c d → HasNoNil xsync c → HasNoNil xsync d
  unfolding Concurrent.set Concurrent.set_ttl Concurrent.delete Concurrent.clear Concurrent.range
      Concurrent.clear_if
  Step-HasNoNil {c} (Step.get now k) h = HasNoNil-get now k c h
  Step-HasNoNil {c} (Step.set k v) h = HasNoNil-store k _ c h
  Step-HasNoNil {c} (Step.set_ttl now k v ttl) h = HasNoNil-store k _ c h
  Step-HasNoNil {c} (Step.set_if_absent k v r e) h = HasNoNil-set_if_absent k v r c e h
  Step-HasNoNil {c} (Step.compute z t n k fn) h = HasNoNil-compute z t n k fn c h
  Step-HasNoNil {c} (Step.delete k) h = elim (Bool-cases (is_some (xsync.load k c))) [
    | inl there ↦ rw there (HasNoNil-delete k c h)
    | inr absent ↦ rw absent h
  ]
  Step-HasNoNil {c} Step.clear h = λ k e. ground (arith, xsync.load-clear k c)
  Step-HasNoNil {c} (Step.range S now fn s s' e) h = HasNoNil-range_loop now fn _ s c e h
  Step-HasNoNil {c} (Step.clear_if now p n e) h = HasNoNil-clear_if_loop now p _ 0 c e h

  -- A map that is reached from a new one without `Replace` and `CompareAndSwap` holds no nil
  -- pointer.
  pub Reach-HasNoNil : {c : Concurrent xsync} → Reach c → HasNoNil xsync c
  Reach-HasNoNil new = λ k e. ground (arith, xsync.load-new_map_of k)
  Reach-HasNoNil (next r s) = Step-HasNoNil s (Reach-HasNoNil r)

  keys_panic_loop :
      (now : ℕ) (k : K) (l : List (K × Option (Entry V))) (ks : List K) (c : Concurrent xsync)
      → lookup k l ≡ some none
      → range_loop xsync now (λ j _ s. (s ++ j ∷ [], true)) l ks c ≡ panic
  unfolding range_loop lookup
  keys_panic_loop now k [] ks c e = cc
  keys_panic_loop now k ((j, none) ∷ l) ks c e = refl
  keys_panic_loop now k ((j, some x) ∷ l) ks c e = ground (
    arith,
    keys_panic_loop now k l ks (xsync.delete j c),
    keys_panic_loop now k l (ks ++ j ∷ []) c,
  )

  -- After `Replace` of a key that has no value, `Keys` panics, whatever the clock reads.
  pub keys-replace_panics :
      (now later : ℕ) (k : K) (v : V) (c : Concurrent xsync)
      → view xsync now k c ≡ none
      → Concurrent.keys xsync later (Concurrent.replace xsync now k v c).1 ≡ panic
  unfolding Concurrent.keys
  keys-replace_panics now later k v c e =
      let c' = (Concurrent.replace xsync now k v c).1 in
      keys_panic_loop later k (xsync.range c') [] c'
        (rw xsync.lookup-range (rw ((replace-load xsync now k k v c).1, eq_refl k, e)))
