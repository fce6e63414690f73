-- ===== src/Concurrent.antt =====
-- concurrent.go: a map with optional expiry over `xsync.MapOf`. A method takes the map, and each
-- reading of the clock that it makes; it returns its results and the map after it.
pub mod Expiry
pub mod Writes
pub mod Sweep
pub mod Clears
pub mod Reach
mod Tests
use mappo.Prelude.{
  ℕ, ◌+◌, ◌≡◌, Option, none, some, List, [], ◌∷◌, ◌++◌, Bool, true, false, Comparable,
  if◌then◌else◌, is_some, value_or,
}
use mappo.MapOf.{MapOf}
use mappo.Run.{Run, ok, panic, ◌>>=◌}
use mappo.Time.{Int64, deadline, is_expired}

-- `concurrentEntry`
pub record Entry {ℓ} (V : Type ℓ) : Type ℓ where
  pub value : V
  pub expiration : Int64

module _ {ℓ} {V : Type ℓ} where
  -- What `Load` returns of a `*concurrentEntry`: `some none` is a key that holds a nil pointer.
  -- The value counts if the entry is there, is no nil pointer and has not expired.
  unfoldable pub live : ℕ → Option (Option (Entry V)) → Option V
  live now none = none
  live now (some none) = none
  live now (some (some e)) = if is_expired now e.expiration then none else some e.value

  -- The function that `Compute` passes on. It returns the new entry and `delete`.
  unfoldable pub compute_entry :
      ℕ → (Option V → V × Bool) → Option (Option (Entry V)) → Option (Entry V) × Bool
  unfolding live
  compute_entry now fn old =
      let (new_v, keep) = fn (live now old) in
      if keep then (some (record { value = new_v; expiration = 0 }), false) else (none, true)

  -- What the function that `Replace` passes on returns, behind the captured `old` and `replaced`.
  unfoldable pub replace_entry :
      ℕ → V → Option (Option (Entry V)) → Option V × (Option (Entry V) × Bool)
  replace_entry now v none = (none, (none, false))
  replace_entry now v (some none) = (none, (none, false))
  replace_entry now v (some (some e)) =
      if is_expired now e.expiration
      then (none, (none, false))
      else (some e.value, (some (record { value = v; expiration = e.expiration }), true))

  -- What the function that `CompareAndSwap` passes on returns, behind the captured `swapped`.
  -- `any_eq` is `any(a) == any(b)`, which panics on values of an uncomparable type.
  unfoldable pub compare_entry :
      (V → V → Run Bool)
      → ℕ
      → V
      → V
      → Option (Option (Entry V))
      → Run (Bool × (Option (Entry V) × Bool))
  compare_entry any_eq now old new_v none = ok (false, (none, false))
  compare_entry any_eq now old new_v (some none) = ok (false, (none, false))
  compare_entry any_eq now old new_v (some (some e)) =
      let swap = ok (true, (some (record { value = new_v; expiration = e.expiration }), true)) in
      if is_expired now e.expiration
      then ok (false, (none, false))
      else do same ← any_eq e.value old; if same then swap else ok (false, (some e, true))

module _ {ℓ} {K V : Type ℓ} ⦃key : Comparable K⦄ (xsync : MapOf K (Option (Entry V))) where
  abbrev pub Concurrent : Type ℓ
  Concurrent = xsync.Map

  unfoldable pub get : ℕ → K → Concurrent → Option V × Concurrent
  get now k c = elim (xsync.load k c) [
    | none ↦ (none, c)
    | some none ↦ (none, c)
    | some (some e) ↦
        if is_expired now e.expiration then (none, xsync.delete k c) else (some e.value, c)
  ]

  unfoldable pub set : K → V → Concurrent → Concurrent
  set k v = xsync.store k (some (record { value = v; expiration = 0 }))

  unfoldable pub set_ttl : ℕ → K → V → Int64 → Concurrent → Concurrent
  set_ttl now k v ttl = xsync.store k (some (record { value = v; expiration = deadline now ttl }))

  -- `actual.value` of a nil pointer panics.
  unfoldable pub set_if_absent : K → V → Concurrent → Run ((V × Bool) × Concurrent)
  set_if_absent k v c =
      let r = xsync.load_or_store k (some (record { value = v; expiration = 0 })) c in
      if r.0.1
      then elim r.0.0 [ none ↦ panic | some actual ↦ ok ((actual.value, true), r.1) ]
      else ok ((v, false), r.1)

  -- `LoadOrStore` and `GetOrSet`.
  unfoldable pub get_or_set : K → V → Concurrent → Run ((V × Bool) × Concurrent)
  unfolding set_if_absent
  get_or_set = set_if_absent

  -- `then_now` is the clock inside the function passed on, `now` the clock of the `Get` after it.
  unfoldable pub compute : V → ℕ → ℕ → K → (Option V → V × Bool) → Concurrent → V × Concurrent
  unfolding get compute_entry
  compute zero_value then_now now k fn c =
      let (val, c') = get now k (xsync.compute k (compute_entry then_now fn) c) in
      (value_or val zero_value, c')

  unfoldable pub update : V → ℕ → ℕ → K → (Option V → V) → Concurrent → V × Concurrent
  unfolding compute
  update zero_value then_now now k fn = compute zero_value then_now now k (λ curr. (fn curr, true))

  unfoldable pub delete : K → Concurrent → Bool × Concurrent
  delete k c =
      let existed = is_some (xsync.load k c) in (existed, if existed then xsync.delete k c else c)

  unfoldable pub has : ℕ → K → Concurrent → Bool × Concurrent
  unfolding get
  has now k c = let (val, c') = get now k c in (is_some val, c')

  -- `Len` and `Size`.
  unfoldable pub len : Concurrent → ℕ
  len = xsync.size

  unfoldable pub clear : Concurrent → Concurrent
  clear = xsync.clear

  -- The captured `old` and `replaced`, and the map after `c.m.Compute`.
  unfoldable pub replace : ℕ → K → V → Concurrent → Option V × Concurrent
  unfolding replace_entry
  replace now k v c = (
    (replace_entry now v (xsync.load k c)).0,
    xsync.compute k (λ current. (replace_entry now v current).1) c,
  )

  -- The loop of `Range` over the pairs that are left, with the state of the callback.
  unfoldable pub range_loop :
      {S : Type ℓ}
      → ℕ
      → (K → V → S → S × Bool)
      → List (K × Option (Entry V))
      → S
      → Concurrent
      → Run (S × Concurrent)
  range_loop now fn [] s c = ok (s, c)
  range_loop now fn ((k, none) ∷ l) s c = panic
  range_loop now fn ((k, some e) ∷ l) s c =
      let r = fn k e.value s in
      let skip = range_loop now fn l s (xsync.delete k c) in
      let rest = range_loop now fn l r.0 c in
      if is_expired now e.expiration then skip else if r.1 then rest else ok (r.0, c)

  unfoldable pub range :
      {S : Type ℓ} → ℕ → (K → V → S → S × Bool) → S → Concurrent → Run (S × Concurrent)
  unfolding range_loop
  range now fn s c = range_loop now fn (xsync.range c) s c

  unfoldable pub keys : ℕ → Concurrent → Run (List K × Concurrent)
  unfolding range
  keys now = range now (λ k _ ks. (ks ++ k ∷ [], true)) []

  unfoldable pub values : ℕ → Concurrent → Run (List V × Concurrent)
  unfolding range
  values now = range now (λ _ v vs. (vs ++ v ∷ [], true)) []

  -- The loop of `ClearIf`; `now k` is the clock when the pair of `k` is visited.
  unfoldable pub clear_if_loop :
      (K → ℕ) → (K → V → Bool) → List (K × Option (Entry V)) → ℕ → Concurrent → Run (ℕ × Concurrent)
  clear_if_loop now should_remove [] total c = ok (total, c)
  clear_if_loop now should_remove ((k, none) ∷ l) total c = panic
  clear_if_loop now should_remove ((k, some e) ∷ l) total c =
      let gone = clear_if_loop now should_remove l (total + 1) (xsync.delete k c) in
      let kept = clear_if_loop now should_remove l total c in
      if is_expired (now k) e.expiration
      then gone
      else if should_remove k e.value
      then gone
      else kept

  unfoldable pub clear_if : (K → ℕ) → (K → V → Bool) → Concurrent → Run (ℕ × Concurrent)
  unfolding clear_if_loop
  clear_if now should_remove c = clear_if_loop now should_remove (xsync.range c) 0 c

  module _ (any_eq : V → V → Run Bool) where
    -- A panic in the function leaves `Compute`, and the map is not written.
    unfoldable pub compare_and_swap : ℕ → K → V → V → Concurrent → Run (Bool × Concurrent)
    unfolding compare_entry
    compare_and_swap now k old new_v c = do
      r ← compare_entry any_eq now old new_v (xsync.load k c)
      ok (r.0, xsync.compute k (λ _. r.1) c)
