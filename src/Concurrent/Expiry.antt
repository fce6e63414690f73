-- ===== src/Concurrent/Expiry.antt =====
-- What a reader sees of concurrent.go at a time: the values that have not expired.
use mappo.Prelude.{
  ℕ, ◌≤◌, ◌<◌, ◌^◌, ◌+◌, ◌≡◌, refl, Option, none, some, false, Comparable, ◌==◌, eq_iff,
  if◌then◌else◌, arith, Option-cases, Bool-cases, ltb, ◌&&◌, ◌⊎◌, is_some, inl, inr,
}
use mappo.MapOf.{MapOf}
use mappo.Concurrent.{Entry, Concurrent, live, get, set, set_ttl, delete}
use mappo.Time.{Int64, is_expired, is_positive, is_expired_mono, is_expired-deadline}

module _ {ℓ} {V : Type ℓ} where
  -- An entry that is not live now is not live later.
  pub live_later :
      (now later : ℕ) (o : Option (Option (Entry V)))
      → now ≤ later
      → later < 2 ^ 63
      → live now o ≡ none
      → live later o ≡ none
  unfolding live
  live_later now later none h b e = refl
  live_later now later (some none) h b e = refl
  live_later now later (some (some x)) h b e =
      ground (arith, is_expired_mono now later x.expiration)

module _ {ℓ} {K V : Type ℓ} ⦃key : Comparable K⦄ (xsync : MapOf K (Option (Entry V))) where
  -- The value of a key at a time, if it has one.
  unfoldable pub view : ℕ → K → Concurrent xsync → Option V
  view now k c = live now (xsync.load k c)

  -- Deleting a key that has no value now changes nothing that is read later.
  pub view-delete_dead :
      (now later : ℕ) (k j : K) (c : Concurrent xsync)
      → now ≤ later
      → later < 2 ^ 63
      → view now k c ≡ none
      → view later j (xsync.delete k c) ≡ view later j c
  unfolding view live
  view-delete_dead now later k j c h b dead = elim (Bool-cases (k == j)) [
    | inl e ↦
        rw (xsync.load-delete, e)
          (rw (← (eq_iff k j).0 e) (rw (live_later now later (xsync.load k c) h b dead)))
    | inr e ↦ rw (xsync.load-delete, e)
  ]

  get_cases :
      (now : ℕ) (k : K) (c : Concurrent xsync)
      → ((get xsync now k c).0 ≡ view now k c)
        × (((get xsync now k c).1 ≡ c)
            ⊎ (((get xsync now k c).1 ≡ xsync.delete k c) × (view now k c ≡ none)))
  unfolding get view live
  get_cases now k c = elim (Option-cases (xsync.load k c)) [
    | inl e ↦ rw (e, get) (refl, inl refl)
    | inr (none, e) ↦ rw (e, get) (refl, inl refl)
    | inr (some x, e) ↦ elim (Bool-cases (is_expired now x.expiration)) [
      | inl dead ↦ rw (e, get, dead) (refl, inr (refl, refl))
      | inr kept ↦ rw (e, get, kept) (refl, inl refl)
    ]
  ]

  -- `Get` returns the value that the key has now, and what it deletes was readable neither now
  -- nor later: every later reading of every key is unchanged.
  pub get-view :
      (now later : ℕ) (k j : K) (c : Concurrent xsync)
      → now ≤ later
      → later < 2 ^ 63
      → ((get xsync now k c).0 ≡ view now k c)
        × (view later j (get xsync now k c).1 ≡ view later j c)
  get-view now later k j c h b = (
    (get_cases now k c).0,
    elim (get_cases now k c).1 [
      | inl same ↦ rw same
      | inr (gone, dead) ↦ rw gone (view-delete_dead now later k j c h b dead)
    ],
  )

  -- After `Set` the key reads the value at every time, and every other key reads what it read.
  pub view-set :
      (now : ℕ) (k j : K) (v : V) (c : Concurrent xsync)
      → view now j (set xsync k v c) ≡ (if k == j then some v else view now j c)
  unfolding view set live is_expired
  view-set now k j v c = rw xsync.load-store (ground arith)

  -- After `SetTTL` with a positive `ttl` the key reads the value until `ttl` past the store and
  -- not after; with no positive `ttl` it reads it for ever. Every other key reads what it read.
  pub view-set_ttl :
      (stored now : ℕ) (k j : K) (v : V) (ttl : Int64) (c : Concurrent xsync)
      → (is_positive ttl ≡ false) ⊎ (stored + ttl < 2 ^ 63)
      → now < 2 ^ 63
      → view now j (set_ttl xsync stored k v ttl c) ≡ (
          if k == j
          then (if is_positive ttl && ltb (stored + ttl) now then none else some v)
          else view now j c)
  unfolding view set_ttl live
  view-set_ttl stored now k j v ttl c h n =
      rw xsync.load-store (ground (arith, is_expired-deadline stored now ttl))

  -- `Delete` reports whether the map holds the key, expired or not, and afterwards the key has no
  -- value, whereas every other key reads what it read.
  pub delete-view :
      (now : ℕ) (k j : K) (c : Concurrent xsync)
      → ((delete xsync k c).0 ≡ is_some (xsync.load k c))
        × (view now j (delete xsync k c).1 ≡ (if k == j then none else view now j c))
  unfolding view delete live
  delete-view now k j c = elim (Option-cases (xsync.load k c)) [
    | inl e ↦ rw (e, delete) (refl, ground (arith, eq_iff k j))
    | inr (o, e) ↦ rw (e, delete) (refl, rw xsync.load-delete (ground arith))
  ]
