-- ===== src/SyncPool.antt =====
-- The standard library's `sync.Pool`, as pool.go and ordred.go use it. It may hand out any item that was
-- put and not taken since, or none, when it forgot them: an argument `choice` says which.
use mappo.Prelude.{
  ℕ, zero, suc, ◌≡◌, refl, Option, none, some, List, [], ◌∷◌, Option-cases, inl, inr,
}

-- The `n`th item of the pool, and the others.
unfoldable pub take_out {ℓ} : {A : Type ℓ} → ℕ → List A → Option (A × List A)
take_out n [] = none
take_out zero (a ∷ l) = some (a, l)
take_out (suc n) (a ∷ l) = elim (take_out n l) [ none ↦ none | some r ↦ some (r.0, a ∷ r.1) ]

-- `new` is what the function `New` makes, if there is one.
pub record SyncPool (A : Type 0) : Type 0 where
  pub items : List A
  pub new : Option A

module _ {A : Type 0} where
  unfoldable pub get : ℕ → SyncPool A → Option A × SyncPool A
  get choice pool = elim (take_out choice pool.items) [
    | some r ↦ (some r.0, record pool { items = r.1 })
    | none ↦ (pool.new, pool)
  ]

  unfoldable pub put : A → SyncPool A → SyncPool A
  put a pool = record pool { items = a ∷ pool.items }

  -- A pool with a function `New` always hands out an item.
  pub get_of_new :
      (choice : ℕ) (pool : SyncPool A) (fresh : A)
      → pool.new ≡ some fresh
      → (a : A) × ((get choice pool).0 ≡ some a) × ((get choice pool).1.new ≡ some fresh)
  unfolding get
  get_of_new choice pool fresh makes = elim (Option-cases (take_out choice pool.items)) [
    | inl stuck ↦ rw (get, stuck) (fresh, makes, makes)
    | inr (r, found) ↦ rw (get, found) (r.0, refl, makes)
  ]
