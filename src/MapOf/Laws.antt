-- ===== src/MapOf/Laws.antt =====
-- What follows from the laws of `MapOf`: reads after a `Compute`, and the size after a write.
use mappo.Prelude.{
  ◌+◌, ◌≡◌, Option, none, some, Bool, Comparable, ◌==◌, if◌then◌else◌, arith, Bool-cases, inl, inr,
  is_some, sym, ◌∙◌, ap,
}
use mappo.MapOf.{MapOf}
use mappo.Pairs.{
  lookup, remove, assign, to_nat, lookup-assign, lookup-remove, length-remove, length-assign,
  length_of_lookup,
}
use mappo.MapOf.Assoc.{remove-Once, assign-Once}

module _ {ℓ} {K V : Type ℓ} ⦃key : Comparable K⦄ (m : MapOf K V) where
  pub load-compute :
      (k j : K) (fn : Option V → V × Bool) (c : m.Map)
      → m.load j (m.compute k fn c) ≡ (
          if k == j
          then (if (fn (m.load k c)).1 then none else some (fn (m.load k c)).0)
          else m.load j c)
  load-compute k j fn c = elim (Bool-cases (fn (m.load k c)).1) [
    | inl e ↦ rw (m.compute_lem, e) (m.load-delete k j c)
    | inr e ↦ rw (m.compute_lem, e) (m.load-store k j _ c)
  ]

  -- Maps that read the same have the same size.
  pub size_of_load : (c d : m.Map) → ((k : K) → m.load k c ≡ m.load k d) → m.size c ≡ m.size d
  size_of_load c d h =
      rw (m.size-range, m.size-range)
        (length_of_lookup (m.range c) (m.range d) (m.range-Once c) (m.range-Once d)
          (λ k. m.lookup-range k c ∙ h k ∙ sym (m.lookup-range k d)))

  pub size-store :
      (k : K) (v : V) (c : m.Map)
      → m.size (m.store k v c) + to_nat (is_some (m.load k c)) ≡ m.size c + 1
  size-store k v c = omega (
    arith,
    length-assign k v (m.range c),
    ap (λ o. to_nat (is_some o)) (m.lookup-range k c),
    m.size-range c,
    m.size-range (m.store k v c),
    length_of_lookup (m.range (m.store k v c)) (assign k v (m.range c))
        (m.range-Once (m.store k v c)) (assign-Once k v _ (m.range-Once c)) same,
  )
    where
      same : (j : K) → lookup j (m.range (m.store k v c)) ≡ lookup j (assign k v (m.range c))
      same j = simp (m.lookup-range, lookup-assign, m.load-store)

  pub size-delete :
      (k : K) (c : m.Map) → m.size (m.delete k c) + to_nat (is_some (m.load k c)) ≡ m.size c
  size-delete k c = omega (
    arith,
    length-remove k (m.range c),
    ap (λ o. to_nat (is_some o)) (m.lookup-range k c),
    m.size-range c,
    m.size-range (m.delete k c),
    length_of_lookup (m.range (m.delete k c)) (remove k (m.range c)) (m.range-Once (m.delete k c))
        (remove-Once k _ (m.range-Once c)) same,
  )
    where
      same : (j : K) → lookup j (m.range (m.delete k c)) ≡ lookup j (remove k (m.range c))
      same j =
          rw (m.lookup-range, m.load-delete, lookup-remove k j (m.range c) (m.range-Once c j))
            (rw m.lookup-range)
