-- ===== src/Pairs.antt =====
-- Lists of key-value pairs: what a map visits, in the order in which it visits it.
use mappo.Prelude.{
  ◌++◌, Bool-cases, inl, inr, ap, ℕ, ◌+◌, ◌≤◌, ◌≡◌, refl, Option, none, some, List, [], ◌∷◌, Bool,
  true, false, Comparable, ◌==◌, eq_iff, eq_refl, if◌then◌else◌, arith, length, nat_beq, is_some,
}

abbrev pub to_nat : Bool → ℕ
to_nat true = 1
to_nat false = 0

-- How often the number is in the list.
abbrev pub uses : ℕ → List ℕ → ℕ
uses i [] = 0
uses i (a ∷ l) = to_nat (nat_beq a i) + uses i l

module _ {ℓ} {K V : Type ℓ} ⦃key : Comparable K⦄ where
  -- The value of the first pair with the key.
  unfoldable pub lookup : K → List (K × V) → Option V
  lookup k [] = none
  lookup k (e ∷ l) = if e.0 == k then some e.1 else lookup k l

  -- How many pairs have the key.
  unfoldable pub count : K → List (K × V) → ℕ
  count k [] = 0
  count k (e ∷ l) = to_nat (e.0 == k) + count k l

  unfoldable pub remove : K → List (K × V) → List (K × V)
  remove k [] = []
  remove k (e ∷ l) = if e.0 == k then l else e ∷ remove k l

  -- Replaces the first pair with the key, or appends one.
  unfoldable pub assign : K → V → List (K × V) → List (K × V)
  assign k v [] = (k, v) ∷ []
  assign k v (e ∷ l) = if e.0 == k then (e.0, v) ∷ l else e ∷ assign k v l

  -- No key twice.
  abbrev pub Once : List (K × V) → Type ℓ
  Once l = (k : K) → count k l ≤ 1

  pub lookup_of_count-zero : (k : K) (l : List (K × V)) → count k l ≡ 0 → lookup k l ≡ none
  unfolding count lookup
  lookup_of_count-zero k [] h = refl
  lookup_of_count-zero k (e ∷ l) h = ground (arith, lookup_of_count-zero k l)

  pub count_of_lookup-none : (k : K) (l : List (K × V)) → lookup k l ≡ none → count k l ≡ 0
  unfolding count lookup
  count_of_lookup-none k [] h = refl
  count_of_lookup-none k (e ∷ l) h = ground (arith, count_of_lookup-none k l)

  pub lookup-assign :
      (k j : K) (v : V) (l : List (K × V))
      → lookup j (assign k v l) ≡ (if k == j then some v else lookup j l)
  unfolding lookup assign
  lookup-assign k j v [] = refl
  lookup-assign k j v (e ∷ l) =
      ground (arith, lookup-assign k j v l, eq_iff e.0 k, eq_iff e.0 j, eq_iff k j)

  pub count-assign :
      (k j : K) (v : V) (l : List (K × V))
      → count j (assign k v l)
        ≡ (if k == j then (if nat_beq (count j l) 0 then 1 else count j l) else count j l)
  unfolding count assign
  count-assign k j v [] = ground arith
  count-assign k j v (e ∷ l) =
      ground (arith, count-assign k j v l, eq_iff e.0 k, eq_iff e.0 j, eq_iff k j)

  pub count-remove :
      (k j : K) (l : List (K × V)) → count j (remove k l) + to_nat (k == j) ≤ count j l + 1
  unfolding count remove
  count-remove k j [] = ground arith
  count-remove k j (e ∷ l) =
      ground (arith, count-remove k j l, eq_iff e.0 k, eq_iff e.0 j, eq_iff k j)

  pub count-remove-le : (k j : K) (l : List (K × V)) → count j (remove k l) ≤ count j l
  unfolding count remove
  count-remove-le k j [] = ground arith
  count-remove-le k j (e ∷ l) = ground (arith, count-remove-le k j l)

  pub lookup-remove :
      (k j : K) (l : List (K × V))
      → count j l ≤ 1
      → lookup j (remove k l) ≡ (if k == j then none else lookup j l)
  unfolding lookup remove count
  lookup-remove k j [] h = ground arith
  lookup-remove k j (e ∷ l) h =
      ground (
        arith,
        lookup-remove k j l,
        lookup_of_count-zero j l,
        eq_iff e.0 k,
        eq_iff e.0 j,
        eq_iff k j,
      )

  pub length-remove :
      (k : K) (l : List (K × V)) → length (remove k l) + to_nat (is_some (lookup k l)) ≡ length l
  unfolding lookup remove
  length-remove k [] = omega arith
  length-remove k (e ∷ l) = ground (arith, length-remove k l)

  pub length-assign :
      (k : K) (v : V) (l : List (K × V))
      → length (assign k v l) + to_nat (is_some (lookup k l)) ≡ length l + 1
  unfolding lookup assign
  length-assign k v [] = omega arith
  length-assign k v (e ∷ l) = ground (arith, length-assign k v l)

  -- Two lists without repeated keys that read the same have the same length.
  pub length_of_lookup :
      (l r : List (K × V))
      → Once l
      → Once r
      → ((k : K) → lookup k l ≡ lookup k r)
      → length l ≡ length r
  unfolding lookup count
  length_of_lookup [] [] a b h = refl
  length_of_lookup [] (e ∷ r) a b h = absurd (ground (arith, h e.0, eq_refl e.0))
  length_of_lookup (e ∷ l) r a b h = omega (
    arith,
    length_of_lookup l (remove e.0 r) (λ k. omega (arith, a k))
        (λ k. omega (arith, b k, count-remove-le e.0 k r))
        (λ k.
          ground
            (arith, lookup-remove e.0 k r, h k, a k, b k, lookup_of_count-zero k l, eq_iff e.0 k)),
    length-remove e.0 r,
    found,
  )
    where
      found : to_nat (is_some (lookup e.0 r)) ≡ 1
      found = ground (arith, h e.0, eq_refl e.0)

  pub Once-tail : (k : K) (v : V) (l : List (K × V)) → Once ((k, v) ∷ l) → Once l
  unfolding count
  Once-tail k v l h = λ j. omega (arith, h j)

  -- The keys of the pairs that follow differ from the key of the first.
  pub apart_of_Once :
      (k j : K) (v p : V) (l : List (K × V))
      → Once ((k, v) ∷ l)
      → lookup j l ≡ some p
      → (k == j) ≡ false
  unfolding count
  apart_of_Once k j v p l h e = ground (arith, h k, eq_refl k, eq_iff k j, lookup_of_count-zero k l)

  pub count-append : (k : K) (a b : List (K × V)) → count k (a ++ b) ≡ count k a + count k b
  unfolding count
  count-append k [] b = omega arith
  count-append k (e ∷ a) b = omega (arith, count-append k a b)

  remove_past :
      (k : K) (v : V) (a b : List (K × V)) → count k a ≡ 0 → remove k (a ++ (k, v) ∷ b) ≡ a ++ b
  unfolding count remove
  remove_past k v [] b h = rw (eq_refl k)
  remove_past k v (e ∷ a) b h = ground (arith, remove_past k v a b)

  -- Removing the key of a pair in the middle leaves the pairs around it.
  pub remove_absent : (k : K) (l : List (K × V)) → lookup k l ≡ none → remove k l ≡ l
  unfolding lookup remove
  remove_absent k [] e = refl
  remove_absent k (x ∷ l) e = ground (arith, remove_absent k l)

  pub remove_middle :
      (k : K) (v : V) (a b : List (K × V))
      → Once (a ++ (k, v) ∷ b)
      → remove k (a ++ (k, v) ∷ b) ≡ a ++ b
  unfolding count
  remove_middle k v a b h =
      remove_past k v a b (ground (arith, h k, count-append k a ((k, v) ∷ b), eq_refl k))

  pub lookup_middle :
      (k : K) (v : V) (a b : List (K × V))
      → Once (a ++ (k, v) ∷ b)
      → lookup k (a ++ (k, v) ∷ b) ≡ some v
  unfolding lookup count
  lookup_middle k v [] b h = rw (eq_refl k)
  lookup_middle k v (e ∷ a) b h = ground (
    arith,
    lookup_middle k v a b (λ j. omega (arith, h j)),
    h k,
    count-append k a ((k, v) ∷ b),
    eq_refl k,
  )

  pub Once-middle : (k : K) (v : V) (a b : List (K × V)) → Once (a ++ (k, v) ∷ b) → Once (a ++ b)
  unfolding count
  Once-middle k v a b h = λ j. omega (arith, h j, count-append j a ((k, v) ∷ b), count-append j a b)

  -- A key that is found stands somewhere in the list.
  pub split_of_lookup :
      (k : K) (v : V) (l : List (K × V))
      → lookup k l ≡ some v
      → (a : List (K × V)) × (b : List (K × V)) × (l ≡ a ++ (k, v) ∷ b)
  unfolding lookup
  split_of_lookup k v [] h = cc
  split_of_lookup k v (e ∷ l) h = elim (Bool-cases (e.0 == k)) [
    | inl here ↦ ([], l, ground (arith, eq_iff e.0 k))
    | inr later ↦
        let (a, b, same) = split_of_lookup k v l (rw later at h) in (e ∷ a, b, ap (λ r. e ∷ r) same)
  ]
