-- ===== src/Mapper/Renamed.antt =====
-- `MapKeys` and `Invert` of mapper.go, which panic on a key that comes twice.
use mappo.Prelude.{
  ℕ, zero, suc, ◌+◌, ◌≤◌, ◌≡◌, refl, ap, sym, ◌∙◌, Option, none, some, List, [], ◌∷◌, map, Bool,
  true, false, if◌then◌else◌, Comparable, ◌==◌, eq_iff, eq_refl, is_some, arith, Bool-cases, inl,
  inr, ◌⊎◌,
}
use mappo.Mapper.{Mapper, content, assign_all, assign_new, map_keys, invert, is_empty, ok_get}
use mappo.Mapper.Combine.{lookup-assign_all, or_else}
use mappo.Pairs.{lookup, count, to_nat, assign, Once, lookup-assign}
use mappo.Run.{ok, panic}

-- Whether a key was written, and how often it comes, before a pair with the key and after.
more_later :
    (same : Bool) (n : ℕ) (after before : Bool)
    → after ≡ (if same then true else before)
    → (same ≡ true → before ≡ false)
    → 2 ≤ n + to_nat after
    → 2 ≤ to_nat same + n + to_nat before
more_later true n after before e f h = ground (arith, f refl)
more_later false n after before e f h = ground (arith, e)

once_before :
    (same : Bool) (n : ℕ) (after before : Bool)
    → after ≡ (if same then true else before)
    → (same ≡ true → before ≡ false)
    → (1 ≤ n → n + to_nat after ≤ 1)
    → 1 ≤ to_nat same + n
    → to_nat same + n + to_nat before ≤ 1
once_before true zero after before e f once h = ground (arith, f refl)
once_before true (suc n) after before e f once h = ground (arith, e, once (omega arith))
once_before false n after before e f once h = ground (arith, e, once (omega arith))

module _ {K V : Type 0} ⦃key : Comparable K⦄ where
  is_some-assign :
      (j k : K) (v : V) (l : List (K × V))
      → is_some (lookup k (assign j v l)) ≡ (if j == k then true else is_some (lookup k l))
  is_some-assign j k v l = elim (Bool-cases (j == k)) [
    | inl e ↦ rw (lookup-assign, e) refl
    | inr e ↦ rw (lookup-assign, e) refl
  ]

  -- A key of the pairs comes twice, or is in the result already; or all go in.
  assign_new_cases :
      (l result : List (K × V))
      → ((k : K) × (2 ≤ count k l + to_nat (is_some (lookup k result)))
          × (assign_new l result ≡ panic))
        ⊎ (((k : K) → 1 ≤ count k l → count k l + to_nat (is_some (lookup k result)) ≤ 1)
            × (assign_new l result ≡ ok (assign_all l result)))
  unfolding assign_new assign_all count
  assign_new_cases [] result = inr (λ k h. absurd (omega arith), refl)
  assign_new_cases ((j, v) ∷ l) result = elim (Bool-cases (is_some (lookup j result))) [
    | inl taken ↦ inl (j, ground (arith, eq_refl j, taken), rw taken refl)
    | inr free ↦
        let free_at = λ (k : K) (e : (j == k) ≡ true).
          (let is : is_some (lookup k result) ≡ false =
              ap (λ i. is_some (lookup i result)) (sym ((eq_iff j k).0 e)) ∙ free in
            is) in
        elim (assign_new_cases l (assign j v result)) [
          | inl (k, twice, run) ↦ inl (
            k,
            more_later (j == k) _ _ _ (is_some-assign j k v result) (free_at k) twice,
            rw free run,
          )
          | inr (once, run) ↦ inr (
            λ k h. once_before (j == k) _ _ _ (is_some-assign j k v result) (free_at k) (once k) h,
            rw free run,
          )
        ]
  ]

  -- The pairs have no key twice, and the result reads as they do; or a key is there twice.
  pub assign_new_lem :
      (l : List (K × V))
      → ((k : K) × (2 ≤ count k l) × (assign_new l [] ≡ panic))
        ⊎ (Once l
            × (m : List (K × V)) × (assign_new l [] ≡ ok m)
            × ((k : K) → lookup k m ≡ lookup k l))
  unfolding lookup
  assign_new_lem l = elim (assign_new_cases l []) [
    | inl (k, twice, run) ↦ inl (k, omega (arith, twice), run)
    | inr (once, run) ↦
        let single : Once l = λ k. at_most (count k l) (once k) in
        inr (
          single,
          assign_all l [],
          run,
          λ k. lookup-assign_all k l [] single ∙ or_else-none (lookup k l),
        )
  ]
    where
      at_most : (n : ℕ) → (1 ≤ n → n + 0 ≤ 1) → n ≤ 1
      at_most zero h = omega arith
      at_most (suc n) h = omega (arith, h (omega arith))

      or_else-none : (o : Option V) → or_else o none ≡ o
      or_else-none none = refl
      or_else-none (some v) = refl

module _ {K V : Type 0} ⦃key : Comparable K⦄ ⦃value : Comparable V⦄
    (ranged : List (K × V) → List (K × V)) where
  abbrev pub renamed : (K → K) → Mapper K V → List (K × V)
  renamed fn mapper = map (λ e. (fn e.0, e.1)) (ranged (content mapper))

  abbrev pub swapped : Mapper K V → List (V × K)
  swapped mapper = map (λ e. (e.1, e.0)) (ranged (content mapper))

  -- `MapKeys` panics when two keys become one, or else renames them all; `Invert` panics when two keys
  -- have one value, or else leads back from each value to its key.
  pub invert_lem :
      (fn : K → K) (mapper : Mapper K V)
      → is_empty mapper ≡ false
      → (((k : K) × (2 ≤ count k (renamed fn mapper)) × (map_keys ranged fn mapper ≡ panic))
          ⊎ (Once (renamed fn mapper)
              × (m : Mapper K V) × (map_keys ranged fn mapper ≡ ok m)
              × ((k : K) → ok_get k m ≡ lookup k (renamed fn mapper))))
        × (((v : V) × (2 ≤ count v (swapped mapper)) × (invert ranged mapper ≡ panic))
            ⊎ (Once (swapped mapper)
                × (m : Mapper V K) × (invert ranged mapper ≡ ok m)
                × ((v : V) → ok_get v m ≡ lookup v (swapped mapper))))
  unfolding map_keys invert ok_get
  invert_lem fn mapper some_left = (
    elim (assign_new_lem (renamed fn mapper)) [
      | inl (k, twice, run) ↦ inl (k, twice, simp (map_keys, some_left, run))
      | inr (once, m, run, reads) ↦
          inr (once, record { m = some m }, simp (map_keys, some_left, run), reads)
    ],
    elim (assign_new_lem (swapped mapper)) [
      | inl (v, twice, run) ↦ inl (v, twice, simp (invert, some_left, run))
      | inr (once, m, run, reads) ↦
          inr (once, record { m = some m }, simp (invert, some_left, run), reads)
    ],
  )
