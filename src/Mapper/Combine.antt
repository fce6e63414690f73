-- ===== src/Mapper/Combine.antt =====
-- `Merge` and `MergeWith` of mapper.go.
use mappo.Prelude.{
  ◌≤◌, ◌<◌, ◌≡◌, refl, ap, sym, ◌∙◌, Option, none, some, List, [], ◌∷◌, Bool, true, false,
  if◌then◌else◌, Comparable, ◌==◌, length, arith, Bool-cases, inl, inr, is_some,
}
use mathlib.Core.Path.{subst}
use mappo.Mapper.{
  Mapper, content, nil, merge, merge_loop, assign_all, merge_all, merge_with, merge_with_loop,
  clone, is_empty, len, ok_get,
}
use mappo.Pairs.{
  lookup, count, to_nat, assign, Once, Once-tail, lookup-assign, lookup_of_count-zero,
  length-assign,
}
use mappo.Run.{panic}

module _ {V : Type 0} where
  -- The first that is there.
  abbrev pub or_else : Option V → Option V → Option V
  or_else (some v) other = some v
  or_else none other = other

to_nat-le : (b : Bool) → to_nat b ≤ 1
to_nat-le true = omega arith
to_nat-le false = omega arith

module _ {K V : Type 0} where
  is_empty_of_length : (l : List (K × V)) → 0 < length l → is_empty (record { m = some l }) ≡ false
  unfolding is_empty len
  is_empty_of_length l h = ground arith

module _ {K V : Type 0} ⦃key : Comparable K⦄ where
  -- The value under the key in the last map that has one.
  abbrev pub latest : K → Option V → List (Mapper K V) → Option V
  latest k found [] = found
  latest k found (mapper ∷ maps) = latest k (or_else (lookup k (content mapper)) found) maps

  abbrev pub AllOnce : List (Mapper K V) → Type 0
  AllOnce [] = Unit {0}
  AllOnce (mapper ∷ maps) = Once (content mapper) × AllOnce maps

  pub lookup-assign_all :
      (k : K) (l result : List (K × V))
      → Once l
      → lookup k (assign_all l result) ≡ or_else (lookup k l) (lookup k result)
  unfolding assign_all lookup count
  lookup-assign_all k [] result once = refl
  lookup-assign_all k ((j, v) ∷ l) result once =
      let rest = lookup-assign_all k l (assign j v result) (Once-tail j v l once) in
      elim (Bool-cases (j == k)) [
        | inl same ↦
            let gone : lookup k l ≡ none =
              lookup_of_count-zero k l (ground (arith, once k, same)) in
            let written : lookup k (assign j v result) ≡ some v =
              lookup-assign j k v result
              ∙ ap (λ (b : Bool). if b then some v else lookup k result) same in
            rest ∙ ap (λ o. or_else o (lookup k (assign j v result))) gone ∙ written ∙ rw same refl
        | inr other ↦
            let written : lookup k (assign j v result) ≡ lookup k result =
              lookup-assign j k v result
              ∙ ap (λ (b : Bool). if b then some v else lookup k result) other in
            rest ∙ ap (or_else (lookup k l)) written ∙ rw other refl
      ]

  module _ (ranged : List (K × V) → List (K × V)) where
    -- An iteration visits the pairs of a map, in some order.
    abbrev pub Visits : Type 0
    Visits =
        (l : List (K × V)) → Once l → Once (ranged l) × ((k : K) → lookup k (ranged l) ≡ lookup k l)

    lookup-merge_loop :
        (k : K) (maps : List (Mapper K V)) (result : List (K × V))
        → Visits
        → AllOnce maps
        → lookup k (merge_loop ranged maps result) ≡ latest k (lookup k result) maps
    unfolding merge_loop
    lookup-merge_loop k [] result visits once = refl
    lookup-merge_loop k (mapper ∷ maps) result visits (once, others) =
        let (single, same) = visits (content mapper) once in
        lookup-merge_loop k maps (assign_all (ranged (content mapper)) result) visits others
        ∙ ap (λ o. latest k o maps)
            (lookup-assign_all k (ranged (content mapper)) result single
              ∙ ap (λ o. or_else o (lookup k result)) (same k))

    -- `Merge` reads as the last map that has the key.
    pub ok_get-merge :
        (k : K) (maps : List (Mapper K V))
        → Visits
        → AllOnce maps
        → ok_get k (merge ranged maps) ≡ latest k none maps
    unfolding merge ok_get lookup
    ok_get-merge k maps visits once = lookup-merge_loop k maps [] visits once

    length-merge_all :
        (merge_fn : K → V → V → V) (l result : List (K × V))
        → length result ≤ length (merge_all merge_fn l result)
    unfolding merge_all
    length-merge_all merge_fn [] result = omega arith
    length-merge_all merge_fn (e ∷ l) result =
        let value = elim (lookup e.0 result) as (λ _. V) [
          | some existing ↦ merge_fn e.0 existing e.1
          | none ↦ e.1
        ] in
        omega (
          arith,
          length-assign e.0 value result,
          to_nat-le (is_some (lookup e.0 result)),
          length-merge_all merge_fn l (assign e.0 value result),
        )

    length-merge_with_loop :
        (merge_fn : K → V → V → V) (maps : List (Mapper K V)) (result : List (K × V))
        → length result ≤ length (merge_with_loop ranged merge_fn maps result)
    unfolding merge_with_loop
    length-merge_with_loop merge_fn [] result = omega arith
    length-merge_with_loop merge_fn (mapper ∷ maps) result = omega (
      arith,
      length-merge_all merge_fn (ranged (content mapper)) result,
      length-merge_with_loop merge_fn maps (merge_all merge_fn (ranged (content mapper)) result),
    )

    -- `MergeWith` whose first map is nil panics when it comes to a pair.
    pub merge_with_panics :
        (merge_fn : K → V → V → V) (second : Mapper K V) (maps : List (Mapper K V)) (e : K × V)
        (l : List (K × V))
        → ranged (content second) ≡ e ∷ l
        → merge_with ranged merge_fn (nil ∷ second ∷ maps) ≡ panic
    unfolding merge_with clone merge_with_loop merge_all assign lookup
    merge_with_panics merge_fn second maps e l visited =
        let merged = merge_all merge_fn (ranged (content second)) [] in
        let one : 1 ≤ length merged =
          subst (λ p. 1 ≤ length (merge_all merge_fn p [])) (sym visited)
            (length-merge_all merge_fn l (e ∷ [])) in
        let all = merge_with_loop ranged merge_fn maps merged in
        let written : is_empty (record { m = some all }) ≡ false =
          is_empty_of_length all
            (omega (arith, one, length-merge_with_loop merge_fn maps merged)) in
        rw written refl
