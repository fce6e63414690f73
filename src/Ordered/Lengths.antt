-- ===== src/Ordered/Lengths.antt =====
-- By how much a call of ordred.go can grow the list of pairs.
use mappo.Prelude.{
  ℕ, zero, suc, ◌+◌, ◌≤◌, ◌≡◌, refl, ap, ◌∙◌, List, [], ◌∷◌, arith, length, length-append,
  length-set, get_elem?, set, Comparable, inl, inr, Option-cases, is_some,
}
use mathlib.Core.List.{tail, drop_last, reverse-cons}
use mathlib.Core.List.{reverse as reversed}
use mappo.ContainerList.{put_before, put_after}
use mappo.Pairs.{lookup, remove, length-remove, to_nat}
use mappo.Ordered.Beside.{put_beside}
use mappo.Ordered.Indexed.{erase_idx}
use mappo.Ordered.Moves.{raised, lowered}
use mappo.Ordered.Pick.{exchanged}

module _ {ℓ} {A : Type ℓ} where
  pub length-reversed : (l : List A) → length (reversed l) ≡ length l
  length-reversed [] = refl
  length-reversed (x ∷ l) =
      omega (
        arith,
        ap length (reverse-cons x l),
        length-append (reversed l) (x ∷ []),
        length-reversed l,
      )

  pub length-erase_idx : (l : List A) (n : ℕ) → length (erase_idx l n) ≤ length l
  length-erase_idx [] n = omega arith
  length-erase_idx (x ∷ l) zero = omega arith
  length-erase_idx (x ∷ l) (suc n) = omega (arith, length-erase_idx l n)

  pub length-exchanged : (i j : ℕ) (l : List A) → length (exchanged i j l) ≡ length l
  length-exchanged i j l = elim (Option-cases (get_elem? l i)) [
    | inl nothing ↦ rw (exchanged, nothing) refl
    | inr (x, found) ↦ elim (Option-cases (get_elem? l j)) [
      | inl nothing ↦ rw (exchanged, found, nothing) refl
      | inr (y, found') ↦
          rw (exchanged, found, found') (length-set (set l i y) j x ∙ length-set l i y)
    ]
  ]

  pub length-tail : (l : List A) → length (tail l) ≤ length l
  length-tail [] = omega arith
  length-tail (x ∷ l) = omega arith

  pub length-drop_last : (l : List A) → length (drop_last l) ≤ length l
  length-drop_last [] = omega arith
  length-drop_last (x ∷ []) = omega arith
  length-drop_last (x ∷ y ∷ l) = omega (arith, length-drop_last (y ∷ l))

module _ {K V : Type 0} ⦃key : Comparable K⦄ where
  pub length-put_before :
      (k : K) (x : K × V) (l : List (K × V)) → length (put_before k x l) ≤ length l + 1
  unfolding put_before
  length-put_before k x [] = omega arith
  length-put_before k x (y ∷ l) = ground (arith, length-put_before k x l)

  pub length-put_after :
      (k : K) (x : K × V) (l : List (K × V)) → length (put_after k x l) ≤ length l + 1
  unfolding put_after
  length-put_after k x [] = omega arith
  length-put_after k x (y ∷ l) = ground (arith, length-put_after k x l)

  pub length-remove-le : (k : K) (l : List (K × V)) → length (remove k l) ≤ length l
  length-remove-le k l = omega (arith, length-remove k l)

  pub length-put_beside :
      (put : K → K × V → List (K × V) → List (K × V)) (k mark : K) (v : V) (l : List (K × V))
      → ((m : List (K × V)) → length (put mark (k, v) m) ≤ length m + 1)
      → length (put_beside put k mark v l) ≤ length l + 1
  length-put_beside put k mark v l grows = elim (Option-cases (lookup mark l)) [
    | inl nothing ↦ rw (put_beside, nothing) (omega arith)
    | inr (w, found) ↦
        rw (put_beside, found) (omega (arith, grows (remove k l), length-remove-le k l))
  ]

  pub length-raised : (k : K) (l : List (K × V)) → length (raised k l) ≤ length l
  length-raised k l = elim (Option-cases (lookup k l)) [
    | inl nothing ↦ rw (raised, nothing) (omega arith)
    | inr (v, found) ↦
        rw (raised, found) (omega (arith, length-remove k l, ap (λ o. to_nat (is_some o)) found))
  ]

  pub length-lowered : (k : K) (l : List (K × V)) → length (lowered k l) ≤ length l
  length-lowered k l = elim (Option-cases (lookup k l)) [
    | inl nothing ↦ rw (lowered, nothing) (omega arith)
    | inr (v, found) ↦
        rw (lowered, found)
          (omega (
            arith,
            length-remove k l,
            length-append (remove k l) ((k, v) ∷ []),
            ap (λ o. to_nat (is_some o)) found,
          ))
  ]
