-- ===== src/Ordered/Pick.antt =====
-- A list with two elements exchanged, and how ordred.go's `Swap` finds them.
use mappo.Prelude.{
  get_elem?_beyond, ℕ, zero, suc, ◌+◌, ◌≤◌, ◌<◌, ◌≡◌, refl, ap, sym, ◌∙◌, Option, none, some, List,
  [], ◌∷◌, ◌++◌, arith, nat_comparable, inl, inr, Option-cases, length, get_elem?, set,
  length-append, ◌⊎◌,
}
use mathlib.Core.List.{append_assoc}
use mathlib.Core.Option.{some-injective}
use mappo.Ordered.Indexed.{get_elem?_middle}
use mappo.Ordered.Whole.{swap_loop}
use mappo.Ordered.Indexed.{}

module _ {ℓ} {A : Type ℓ} where
  -- The list after the elements at two indices are exchanged, if there are two.
  abbrev pub exchanged : ℕ → ℕ → List A → List A
  exchanged i j l = elim (get_elem? l i) [
    | none ↦ l
    | some x ↦ elim (get_elem? l j) [ none ↦ l | some y ↦ set (set l i y) j x ]
  ]

  set_middle :
      (i : ℕ) (a : List A) (x y : A) (b : List A) → i ≡ length a → set (a ++ x ∷ b) i y ≡ a ++ y ∷ b
  set_middle zero [] x y b h = refl
  set_middle (suc i) [] x y b h = absurd (omega arith)
  set_middle zero (z ∷ a) x y b h = absurd (omega arith)
  set_middle (suc i) (z ∷ a) x y b h = ap (◌∷◌ z) (set_middle i a x y b (omega arith))

  get_middle :
      (i : ℕ) (a : List A) (x : A) (b : List A) → i ≡ length a → get_elem? (a ++ x ∷ b) i ≡ some x
  get_middle i a x b h = rw h (get_elem?_middle a x b)

  pub exchanged_lem :
      (i j : ℕ) (x y : A) (a b d : List A)
      → i ≡ length a
      → j ≡ length a + 1 + length b
      → (exchanged i j (a ++ x ∷ (b ++ y ∷ d)) ≡ a ++ y ∷ (b ++ x ∷ d))
        × (exchanged j i (a ++ x ∷ (b ++ y ∷ d)) ≡ a ++ y ∷ (b ++ x ∷ d))
  exchanged_lem i j x y a b d at_i at_j =
      let beyond = λ (z : A). j_is a b z in
      let get_i = get_middle i a x (b ++ y ∷ d) at_i in
      let get_j =
        ap (λ l. get_elem? l j) (sym (append_assoc a (x ∷ b) (y ∷ d)))
        ∙ get_middle j (a ++ x ∷ b) y d (at_j ∙ beyond x) in
      let set_j = λ (z : A).
        ap (λ l. set l j x) (sym (append_assoc a (z ∷ b) (y ∷ d)))
        ∙ set_middle j (a ++ z ∷ b) y x d (at_j ∙ beyond z)
        ∙ append_assoc a (z ∷ b) (x ∷ d) in
      (
        rw (exchanged, get_i, get_j)
            (ap (λ l. set l j x) (set_middle i a x y (b ++ y ∷ d) at_i) ∙ set_j y),
        rw (exchanged, get_j, get_i)
            (ap (λ l. set l i y) (set_j x) ∙ set_middle i a x y (b ++ x ∷ d) at_i),
      )
    where
      j_is : (a b : List A) (z : A) → length a + 1 + length b ≡ length (a ++ z ∷ b)
      j_is a b z = omega (arith, length-append a (z ∷ b))

module _ {ℓ} {A : Type ℓ} where
  set_same : (l : List A) (i : ℕ) (x : A) → get_elem? l i ≡ some x → set l i x ≡ l
  set_same [] i x e = refl
  set_same (y ∷ l) zero x e = ap (λ z. z ∷ l) (sym (some-injective _ _ e))
  set_same (y ∷ l) (suc i) x e = ap (◌∷◌ y) (set_same l i x e)

  pub exchanged_self : (i : ℕ) (l : List A) → exchanged i i l ≡ l
  exchanged_self i l = elim (Option-cases (get_elem? l i)) [
    | inl nothing ↦ rw (exchanged, nothing) refl
    | inr (x, found) ↦
        rw (exchanged, found, found)
          (ap (λ m. set m i x) (set_same l i x found) ∙ set_same l i x found)
  ]

module _ {ℓ} {A : Type ℓ} where
  pub exchanged_beyond :
      (i j : ℕ) (l : List A) → (length l ≤ i) ⊎ (length l ≤ j) → exchanged i j l ≡ l
  exchanged_beyond i j l (inl far) = rw (exchanged, get_elem?_beyond l i far) refl
  exchanged_beyond i j l (inr far) = elim (Option-cases (get_elem? l i)) [
    | inl nothing ↦ rw (exchanged, nothing) refl
    | inr (x, found) ↦ rw (exchanged, found, get_elem?_beyond l j far) refl
  ]

swap_loop_past :
    (i idx : ℕ) (l : List (ℕ × ℕ)) (found : Option (ℕ × ℕ))
    → i < idx
    → swap_loop i idx l found ≡ found
unfolding swap_loop
swap_loop_past i idx [] found h = refl
swap_loop_past i idx (e ∷ l) found h =
    ap (swap_loop i (suc idx) l) (ground arith) ∙ swap_loop_past i (suc idx) l found (omega arith)

pub swap_loop_lem :
    (i idx : ℕ) (a : List (ℕ × ℕ)) (x : ℕ × ℕ) (b : List (ℕ × ℕ)) (found : Option (ℕ × ℕ))
    → i ≡ idx + length a
    → swap_loop i idx (a ++ x ∷ b) found ≡ some x
unfolding swap_loop
swap_loop_lem i idx [] x b found h =
    ap (swap_loop i (suc idx) b) (ground arith)
    ∙ swap_loop_past i (suc idx) b (some x) (omega arith)
swap_loop_lem i idx (y ∷ a) x b found h = swap_loop_lem i (suc idx) a x b _ (omega arith)
