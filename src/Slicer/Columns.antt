-- ===== src/Slicer/Columns.antt =====
-- The values of a slicer of slicer.go, stripe by stripe.
use mappo.Prelude.{ℕ, zero, suc, ◌<◌, ◌≡◌, ◌≢◌, refl, ap, ◌∙◌, List, [], ◌∷◌, ◌++◌, arith}
use mathlib.Core.List.Perm
use mathlib.Core.List.{Perm, perm_middle, append_assoc}
use mathlib.Core.Path.{subst, sym}

module _ {T : Type 0} where
  -- The values of the stripes, one stripe after the other.
  abbrev pub columns : ℕ → (ℕ → List T) → List T
  columns zero column = []
  columns (suc k) column = column 0 ++ columns k (λ j. column (suc j))

  columns_same : (k : ℕ) (f g : ℕ → List T) → ((c : ℕ) → g c ≡ f c) → columns k g ≡ columns k f
  columns_same zero f g h = refl
  columns_same (suc k) f g h =
      ap (λ l. l ++ columns k (λ j. g (suc j))) (h 0)
      ∙ ap (λ l. f 0 ++ l) (columns_same k (λ j. f (suc j)) (λ j. g (suc j)) (λ c. h (suc c)))

  pub columns_empty : (k : ℕ) (f : ℕ → List T) → ((c : ℕ) → f c ≡ []) → columns k f ≡ []
  columns_empty zero f h = refl
  columns_empty (suc k) f h =
      ap (λ l. l ++ columns k (λ j. f (suc j))) (h 0)
      ∙ columns_empty k (λ j. f (suc j)) (λ c. h (suc c))

  -- A value more in one column is a value more among all.
  pub columns_grow :
      (k j : ℕ) (f g : ℕ → List T) (v : T)
      → j < k
      → g j ≡ f j ++ v ∷ []
      → ((c : ℕ) → j ≢ c → g c ≡ f c)
      → Perm (columns k g) (v ∷ columns k f)
  columns_grow zero j f g v inside e h = absurd (omega arith)
  columns_grow (suc k) zero f g v inside e h =
      let rest = columns k (λ c. f (suc c)) in
      let same =
        ap (λ l. l ++ columns k (λ c. g (suc c))) e
        ∙ append_assoc (f 0) (v ∷ []) (columns k (λ c. g (suc c)))
        ∙ ap (λ l. f 0 ++ v ∷ l)
            (columns_same k (λ c. f (suc c)) (λ c. g (suc c)) (λ c. h (suc c) (omega arith))) in
      subst (λ l. Perm l (v ∷ f 0 ++ rest)) (sym same) (perm_middle (f 0) rest)
  columns_grow (suc k) (suc j) f g v inside e h =
      let rest = columns k (λ c. f (suc c)) in
      let more =
        columns_grow k j (λ c. f (suc c)) (λ c. g (suc c)) v (omega arith) e
          (λ c q. h (suc c) (λ p. q (omega (arith, p)))) in
      subst (λ l. Perm (l ++ columns k (λ c. g (suc c))) (v ∷ f 0 ++ rest))
        (sym (h 0 (omega arith)))
        (Perm.trans (Perm.append_left (f 0) more) (perm_middle (f 0) rest))
