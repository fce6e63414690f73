-- ===== src/Ordered/Middle.antt =====
-- Lists of pairs without repeated keys, around one pair in their middle.
use mappo.Prelude.{
  ◌≡◌, refl, ap, none, some, List, [], ◌∷◌, ◌++◌, arith, if◌then◌else◌, Comparable, eq_iff, eq_refl,
  ◌==◌,
}
use mappo.Pairs.{
  lookup, count, assign, Once, count-append, remove_middle, lookup_middle, lookup-remove,
}
use mappo.ContainerList.{put_before, put_after}

module _ {ℓ} {K W : Type ℓ} ⦃key : Comparable K⦄ where
  -- The pairs before and after the one of the key do not have the key.
  pub count_around :
      (k : K) (w : W) (a b : List (K × W))
      → Once (a ++ (k, w) ∷ b)
      → (count k a ≡ 0) × (count k b ≡ 0)
  unfolding count
  count_around k w a b h = (
    ground (arith, h k, count-append k a ((k, w) ∷ b), eq_refl k),
    ground (arith, h k, count-append k a ((k, w) ∷ b), eq_refl k),
  )

  -- A pair in the middle, as a lookup sees it.
  pub lookup_inserted :
      (k j : K) (w : W) (a b : List (K × W))
      → Once (a ++ (k, w) ∷ b)
      → lookup j (a ++ (k, w) ∷ b) ≡ (if k == j then some w else lookup j (a ++ b))
  lookup_inserted k j w a b h = ground (
    arith,
    eq_iff k j,
    lookup_middle k w a b h,
    lookup-remove k j (a ++ (k, w) ∷ b) (h j),
    ap (lookup j) (remove_middle k w a b h),
  )

  pub lookup_removed :
      (k j : K) (w : W) (a b : List (K × W))
      → Once (a ++ (k, w) ∷ b)
      → lookup j (a ++ b) ≡ (if k == j then none else lookup j (a ++ (k, w) ∷ b))
  lookup_removed k j w a b h =
      ground
        (arith, lookup-remove k j (a ++ (k, w) ∷ b) (h j), ap (lookup j) (remove_middle k w a b h))

  pub Once-insert :
      (k : K) (w : W) (a b : List (K × W))
      → Once (a ++ b)
      → count k (a ++ b) ≡ 0
      → Once (a ++ (k, w) ∷ b)
  unfolding count
  Once-insert k w a b h new =
      λ j. ground (arith, h j, count-append j a b, count-append j a ((k, w) ∷ b), eq_iff k j)

  pub assign_absent :
      (k : K) (w : W) (l : List (K × W)) → lookup k l ≡ none → assign k w l ≡ l ++ (k, w) ∷ []
  unfolding lookup assign
  assign_absent k w [] e = refl
  assign_absent k w (x ∷ l) e = ground (arith, assign_absent k w l)

  assign_past :
      (k : K) (w u : W) (a b : List (K × W))
      → count k a ≡ 0
      → assign k w (a ++ (k, u) ∷ b) ≡ a ++ (k, w) ∷ b
  unfolding count assign
  assign_past k w u [] b h = rw (eq_refl k)
  assign_past k w u (x ∷ a) b h = ground (arith, assign_past k w u a b)

  pub assign_middle :
      (k : K) (w u : W) (a b : List (K × W))
      → Once (a ++ (k, u) ∷ b)
      → assign k w (a ++ (k, u) ∷ b) ≡ a ++ (k, w) ∷ b
  assign_middle k w u a b h = assign_past k w u a b (count_around k u a b h).0

  pub put_before_middle :
      (k : K) (u : W) (x : K × W) (a b : List (K × W))
      → count k a ≡ 0
      → put_before k x (a ++ (k, u) ∷ b) ≡ a ++ x ∷ (k, u) ∷ b
  unfolding count put_before
  put_before_middle k u x [] b h = rw (eq_refl k)
  put_before_middle k u x (y ∷ a) b h = ground (arith, put_before_middle k u x a b)

  pub put_after_middle :
      (k : K) (u : W) (x : K × W) (a b : List (K × W))
      → count k a ≡ 0
      → put_after k x (a ++ (k, u) ∷ b) ≡ a ++ (k, u) ∷ x ∷ b
  unfolding count put_after
  put_after_middle k u x [] b h = rw (eq_refl k)
  put_after_middle k u x (y ∷ a) b h = ground (arith, put_after_middle k u x a b)
