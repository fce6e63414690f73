-- ===== src/Set/Laws.antt =====
-- The operations of set.go by the membership of their results.
use mappo.Prelude.{
  ◌≡◌, refl, List, [], Bool, true, false, arith, if◌then◌else◌, ◌&&◌, ◌||◌, not, Comparable, length,
  Bool-cases, inl, inr, sym, ◌∙◌, ap, nat_beq, ltb,
}
use mappo.Set.{
  Set, content, member, has, len, new_set, union, intersection, difference, symmetric_difference,
  filter, clone, equal, is_subset, all_in, insert_all, add_if,
}
use mappo.Set.Elements.{
  Distinct, member-insert_all, length-le_of_subset, subset_back, all_in_sound, all_in_complete,
  has-content, len-content, has-add_if,
}

module _ {T : Type 0} ⦃key : Comparable T⦄ where
  has-new_set : (x : T) → has x (new_set []) ≡ false
  unfolding new_set has member insert_all
  has-new_set x = refl

  member-both :
      (x : T) (l l' : List T)
      → member x (insert_all l (insert_all l' [])) ≡ (member x l || member x l')
  unfolding member
  member-both x l l' =
      ground (arith, member-insert_all x l (insert_all l' []), member-insert_all x l' [])

module _ {T : Type 0} ⦃key : Comparable T⦄ (ranged : List T → List T) where
  -- An iteration visits the elements of the map, in some order.
  abbrev pub Visits : Type 0
  Visits = (y : T) (l : List T) → member y (ranged l) ≡ member y l

  has-selected :
      (selected : T → Bool) (s : Set T) (result : Set T) (x : T)
      → Visits
      → has x (add_if selected (ranged (content s)) result)
        ≡ ((has x s && selected x) || has x result)
  has-selected selected s result x visits =
      has-add_if selected (ranged (content s)) result x
      ∙ ap (λ b. (b && selected x) || has x result) (visits x (content s) ∙ sym (has-content x s))

  has-union : (x : T) (a b : Set T) → Visits → has x (union ranged a b) ≡ (has x a || has x b)
  unfolding union has
  has-union x a b visits =
      let of_a = visits x (content a) ∙ sym (has-content x a) in
      let of_b = visits x (content b) ∙ sym (has-content x b) in
      elim (Bool-cases (ltb (len b) (len a))) [
        | inl e ↦
            rw e
              (member-both x (ranged (content b)) (ranged (content a)) ∙ ground (arith, of_a, of_b))
        | inr e ↦
            rw e
              (member-both x (ranged (content a)) (ranged (content b)) ∙ ground (arith, of_a, of_b))
      ]

  has-intersection :
      (x : T) (a b : Set T) → Visits → has x (intersection ranged a b) ≡ (has x a && has x b)
  unfolding intersection
  has-intersection x a b visits = elim (Bool-cases (ltb (len a) (len b))) [
    | inl e ↦
        rw e (ground (arith, has-selected (λ y. has y b) a (new_set []) x visits, has-new_set x))
    | inr e ↦
        rw e (ground (arith, has-selected (λ y. has y a) b (new_set []) x visits, has-new_set x))
  ]

  has-difference :
      (x : T) (a b : Set T) → Visits → has x (difference ranged a b) ≡ (has x a && not (has x b))
  unfolding difference
  has-difference x a b visits =
      ground (arith, has-selected (λ y. not (has y b)) a (new_set []) x visits, has-new_set x)

  -- When an iteration visits the elements of a map in some order, `Union`, `Intersection`,
  -- `Difference`, `SymmetricDifference` and `Filter` have as elements what their names say.
  pub has-symmetric_difference :
      (x : T) (fn : T → Bool) (a b : Set T)
      → Visits
      → (has x (union ranged a b) ≡ (has x a || has x b))
        × (has x (intersection ranged a b) ≡ (has x a && has x b))
        × (has x (difference ranged a b) ≡ (has x a && not (has x b)))
        × (has x (symmetric_difference ranged a b)
            ≡ ((has x a && not (has x b)) || (has x b && not (has x a))))
        × (has x (filter ranged fn a) ≡ (has x a && fn x))
        × (has x (clone ranged a) ≡ has x a)
  unfolding symmetric_difference filter clone
  has-symmetric_difference x fn a b visits =
      let first = has-selected (λ y. not (has y b)) a (new_set []) x visits in
      let second =
        has-selected (λ y. not (has y a)) b
          (add_if (λ y. not (has y b)) (ranged (content a)) (new_set [])) x visits in
      (
        has-union x a b visits,
        has-intersection x a b visits,
        has-difference x a b visits,
        ground (arith, first, second, has-new_set x),
        ground (arith, has-selected fn a (new_set []) x visits, has-new_set x),
        ground (arith, has-selected (λ y. true) a (new_set []) x visits, has-new_set x),
      )

  all_in-visits :
      (a b : Set T)
      → Visits
      → (all_in (ranged (content a)) b ≡ true → (x : T) → has x a ≡ true → has x b ≡ true)
        × (((x : T) → has x a ≡ true → has x b ≡ true) → all_in (ranged (content a)) b ≡ true)
  all_in-visits a b visits = (
    λ h x e.
        all_in_sound (ranged (content a)) b x h (visits x (content a) ∙ sym (has-content x a) ∙ e),
    λ h.
        all_in_complete (ranged (content a)) b
          (λ x e. h x (has-content x a ∙ sym (visits x (content a)) ∙ e)),
  )

  contents :
      (a b : Set T)
      → ((x : T) → has x a ≡ true → has x b ≡ true)
      → (x : T) → member x (content a) ≡ true
      → member x (content b) ≡ true
  contents a b h x e = sym (has-content x b) ∙ h x (has-content x a ∙ e)

  -- For sets without repeated elements, `IsSubset` and `IsSuperset` tell whether each element of the
  -- one set is in the other.
  pub is_subset-has :
      (a b : Set T)
      → Visits
      → Distinct (content a)
      → (is_subset ranged a b ≡ true → (x : T) → has x a ≡ true → has x b ≡ true)
        × (((x : T) → has x a ≡ true → has x b ≡ true) → is_subset ranged a b ≡ true)
  unfolding is_subset
  is_subset-has a b visits distinct =
      let (sound, complete) = all_in-visits a b visits in
      (
        λ h. sound (not_larger _ _ h),
        λ h.
            let fewer = length-le_of_subset (content a) (content b) distinct (contents a b h) in
            let fits : ltb (len b) (len a) ≡ false =
              ground (arith, fewer, len-content a, len-content b) in
            rw fits (complete h),
      )
    where
      not_larger : (c d : Bool) → (if c then false else d) ≡ true → d ≡ true
      not_larger c d h = ground (arith, h)

  -- For sets without repeated elements, `Equal` tells whether the sets have the same elements.
  pub equal-has :
      (a b : Set T)
      → Visits
      → Distinct (content a)
      → Distinct (content b)
      → (equal ranged a b ≡ true → (x : T) → has x a ≡ has x b)
        × (((x : T) → has x a ≡ has x b) → equal ranged a b ≡ true)
  unfolding equal
  equal-has a b visits da db =
      let (sound, complete) = all_in-visits a b visits in
      (
        λ h x.
            let (same, all) =
              both_hold (nat_beq (len a) (len b)) (all_in (ranged (content a)) b) h in
            let long : length (content a) ≡ length (content b) =
              ground (arith, same, len-content a, len-content b) in
            let forth = sound all x in
            let back = λ (e : has x b ≡ true).
              has-content x a
              ∙ subset_back (content a) (content b) x da (contents a b (sound all)) long
                  (sym (has-content x b) ∙ e) in
            both_true (has x a) (has x b) forth back,
        λ h.
            let forth =
              length-le_of_subset (content a) (content b) da
                (contents a b (λ x e. sym (h x) ∙ e)) in
            let back =
              length-le_of_subset (content b) (content a) db (contents b a (λ x e. h x ∙ e)) in
            let same : nat_beq (len a) (len b) ≡ true =
              ground (arith, forth, back, len-content a, len-content b) in
            rw same (complete (λ x e. sym (h x) ∙ e)),
      )
    where
      both_hold : (c d : Bool) → (if c then d else false) ≡ true → (c ≡ true) × (d ≡ true)
      both_hold true d h = (refl, h)
      both_hold false d h = cc

      both_true : (c d : Bool) → (c ≡ true → d ≡ true) → (d ≡ true → c ≡ true) → c ≡ d
      both_true true d f g = sym (f refl)
      both_true false true f g = g refl
      both_true false false f g = refl
