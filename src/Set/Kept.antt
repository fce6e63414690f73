-- ===== src/Set/Kept.antt =====
-- The elements of the sets that set.go makes do not repeat.
use mappo.Prelude.{
  ◌≡◌, refl, List, [], ◌∷◌, Bool, arith, ◌&&◌, ◌||◌, not, Comparable, ◌==◌, Bool-cases,
  Option-cases, inl, inr, sym, ◌∙◌, ap, ltb,
}
use mathlib.Core.Path.{subst}
use mappo.Set.{
  Set, content, member, has, len, add, remove, new_set, union, intersection, difference,
  symmetric_difference, filter, insert_all, erase,
}
use mappo.Set.Elements.{
  Distinct, member-erase, insert_all-Distinct, has-content, has-add, add-Distinct, add_if-Distinct,
}

module _ {T : Type 0} ⦃key : Comparable T⦄ where
  erase-Distinct : (x : T) (l : List T) → Distinct l → Distinct (erase x l)
  unfolding erase
  erase-Distinct x [] h = h
  erase-Distinct x (y ∷ l) (apart, h) = elim (Bool-cases (y == x)) [
    | inl e ↦ rw (e, Distinct) (erase-Distinct x l h)
    | inr e ↦ rw (e, Distinct) (member-erase y x l ∙ ground (arith, apart), erase-Distinct x l h)
  ]

  content-remove : (x : T) (s : Set T) → content (remove x s) ≡ erase x (content s)
  unfolding remove erase
  content-remove x s = elim (Option-cases s.m) [ inl e ↦ rw e refl | inr (m, e) ↦ rw e refl ]

  union-Distinct : (ranged : List T → List T) (a b : Set T) → Distinct (content (union ranged a b))
  unfolding union
  union-Distinct ranged a b = elim (Bool-cases (ltb (len b) (len a))) [
    | inl e ↦
        rw (e, Distinct)
          (insert_all-Distinct (ranged (content b)) _
            (insert_all-Distinct (ranged (content a)) [] tt))
    | inr e ↦
        rw (e, Distinct)
          (insert_all-Distinct (ranged (content a)) _
            (insert_all-Distinct (ranged (content b)) [] tt))
  ]

  intersection-Distinct :
      (ranged : List T → List T) (a b : Set T) → Distinct (content (intersection ranged a b))
  unfolding intersection new_set insert_all
  intersection-Distinct ranged a b = elim (Bool-cases (ltb (len a) (len b))) [
    | inl e ↦ rw (e, Distinct) (add_if-Distinct (λ x. has x b) (ranged (content a)) (new_set []) tt)
    | inr e ↦ rw (e, Distinct) (add_if-Distinct (λ x. has x a) (ranged (content b)) (new_set []) tt)
  ]

  -- Every operation that makes or changes a set keeps its elements from repeating, and `Add` and
  -- `Remove` change the membership of their element alone.
  pub remove-Distinct :
      (ranged : List T → List T) (x y : T) (fn : T → Bool) (elems : List T) (a b : Set T)
      → Distinct (content a)
      → Distinct (content (new_set elems))
        × (Distinct (content (add x a)) × (has y (add x a) ≡ ((x == y) || has y a)))
        × (Distinct (content (remove x a)) × (has y (remove x a) ≡ (not (x == y) && has y a)))
        × Distinct (content (union ranged a b))
        × Distinct (content (intersection ranged a b))
        × Distinct (content (difference ranged a b))
        × Distinct (content (symmetric_difference ranged a b))
        × Distinct (content (filter ranged fn a))
  unfolding new_set insert_all difference symmetric_difference filter
  remove-Distinct ranged x y fn elems a b h = (
    insert_all-Distinct elems [] tt,
    (add-Distinct x a h, has-add y x a),
    (
      subst (λ l. Distinct l) (sym (content-remove x a)) (erase-Distinct x (content a) h),
      has-content y (remove x a)
          ∙ ap (member y) (content-remove x a)
          ∙ member-erase y x (content a)
          ∙ ap (λ c. not (x == y) && c) (sym (has-content y a)),
    ),
    union-Distinct ranged a b,
    intersection-Distinct ranged a b,
    add_if-Distinct (λ z. not (has z b)) (ranged (content a)) (new_set []) tt,
    add_if-Distinct (λ z. not (has z a)) (ranged (content b)) _
        (add_if-Distinct (λ z. not (has z b)) (ranged (content a)) (new_set []) tt),
    add_if-Distinct fn (ranged (content a)) (new_set []) tt,
  )
