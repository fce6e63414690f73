-- ===== src/Set/Elements.antt =====
-- Lists of elements that stand for the Go map of set.go.
use mappo.Prelude.{
  suc, ◌≤◌, ◌≡◌, refl, List, [], ◌∷◌, Bool, true, false, arith, if◌then◌else◌, ◌&&◌, ◌||◌, not,
  Comparable, ◌==◌, eq_iff, eq_refl, length, Bool-cases, Option-cases, inl, inr, sym, ◌∙◌, ap,
}
use mappo.Set.{Set, content, member, insert, erase, insert_all, has, all_in, add, add_if, len}

module _ {T : Type 0} ⦃key : Comparable T⦄ where
  -- No element stands twice.
  abbrev pub Distinct : List T → Type 0
  Distinct [] = Unit
  Distinct (x ∷ l) = (member x l ≡ false) × Distinct l

  pub member-insert : (x y : T) (l : List T) → member x (insert y l) ≡ ((y == x) || member x l)
  unfolding insert member
  member-insert x y l = elim (Bool-cases (member y l)) [
    | inr absent ↦ rw absent (ground arith)
    | inl there ↦ ground (arith, there, eq_iff y x)
  ]

  pub member-erase : (x y : T) (l : List T) → member x (erase y l) ≡ (not (y == x) && member x l)
  unfolding erase member
  member-erase x y [] = ground arith
  member-erase x y (z ∷ l) = ground (arith, member-erase x y l, eq_iff z y, eq_iff z x, eq_iff y x)

  pub member-insert_all :
      (x : T) (l m : List T) → member x (insert_all l m) ≡ (member x l || member x m)
  unfolding insert_all member
  member-insert_all x [] m = refl
  member-insert_all x (y ∷ l) m =
      ground (arith, member-insert_all x l (insert y m), member-insert x y m)

  pub insert-Distinct : (x : T) (l : List T) → Distinct l → Distinct (insert x l)
  unfolding insert
  insert-Distinct x l h = elim (Bool-cases (member x l)) [
    | inl there ↦ rw there h
    | inr absent ↦ rw absent (absent, h)
  ]

  pub insert_all-Distinct : (l m : List T) → Distinct m → Distinct (insert_all l m)
  unfolding insert_all
  insert_all-Distinct [] m h = h
  insert_all-Distinct (x ∷ l) m h = insert_all-Distinct l (insert x m) (insert-Distinct x m h)

  length-erase-le : (x : T) (l : List T) → length (erase x l) ≤ length l
  unfolding erase
  length-erase-le x [] = omega arith
  length-erase-le x (y ∷ l) = ground (arith, length-erase-le x l)

  length-erase : (x : T) (l : List T) → member x l ≡ true → suc (length (erase x l)) ≤ length l
  unfolding erase member
  length-erase x (y ∷ l) h = ground (arith, length-erase x l, length-erase-le x l)
  length-erase x [] h = cc

  apart_of_member :
      (x y : T) (a : List T) → member x a ≡ false → member y a ≡ true → (x == y) ≡ false
  apart_of_member x y a absent there = elim (Bool-cases (x == y)) [
    | inr e ↦ e
    | inl e ↦ let same : member x a ≡ member y a = ap (λ z. member z a) ((eq_iff x y).0 e) in cc
  ]

  still_in :
      (x y : T) (a b : List T)
      → member x a ≡ false
      → member y a ≡ true
      → member y b ≡ true
      → member y (erase x b) ≡ true
  still_in x y a b absent there e =
      member-erase y x b ∙ rw (apart_of_member x y a absent there, e) refl

  in_tail : (x y : T) (a : List T) → member y a ≡ true → member y (x ∷ a) ≡ true
  unfolding member
  in_tail x y a e = ground (arith, e)

  -- Distinct elements that all stand in another list are no more than it has.
  pub length-le_of_subset :
      (a b : List T)
      → Distinct a
      → ((x : T) → member x a ≡ true → member x b ≡ true)
      → length a ≤ length b
  unfolding member
  length-le_of_subset [] b h s = omega arith
  length-le_of_subset (x ∷ a) b (apart, h) s =
      let here : member x b ≡ true = s x (rw (eq_refl x) refl) in
      omega (
        arith,
        length-erase x b here,
        length-le_of_subset a (erase x b) h
            (λ y e. still_in x y a b apart e (s y (in_tail x y a e))),
      )

  -- As many distinct elements, all in the other list, are all of it.
  pub subset_back :
      (a b : List T) (y : T)
      → Distinct a
      → ((x : T) → member x a ≡ true → member x b ≡ true)
      → length a ≡ length b
      → member y b ≡ true
      → member y a ≡ true
  subset_back a b y h s same there = elim (Bool-cases (member y a)) [
    | inl e ↦ e
    | inr absent ↦ absurd (
        omega (
          arith,
          same,
          length-erase y b there,
          length-le_of_subset a (erase y b) h (λ x e. still_in y x a b absent e (s x e)),
        ))
  ]

  pub all_in_sound :
      (l : List T) (other : Set T) (x : T)
      → all_in l other ≡ true
      → member x l ≡ true
      → has x other ≡ true
  unfolding all_in member
  all_in_sound [] other x h e = cc
  all_in_sound (y ∷ l) other x h e = elim (Bool-cases (y == x)) [
    | inl same ↦ ap (λ z. has z other) (sym ((eq_iff y x).0 same)) ∙ first_in (has y other) _ h
    | inr apart ↦ all_in_sound l other x (rest_in (has y other) _ h) (rw apart at e)
  ]
    where
      first_in : (b c : Bool) → (if b then c else false) ≡ true → b ≡ true
      first_in b c h = ground (arith, h)

      rest_in : (b c : Bool) → (if b then c else false) ≡ true → c ≡ true
      rest_in b c h = ground (arith, h)

  pub all_in_complete :
      (l : List T) (other : Set T)
      → ((x : T) → member x l ≡ true → has x other ≡ true)
      → all_in l other ≡ true
  unfolding all_in member
  all_in_complete [] other h = refl
  all_in_complete (y ∷ l) other h =
      rw (h y (rw (eq_refl y) refl)) (all_in_complete l other (λ x e. h x (in_tail y x l e)))

  pub has-content : (x : T) (s : Set T) → has x s ≡ member x (content s)
  unfolding has
  has-content x s = elim (Option-cases s.m) [ inl e ↦ rw e refl | inr (m, e) ↦ rw e refl ]

  pub len-content : (s : Set T) → len s ≡ length (content s)
  unfolding len
  len-content s = elim (Option-cases s.m) [ inl e ↦ rw e refl | inr (m, e) ↦ rw e refl ]

  pub has-add : (x y : T) (s : Set T) → has x (add y s) ≡ ((y == x) || has x s)
  unfolding add has
  has-add x y s = member-insert x y (content s) ∙ ap (λ b. (y == x) || b) (sym (has-content x s))

  pub has-add_if :
      (selected : T → Bool) (l : List T) (result : Set T) (x : T)
      → has x (add_if selected l result) ≡ ((member x l && selected x) || has x result)
  unfolding add_if member
  has-add_if selected [] result x = refl
  has-add_if selected (y ∷ l) result x =
      let same : (y == x) ≡ true → selected y ≡ selected x = λ e. ap selected ((eq_iff y x).0 e) in
      elim (Bool-cases (selected y)) [
        | inl chosen ↦ rw chosen (
            ground
              (arith, has-add_if selected l (add y result) x, has-add x y result, same, chosen))
        | inr other ↦ rw other (ground (arith, has-add_if selected l result x, same, other))
      ]

  pub add-Distinct : (x : T) (s : Set T) → Distinct (content s) → Distinct (content (add x s))
  unfolding add
  add-Distinct x s h = insert-Distinct x (content s) h

  pub add_if-Distinct :
      (selected : T → Bool) (l : List T) (result : Set T)
      → Distinct (content result)
      → Distinct (content (add_if selected l result))
  unfolding add_if
  add_if-Distinct selected [] result h = h
  add_if-Distinct selected (x ∷ l) result h =
      add_if-Distinct selected l _
        (either (selected x) (add x result) result (add-Distinct x result h) h)
    where
      either :
          (b : Bool) (r r' : Set T)
          → Distinct (content r)
          → Distinct (content r')
          → Distinct (content (if b then r else r'))
      either true r r' h h' = h
      either false r r' h h' = h'
