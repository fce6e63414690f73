-- ===== src/Ordered/Indexed.antt =====
-- `GetAt`, `DeleteAt` and `IndexOf` of ordred.go: what stands at an index of the list.
use mappo.Prelude.{
  ℕ, zero, suc, ◌<◌, ◌≤◌, ◌^◌, ◌↔◌, ◌≡◌, refl, ap, sym, ◌∙◌, none, some, List, [], ◌∷◌, ◌++◌, arith,
  true, false, if◌then◌else◌, ltb, Comparable, inl, inr, ◌⊎◌, length, get_elem?, get_elem?_beyond,
  length-map, ◌&&◌, lt→ltb,
}
use mathlib.Core.List.{map-append}
use mathlib.Core.Path.{subst}
use mappo.Pairs.{Once}
use mappo.MapOf.{MapOf}
use mappo.Run.{ok, ok-injective}
use mappo.Time.{Int64}
use mappo.Ordered.{Ordered, get, get_at, forward, in_range, index_of, delete_at}
use mappo.Ordered.Found.{discard-Holds, entries-Once}
use mappo.Ordered.Holds.{
  Cell, Cells, place, places, entry, entries, stored, Holds, Models, Stored-split,
}
use mappo.Ordered.Reads.{get-Models, index_of-Models, position_iff}

module _ {ℓ} {A : Type ℓ} where
  -- What stands at an index, and around it.
  pub split_at :
      (n : ℕ) (l : List A)
      → n < length l
      → (a : List A) × (x : A) × (b : List A) × (l ≡ a ++ x ∷ b) × (length a ≡ n)
  split_at n [] h = absurd (omega arith)
  split_at zero (x ∷ l) h = ([], x, l, refl, refl)
  split_at (suc n) (x ∷ l) h =
      let (a, y, b, e, n_is) = split_at n l (omega arith) in
      (x ∷ a, y, b, ap (◌∷◌ x) e, ap suc n_is)

  pub get_elem?_middle :
      (a : List A) (x : A) (b : List A) → get_elem? (a ++ x ∷ b) (length a) ≡ some x
  get_elem?_middle [] x b = refl
  get_elem?_middle (y ∷ a) x b = get_elem?_middle a x b

  -- The list without what stands at an index.
  abbrev pub erase_idx : List A → ℕ → List A
  erase_idx [] n = []
  erase_idx (x ∷ l) zero = l
  erase_idx (x ∷ l) (suc n) = x ∷ erase_idx l n

  erase_idx_middle : (a : List A) (x : A) (b : List A) → erase_idx (a ++ x ∷ b) (length a) ≡ a ++ b
  erase_idx_middle [] x b = refl
  erase_idx_middle (y ∷ a) x b = ap (◌∷◌ y) (erase_idx_middle a x b)

  erase_idx_beyond : (l : List A) (n : ℕ) → length l ≤ n → erase_idx l n ≡ l
  erase_idx_beyond [] n h = refl
  erase_idx_beyond (x ∷ l) zero h = absurd (omega arith)
  erase_idx_beyond (x ∷ l) (suc n) h = ap (◌∷◌ x) (erase_idx_beyond l n (omega arith))

pub forward_middle :
    (a : List (ℕ × ℕ)) (x : ℕ × ℕ) (b : List (ℕ × ℕ)) → forward (length a) (a ++ x ∷ b) ≡ ok x
unfolding forward
forward_middle [] x b = refl
forward_middle (y ∷ a) x b = forward_middle a x b

module _ {K V : Type 0} ⦃key : Comparable K⦄ {xsync : MapOf K ℕ} where
  -- What stands at an index of a map that stands for `es`.
  pub record Placed (i : ℕ) (o : Ordered xsync V) (es : List (K × V)) : Type 0 where
    pub cell : K × Cell V
    pub before : Cells K V
    pub after : Cells K V
    pub holds : Holds o (before ++ cell ∷ after)
    pub shows : entries before ++ entry cell ∷ entries after ≡ es
    pub index : length before ≡ i
    pub found : forward i o.order.elements ≡ ok (place cell)
    pub reads : o.heap cell.1.address ≡ stored cell
    pub value : get_elem? es i ≡ some (entry cell)
    pub others : erase_idx es i ≡ entries before ++ entries after

  pub at_lem :
      (i : ℕ) (o : Ordered xsync V) (es : List (K × V))
      → Models o es
      → i < length es
      → Placed i o es
  at_lem i o es m h =
      let (a, c, b, same, index) =
        split_at i m.cells (omega (arith, length-map m.cells entry, ap length m.shows)) in
      let holds : Holds o (a ++ c ∷ b) = subst (Holds o) same m.holds in
      let shows = sym (map-append entry a (c ∷ b)) ∙ ap entries (sym same) ∙ m.shows in
      let index' : i ≡ length (entries a) = sym (length-map a entry ∙ index) in
      record {
        cell = c;
        before = a;
        after = b;
        holds = holds;
        shows = shows;
        index = index;
        found =
            subst (λ n. forward n o.order.elements ≡ ok (place c)) (length-map a place ∙ index)
              (ap (forward (length (places a))) (holds.kept.order ∙ map-append place a (c ∷ b))
                ∙ forward_middle (places a) (place c) (places b));
        reads = (Stored-split o.heap a (c ∷ b) holds.kept.at).1.0;
        value =
            ap (get_elem? es) index'
            ∙ ap (λ l. get_elem? l (length (entries a))) (sym shows)
            ∙ get_elem?_middle (entries a) (entry c) (entries b);
        others =
            ap (erase_idx es) index'
            ∙ ap (λ l. erase_idx l (length (entries a))) (sym shows)
            ∙ erase_idx_middle (entries a) (entry c) (entries b);
      }

  pub in_range_lem :
      (i : Int64) (o : Ordered xsync V) (es : List (K × V))
      → Models o es
      → in_range i o.order ≡ (ltb i (2 ^ 63) && ltb i (length es))
  unfolding in_range
  in_range_lem i o es m =
      let same =
        ap length m.holds.kept.order
        ∙ length-map m.cells place
        ∙ sym (length-map m.cells entry)
        ∙ ap length m.shows in
      rw (in_range, same) refl

  -- The index is in range, or nothing stands there.
  pub range-cases :
      (i : Int64) (o : Ordered xsync V) (es : List (K × V))
      → Models o es
      → ((in_range i o.order ≡ true) × ((ltb i (2 ^ 63) ≡ true) × (i < length es)))
        ⊎ ((in_range i o.order ≡ false) × ((ltb i (2 ^ 63) ≡ false) ⊎ (length es ≤ i)))
  range-cases i o es m = ground (arith, in_range_lem i o es m)

  get_at-Models :
      (i : Int64) (o : Ordered xsync V) (es : List (K × V))
      → Models o es
      → get_at i o ≡ ok (if ltb i (2 ^ 63) then get_elem? es i else none)
  unfolding get_at
  get_at-Models i o es m = elim (range-cases i o es m) [
    | inl (inside, (small, below)) ↦
        let p = at_lem i o es m below in rw (get_at, inside, small, p.found, p.reads, p.value) refl
    | inr (outside, inl big) ↦ rw (get_at, outside, big) refl
    | inr (outside, inr far) ↦
        rw (get_at, outside) (ap ok (ground (arith, get_elem?_beyond es i far)))
  ]

  -- `DeleteAt` does not delete at an index that is negative, which erases nothing from a list that
  -- memory can hold.
  pub delete_at-Models :
      (i : Int64) (o : Ordered xsync V) (es : List (K × V))
      → Models o es
      → length es < 2 ^ 63
      → (o' : Ordered xsync V) × (delete_at i o ≡ ok (ltb i (length es), o'))
        × Models o' (erase_idx es i)
  unfolding delete_at
  delete_at-Models i o es m fits = elim (range-cases i o es m) [
    | inl (inside, (small, below)) ↦
        let p = at_lem i o es m below in
        let (o', run, holds, _) = discard-Holds o p.before p.after p.cell.0 p.cell.1 p.holds in
        (
          o',
          rw (delete_at, inside, p.found, p.reads, run, lt→ltb i (length es) below) refl,
          record {
            cells = p.before ++ p.after;
            holds = holds;
            shows = map-append entry p.before p.after ∙ sym p.others;
          },
        )
    | inr (outside, beyond) ↦
        let far : length es ≤ i = ground (arith, beyond) in
        (
          o,
          rw (delete_at, outside) (ap (λ b. ok (b, o)) (ground arith)),
          subst (Models o) (sym (erase_idx_beyond es i far)) m,
        )
  ]

  -- A pair is at an index exactly when the index is the key's and the value is the key's.
  pub get_at-index_of :
      (i : ℕ) (k : K) (v : V) (o : Ordered xsync V) (es : List (K × V))
      → Models o es
      → length es < 2 ^ 63
      → (get_at i o ≡ ok (some (k, v))) ↔ ((index_of k o ≡ some i) × (get k o ≡ some v))
  get_at-index_of i k v o es m fits =
      let once : Once es = subst Once m.shows (entries-Once m.cells m.holds.kept.once) in
      let same = position_iff k v i es once in
      let at : get_at i o ≡ ok (get_elem? es i) =
        get_at-Models i o es m ∙ ap ok (ground (arith, get_elem?_beyond es i)) in
      rw (at, index_of-Models k o es m, (get-Models k o es m).0)
        ((λ e. same.0 (ok-injective _ _ e)), (λ e. ap ok (same.1 e)))
