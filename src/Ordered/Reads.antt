-- ===== src/Ordered/Reads.antt =====
-- The methods of ordred.go that change nothing, against a list of pairs.
use mappo.Prelude.{
  ℕ, zero, suc, ◌+◌, ◌<◌, ◌↔◌, ◌≢◌, ◌≡◌, refl, ap, sym, ◌∙◌, Option, none, some, List, [], ◌∷◌,
  ◌++◌, map, arith, Bool, if◌then◌else◌, Comparable, eq_iff, ◌==◌, inl, inr, is_some, length,
  get_elem?, length-map, Bool-cases,
}
use mathlib.Core.List.{map-append, map-map, head?, get_last?}
use mathlib.Core.Option.{some-injective, none-ne-some}
use mathlib.Core.Path.{subst}
use mappo.Pairs.{lookup, count, Once}
use mappo.MapOf.{MapOf}
use mappo.Visit.{visit}
use mappo.Ordered.{OrderedElement, Ordered, get, index_of, index_of_loop}
use mappo.Ordered.Found.{find_lem}
use mappo.Ordered.Holds.{
  Cell, Cells, place, places, entry, entries, stored, Stored, Kept, Models, Stored-split,
}
use mappo.Ordered.Whole.{shown, walk, has, len, keys, values, range, front, back, last_element}

module _ {ℓ} {A : Type ℓ} where
  pub get_last?_end : (a : List A) (x : A) → get_last? (a ++ x ∷ []) ≡ some x
  get_last?_end [] x = refl
  get_last?_end (y ∷ []) x = refl
  get_last?_end (y ∷ z ∷ a) x = get_last?_end (z ∷ a) x

module _ {K V : Type 0} where
  -- The last element of a list that has one.
  pub last-places :
      (c : K × Cell V) (cs : Cells K V)
      → (a : Cells K V) × (d : K × Cell V) × (c ∷ cs ≡ a ++ d ∷ [])
        × (last_element (place c) (places cs) ≡ place d)
  unfolding last_element
  last-places c [] = ([], c, refl, refl)
  last-places c (c' ∷ cs) =
      let (a, d, e, last) = last-places c' cs in (c ∷ a, d, ap (◌∷◌ c) e, last)

  map-stored :
      {B : Type 0} (f : OrderedElement K V → B) (heap : ℕ → OrderedElement K V) (cs : Cells K V)
      → Stored heap cs
      → map (λ e. f (heap e.1)) (places cs) ≡ map (λ c. f (stored c)) cs
  map-stored f heap [] s = refl
  map-stored f heap (c ∷ cs) (s, rest) = rw s (ap (◌∷◌ (f (stored c))) (map-stored f heap cs rest))

-- The index of the first pair with the key.
abbrev pub shift : ℕ → Option ℕ → Option ℕ
shift n none = none
shift n (some i) = some (n + i)

shift-shift : (n : ℕ) (i : Option ℕ) → shift (suc n) i ≡ shift n (shift 1 i)
shift-shift n none = refl
shift-shift n (some i) = ap some (omega arith)

shift_none : (i : Option ℕ) → shift 0 i ≡ i
shift_none none = refl
shift_none (some i) = ap some (omega arith)

shift-injective : (i : ℕ) (p : Option ℕ) → (shift 1 p ≡ some (suc i)) ↔ (p ≡ some i)
shift-injective i none = (λ e. cc, λ e. cc)
shift-injective i (some j) = (
  λ e. ap some (omega (arith, some-injective _ _ e)),
  λ e. ap (λ n. some (1 + n)) (some-injective _ _ e) ∙ ap some (omega arith),
)

shift-zero : (p : Option ℕ) → shift 1 p ≢ some 0
shift-zero none e = cc
shift-zero (some j) e = absurd (omega (arith, some-injective _ _ e))

zero_suc : (i : ℕ) → some 0 ≢ some (suc i)
zero_suc i e = absurd (omega (arith, some-injective _ _ e))

module _ {ℓ} {K V : Type ℓ} ⦃key : Comparable K⦄ where
  unfoldable pub position : K → List (K × V) → Option ℕ
  position k [] = none
  position k (e ∷ l) = if e.0 == k then some 0 else shift 1 (position k l)

module _ {K V : Type 0} ⦃key : Comparable K⦄ where
  count_of_get_elem? :
      (k : K) (v : V) (i : ℕ) (es : List (K × V)) → get_elem? es i ≡ some (k, v) → 0 < count k es
  unfolding count
  count_of_get_elem? k v i [] e = cc
  count_of_get_elem? k v zero (x ∷ es) e =
      ground (arith, eq_iff x.0 k, ap (λ p. p.0) (some-injective x (k, v) e))
  count_of_get_elem? k v (suc i) (x ∷ es) e = omega (arith, count_of_get_elem? k v i es e)

  index_of_loop_lem :
      (k : K) (heap : ℕ → OrderedElement K V) (n : ℕ) (cs : Cells K V)
      → Stored heap cs
      → index_of_loop k heap n (places cs) ≡ shift n (position k (entries cs))
  unfolding index_of_loop position
  index_of_loop_lem k heap n [] s = refl
  index_of_loop_lem k heap n (c ∷ cs) (s, rest) = rw s (
      ground
        (arith, index_of_loop_lem k heap (suc n) cs rest, shift-shift n (position k (entries cs))))

  -- A pair is at an index when the index is the key's and the value is what is found.
  pub position_iff :
      (k : K) (v : V) (i : ℕ) (es : List (K × V))
      → Once es
      → (get_elem? es i ≡ some (k, v)) ↔ ((position k es ≡ some i) × (lookup k es ≡ some v))
  unfolding position lookup count
  position_iff k v i [] h = (λ e. cc, λ e. absurd (none-ne-some i e.0))
  position_iff k v zero (x ∷ es) h = elim (Bool-cases (x.0 == k)) [
    | inl here ↦ rw here (
      λ e. (refl, ap (λ p. some p.1) (some-injective x (k, v) e)),
      λ (_, e). ap some (λ i. ((eq_iff x.0 k).0 here i, some-injective x.1 v e i)),
    )
    | inr later ↦ rw later (
      λ e. absurd (ground (arith, eq_iff x.0 k, ap (λ p. p.0) (some-injective x (k, v) e))),
      λ (e, _). absurd (shift-zero (position k es) e),
    )
  ]
  position_iff k v (suc i) (x ∷ es) h = elim (Bool-cases (x.0 == k)) [
    | inl here ↦ rw here (
      λ e. absurd (ground (arith, h k, count_of_get_elem? k v i es e)),
      λ (e, _). absurd (zero_suc i e),
    )
    | inr later ↦
        let same = position_iff k v i es (λ j. ground (arith, h j)) in
        let index = shift-injective i (position k es) in
        rw later (
          λ e. let (found, value) = same.0 e in (index.1 found, value),
          λ (found, value). same.1 (index.0 found, value),
        )
  ]

module _ {K V : Type 0} ⦃key : Comparable K⦄ {xsync : MapOf K ℕ} where
  pub get-Models :
      (k : K) (o : Ordered xsync V) (es : List (K × V))
      → Models o es
      → (get k o ≡ lookup k es) × (has k o ≡ is_some (lookup k es))
  unfolding get has
  get-Models k o es m = elim (find_lem k o es m) [
    | inl (absent, new) ↦ rw (get, has, absent, new) (refl, refl)
    | inr p ↦ rw (get, has, p.found, p.reads, p.value) (refl, refl)
  ]

  seen :
      {B : Type 0} (f : OrderedElement K V → B) (o : Ordered xsync V) (cs : Cells K V)
      → Kept o cs
      → map (λ e. f (o.heap e.1)) o.order.elements ≡ map (λ c. f (stored c)) cs
  seen f o cs h = ap (map (λ e. f (o.heap e.1))) h.order ∙ map-stored f o.heap cs h.at

  front-Models : (o : Ordered xsync V) (cs : Cells K V) → Kept o cs → front o ≡ head? (entries cs)
  unfolding front
  front-Models o [] h = rw (front, h.order) refl
  front-Models o (c ∷ cs) h = rw (front, h.order, h.at.0) refl

  back-Models : (o : Ordered xsync V) (cs : Cells K V) → Kept o cs → back o ≡ get_last? (entries cs)
  unfolding back
  back-Models o [] h = rw (back, h.order) refl
  back-Models o (c ∷ cs) h =
      let (a, d, e, last) = last-places c cs in
      let reads = (Stored-split o.heap a (d ∷ []) (subst (Stored o.heap) e h.at)).1.0 in
      rw (back, h.order, last, reads)
        (sym (
          ap (λ l. get_last? (entries l)) e
          ∙ ap get_last? (map-append entry a (d ∷ []))
          ∙ get_last?_end (entries a) (entry d)))

  pub walk-Models :
      {S : Type 0} (fn : K → V → S → S × Bool) (s : S) (o : Ordered xsync V) (es : List (K × V))
      → Models o es
      → (range fn o s ≡ visit fn es s)
        × (keys o ≡ map (λ e. e.0) es)
        × (values o ≡ map (λ e. e.1) es)
        × (len o ≡ length es)
        × (front o ≡ head? es)
        × (back o ≡ get_last? es)
        × ((k : K) → (get k o ≡ lookup k es) × (has k o ≡ is_some (lookup k es)))
  unfolding range walk keys values len
  walk-Models fn s o es m =
      let cs = m.cells in
      let kept = m.holds.kept in
      (
        ap (λ l. visit fn l s) (seen shown o cs kept ∙ m.shows),
        seen (λ e. e.key) o cs kept
            ∙ sym (map-map (λ e. e.0) entry cs)
            ∙ ap (map (λ e. e.0)) m.shows,
        seen (λ e. e.value) o cs kept
            ∙ sym (map-map (λ e. e.1) entry cs)
            ∙ ap (map (λ e. e.1)) m.shows,
        ap length kept.order ∙ length-map cs place ∙ sym (length-map cs entry) ∙ ap length m.shows,
        front-Models o cs kept ∙ ap head? m.shows,
        back-Models o cs kept ∙ ap get_last? m.shows,
        λ k. get-Models k o es m,
      )

  pub index_of-Models :
      (k : K) (o : Ordered xsync V) (es : List (K × V)) → Models o es → index_of k o ≡ position k es
  unfolding index_of
  index_of-Models k o es m =
      rw (index_of, m.holds.kept.order)
        (index_of_loop_lem k o.heap 0 m.cells m.holds.kept.at
          ∙ shift_none (position k (entries m.cells))
          ∙ ap (position k) m.shows)
