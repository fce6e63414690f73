-- ===== src/Slicer/Visits.antt =====
-- What `Range` and `Snapshot` of slicer.go show.
use mappo.Prelude.{
  ℕ, suc, ◌+◌, ◌%◌, ◌^◌, ◌<◌, ◌≡◌, refl, ap, sym, ◌∙◌, Option, some, List, [], ◌∷◌, ◌++◌, arith,
  Bool, true, false, if◌then◌else◌, nat_beq, length, get_elem?, Bool-cases, inl, inr,
}
use mathlib.Core.List.Perm
use mathlib.Core.Path.{subst}
use mathlib.Core.List.{Perm, append_assoc, append-nil}
use mappo.Run.{ok}
use mappo.Slicer.{Chunk, Stripe, Slicer, clamp, read_slot, len}
use mappo.Slicer.Columns.{columns}
use mappo.Slicer.Filled.{Has, HasAll, Filled-HasAll}
use mappo.Slicer.Layout.{Spread}
use mappo.Slicer.Whole.{range_slots, range_chunks, range_stripes, range, snapshot}

module _ {T S : Type 0} (fn : ℕ → T → S → Bool × S) where
  -- The values are shown to the callback one after the other, with a running index, until it stops.
  unfoldable pub shown : ℕ → List T → S → Bool × (ℕ × S)
  shown index [] state = (true, (index, state))
  shown index (v ∷ vs) state =
      let r = fn index v state in
      let rest = shown ((index + 1) % 2 ^ 64) vs r.1 in if r.0 then rest else (false, (index, r.1))

  shown-append :
      (index : ℕ) (xs ys : List T) (state : S)
      → shown index (xs ++ ys) state ≡ (
          if (shown index xs state).0
          then shown (shown index xs state).1.0 ys (shown index xs state).1.1
          else shown index xs state)
  unfolding shown
  shown-append index [] ys state = refl
  shown-append index (v ∷ xs) ys state = elim (Bool-cases ((fn index v state).0)) [
    | inl on ↦ rw on (shown-append ((index + 1) % 2 ^ 64) xs ys (fn index v state).1)
    | inr off ↦ rw off refl
  ]

  range_slots_lem :
      (j : ℕ) (slots : List (Option T)) (vs : List T) (index : ℕ) (state : S)
      → ((i : ℕ) → i < length vs → get_elem? slots (j + i) ≡ some (get_elem? vs i))
      → range_slots fn (length vs) j slots index state ≡ ok (shown index vs state)
  unfolding range_slots shown read_slot
  range_slots_lem j slots [] index state h = refl
  range_slots_lem j slots (v ∷ vs) index state h =
      let first : get_elem? slots j ≡ some (some v) =
        ap (get_elem? slots) (omega arith) ∙ h 0 (omega arith) in
      let next =
        range_slots_lem (suc j) slots vs ((index + 1) % 2 ^ 64) (fn index v state).1
          (λ i q. ap (get_elem? slots) (omega arith) ∙ h (suc i) (omega arith)) in
      elim (Bool-cases ((fn index v state).0)) [
        | inl on ↦ rw (range_slots, read_slot, first, shown, on) next
        | inr off ↦ rw (range_slots, read_slot, first, shown, off) refl
      ]

  within : (n : ℕ) (c : Chunk T) (xs : List T) → Has n c xs → (i : ℕ) → i < length xs → i < n
  unfolding clamp
  within n c xs has i q = ground (arith, has.counts)

  range_chunks_lem :
      (n : ℕ) (cs : List (Chunk T)) (vs : List T) (index : ℕ) (state : S)
      → HasAll n cs vs
      → range_chunks fn n cs index state ≡ ok (shown index vs state)
  unfolding range_chunks shown clamp
  range_chunks_lem n [] vs index state e = rw e refl
  range_chunks_lem n (c ∷ cs) vs index state (xs, ys, e, (has, rest)) =
      let first : range_slots fn (clamp n c.count) 0 c.slots index state
          ≡ ok (shown index xs state) =
        ap (λ k. range_slots fn k 0 c.slots index state) has.counts
        ∙ range_slots_lem 0 c.slots xs index state
            (λ i q. ap (get_elem? c.slots) (omega arith) ∙ has.slots i (within n c xs has i q)) in
      let whole = ap (λ l. ok (shown index l state)) e ∙ ap ok (shown-append index xs ys state) in
      elim (Bool-cases ((shown index xs state).0)) [
        | inl on ↦
            rw (range_chunks, first, on)
              (range_chunks_lem n cs ys _ (shown index xs state).1.1 rest
                ∙ sym (whole ∙ rw on refl))
        | inr off ↦ rw (range_chunks, first, off) (sym (whole ∙ rw off refl))
      ]

  range_stripes_lem :
      (n : ℕ) (sts : List (Stripe T)) (column : ℕ → List T) (index : ℕ) (state : S)
      → ((j : ℕ) (st : Stripe T) → get_elem? sts j ≡ some st → HasAll n st.chunks (column j))
      → range_stripes fn n sts index state ≡ ok (shown index (columns (length sts) column) state)
  unfolding range_stripes shown
  range_stripes_lem n [] column index state h = refl
  range_stripes_lem n (st ∷ sts) column index state h =
      let rest = columns (length sts) (λ j. column (suc j)) in
      let first = range_chunks_lem n st.chunks (column 0) index state (h 0 st refl) in
      let whole = shown-append index (column 0) rest state in
      let next =
        range_stripes_lem n sts (λ j. column (suc j)) (shown index (column 0) state).1.0
          (shown index (column 0) state).1.1 (λ j. h (suc j)) in
      elim (Bool-cases ((shown index (column 0) state).0)) [
        | inl on ↦ rw (range_stripes, first, on) (next ∙ ap ok (sym (whole ∙ rw on refl)))
        | inr off ↦ rw (range_stripes, first, off) (ap ok (sym (whole ∙ rw off refl)))
      ]

  -- `Range` shows the values stripe by stripe.
  pub range-Spread :
      (s : Slicer T) (vs : List T) (state : S) (m : Spread s vs)
      → range fn s state ≡ ok ((shown 0 (columns (length s.stripes) m.column) state).1.1)
  unfolding range
  range-Spread s vs state m =
      rw
        (
          range,
          range_stripes_lem s.chunk_size s.stripes m.column 0 state
              (λ j st e. Filled-HasAll s.chunk_size st (m.column j) (m.filled j st e)),
        )
        refl

module _ {T : Type 0} where
  nil_of_length : (vs : List T) → length vs ≡ 0 → vs ≡ []
  nil_of_length [] e = refl
  nil_of_length (v ∷ vs) e = absurd (omega arith)

  shown_collect :
      (index : ℕ) (vs out : List T)
      → (shown (λ _ v out. (true, out ++ v ∷ [])) index vs out).1.1 ≡ out ++ vs
  unfolding shown
  shown_collect index [] out = sym (append-nil out)
  shown_collect index (v ∷ vs) out =
      shown_collect ((index + 1) % 2 ^ 64) vs (out ++ v ∷ []) ∙ append_assoc out (v ∷ []) vs

  snapshot-Spread :
      (s : Slicer T) (vs : List T) (m : Spread s vs)
      → snapshot s ≡ ok (columns (length s.stripes) m.column)
  unfolding snapshot len
  snapshot-Spread s vs m =
      let all = columns (length s.stripes) m.column in
      let perm : Perm all vs = subst (λ n. Perm (columns n m.column) vs) (sym m.stripes) m.whole in
      elim (Bool-cases (nat_beq s.length 0)) [
        | inl empty ↦
            let none_left : vs ≡ [] = nil_of_length vs (ground (arith, m.counted)) in
            rw empty (ap ok (sym (Perm.eq-nil (subst (Perm all) none_left perm))))
        | inr some_left ↦ rw some_left (
            range-Spread (λ _ v out. (true, out ++ v ∷ [])) s vs [] m
            ∙ ap ok (shown_collect 0 all []))
      ]

  -- `Range` and `Snapshot` have the values of the list, each once, in one order.
  pub range-snapshot :
      {S : Type 0} (fn : ℕ → T → S → Bool × S) (s : Slicer T) (vs : List T) (state : S)
      → Spread s vs
      → (all : List T) × Perm all vs
        × (range fn s state ≡ ok ((shown fn 0 all state).1.1))
        × (snapshot s ≡ ok all)
  range-snapshot fn s vs state m = (
    columns (length s.stripes) m.column,
    subst (λ n. Perm (columns n m.column) vs) (sym m.stripes) m.whole,
    range-Spread fn s vs state m,
    snapshot-Spread s vs m,
  )
