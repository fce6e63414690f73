-- ===== src/Slicer/Layout.antt =====
-- slicer.go as a list: how the stripes share it out, what `Append` adds and what `Get` reads.
use mappo.Prelude.{
  lt-cases, ℕ, zero, suc, ◌+◌, ◌-◌, ◌*◌, ◌/◌, ◌%◌, ◌^◌, ◌≤◌, ◌<◌, ◌≡◌, ◌≢◌, refl, ap, sym, ◌∙◌,
  Option, none, some, List, [], ◌∷◌, ◌++◌, arith, Bool, true, false, if◌then◌else◌, ltb, nat_beq,
  nat_beq_iff, length, get_elem?, length-append, length-set, Bool-cases, Option-cases, inl, inr,
  get_elem?_of_lt, get_elem?-set, get_elem?-snoc, get_elem?_beyond, lt_of_get_elem?, leb,
}
use native.Mathlib.Nat.{div-add-mod', mod-lt, mul-lt-mul_of_pos_right}
use mathlib.Core.List.Perm
use mathlib.Core.List.{Perm, perm_append_singleton}
use mathlib.Core.Option.{some-injective, none-ne-some}
use mathlib.Core.Path.{subst}
use mappo.Prelude
use mappo.Run.{ok}
use mappo.Sharded.{and_bits}
use mappo.Slicer.{Stripe, Slicer, append, get}
use mappo.Slicer.Columns.{columns, columns_grow}
use mappo.Slicer.Append.{append_loop_lem}
use mappo.Slicer.Filled.{Filled, Filled-HasAll, get_loop_lem}
use mappo.Slicer.Rows.{power-pos, and_mask, same_place, nat_beq_of_ne, same_row}

module _ {T : Type 0} where
  -- A slicer of `2 ^ bits` stripes that stands for the list `vs`: each stripe has, in order, the values
  -- whose index has its number as the low bits.
  pub record Spread (s : Slicer T) (vs : List T) : Type 0 where
    pub bits : ℕ
    pub few : bits ≤ 64
    pub stripes : length s.stripes ≡ 2 ^ bits
    pub mask : s.mask ≡ 2 ^ bits - 1
    pub room : 0 < s.chunk_size
    pub fits : s.chunk_size + 1 < 2 ^ 32
    pub counted : s.length ≡ length vs
    pub column : ℕ → List T
    pub filled :
        (j : ℕ) (st : Stripe T)
        → get_elem? s.stripes j ≡ some st
        → Filled s.chunk_size st (column j)
    pub placed : (j r : ℕ) → j < 2 ^ bits → get_elem? (column j) r ≡ get_elem? vs (r * 2 ^ bits + j)
    pub whole : Perm (columns (2 ^ bits) column) vs

  -- `Get` reads the value at every index, and nothing beyond.
  pub get-Spread :
      (i : ℕ) (s : Slicer T) (vs : List T) → Spread s vs → get i s ≡ ok (get_elem? vs i)
  unfolding get
  get-Spread i s vs m =
      let size = 2 ^ m.bits in
      let at : and_bits 64 i s.mask ≡ i % size =
        ap (and_bits 64 i) m.mask ∙ and_mask m.bits i m.few in
      let low = mod-lt i (power-pos m.bits) in
      let (st, found) = get_elem?_of_lt s.stripes (and_bits 64 i s.mask) (rw (at, m.stripes) low) in
      let has = m.filled (and_bits 64 i s.mask) st found in
      elim (Bool-cases (leb s.length i)) [
        | inl beyond ↦
            rw (get, beyond) (ap ok (sym (get_elem?_beyond vs i (ground (arith, m.counted)))))
        | inr inside ↦
            rw (get, inside, found)
              (get_loop_lem s.chunk_size (i / length s.stripes) st.chunks _
                  (Filled-HasAll s.chunk_size st _ has)
                ∙ ap ok (
                    ap (λ c. get_elem? (m.column c) (i / length s.stripes)) at
                    ∙ ap (λ (n : ℕ). get_elem? (m.column (i % size)) (i / n)) m.stripes
                    ∙ m.placed (i % size) (i / size) low
                    ∙ ap (get_elem? vs) (div-add-mod' i size)))
      ]

  -- The stripe that is next has as many values as there are full rows.
  row_full :
      (s : Slicer T) (vs : List T) (m : Spread s vs)
      → length (m.column (length vs % 2 ^ m.bits)) ≡ length vs / 2 ^ m.bits
  row_full s vs m =
      let size = 2 ^ m.bits in
      let n = length vs in
      let j = n % size in
      let rows = length (m.column j) in
      let q = n / size in
      let whole : q * size + j ≡ n = div-add-mod' n size in
      let low = mod-lt n (power-pos m.bits) in
      elim (lt-cases rows q) [
        | inl short ↦
            let there : rows * size + j < n =
              omega (arith, whole, mul-lt-mul_of_pos_right short (power-pos m.bits)) in
            let (x, found) = get_elem?_of_lt vs (rows * size + j) there in
            absurd (
              none-ne-some x (
                sym (get_elem?_beyond (m.column j) rows (omega arith))
                ∙ m.placed j rows low
                ∙ found))
        | inr (inl same) ↦ same
        | inr (inr long) ↦
            let (x, found) = get_elem?_of_lt (m.column j) q long in
            absurd (
              none-ne-some x (
                sym (get_elem?_beyond vs n (omega arith))
                ∙ ap (get_elem? vs) (sym whole)
                ∙ sym (m.placed j q low)
                ∙ found))
      ]

  -- One more value in the column of its index, seen by row and column.
  column_lem :
      (s : Slicer T) (vs : List T) (m : Spread s vs) (v : T) (j r : ℕ)
      → j < 2 ^ m.bits
      → get_elem?
          (if nat_beq (length vs % 2 ^ m.bits) j
            then m.column (length vs % 2 ^ m.bits) ++ v ∷ []
            else m.column j)
          r
        ≡ get_elem? (vs ++ v ∷ []) (r * 2 ^ m.bits + j)
  column_lem s vs m v j r low =
      let size = 2 ^ m.bits in
      let n = length vs in
      let q = n / size in
      let whole : q * size + n % size ≡ n = div-add-mod' n size in
      let full = row_full s vs m in
      let after = get_elem?-snoc vs v (r * size + j) in
      let other_row = λ (e : n ≡ r * size + j).
        same_place size q r (n % size) j (mod-lt n (power-pos m.bits)) low (whole ∙ e) in
      elim (Bool-cases (nat_beq (n % size) j)) [
        | inl here ↦
            let same : n % size ≡ j = ground (arith, here) in
            let column_after = get_elem?-snoc (m.column (n % size)) v r in
            rw here (elim (Bool-cases (nat_beq q r)) [
              | inl last ↦
                  let there : nat_beq n (r * size + j) ≡ true =
                    ground (arith, whole, same, ap (λ (x : ℕ). x * size) (same_row q r last)) in
                  let ends : nat_beq (length (m.column (n % size))) r ≡ true =
                    ap (λ l. nat_beq l r) full ∙ last in
                  column_after
                  ∙ ap (λ (b : Bool). if b then some v else get_elem? (m.column (n % size)) r) ends
                  ∙ sym (
                      after
                      ∙ ap (λ (b : Bool). if b then some v else get_elem? vs (r * size + j)) there)
              | inr other ↦
                  let there : nat_beq n (r * size + j) ≡ false =
                    nat_beq_of_ne n (r * size + j)
                      (λ e. absurd (ground (arith, other, (other_row e).0))) in
                  let inner : nat_beq (length (m.column (n % size))) r ≡ false =
                    ap (λ l. nat_beq l r) full ∙ other in
                  column_after
                  ∙ ap (λ (b : Bool). if b then some v else get_elem? (m.column (n % size)) r) inner
                  ∙ ap (λ c. get_elem? (m.column c) r) same
                  ∙ m.placed j r low
                  ∙ sym (
                      after
                      ∙ ap (λ (b : Bool). if b then some v else get_elem? vs (r * size + j)) there)
            ])
        | inr away ↦
            let apart : nat_beq n (r * size + j) ≡ false =
              nat_beq_of_ne n (r * size + j)
                (λ e. absurd (ground (arith, away, (other_row e).1))) in
            rw away (
              m.placed j r low
              ∙ sym (
                  after
                  ∙ ap (λ (b : Bool). if b then some v else get_elem? vs (r * size + j)) apart))
      ]

  -- `Append` gives the index after the last and puts the value there.
  pub append-Spread :
      (v : T) (s : Slicer T) (vs : List T)
      → Spread s vs
      → length vs + 1 < 2 ^ 64
      → (s' : Slicer T) × (append v s ≡ ok (length vs, s')) × Spread s' (vs ++ v ∷ [])
  unfolding append
  append-Spread v s vs m small =
      let size = 2 ^ m.bits in
      let n = length vs in
      let j = n % size in
      let low = mod-lt n (power-pos m.bits) in
      let place = and_bits 64 s.length s.mask in
      let at : place ≡ j =
        ap (λ i. and_bits 64 i s.mask) m.counted
        ∙ ap (and_bits 64 n) m.mask
        ∙ and_mask m.bits n m.few in
      let (st, found) = get_elem?_of_lt s.stripes place (rw (at, m.stripes) low) in
      let h : Filled s.chunk_size st (m.column j) =
        subst (λ c. Filled s.chunk_size st (m.column c)) at (m.filled place st found) in
      let rounds : length st.chunks ≡ suc (length h.front) =
        omega (arith, ap length h.chunks, length-append h.front (h.last ∷ [])) in
      let (st', run, h') =
        append_loop_lem (length h.front) s.chunk_size v st (m.column j) h m.room m.fits in
      let column = λ (c : ℕ). if nat_beq j c then m.column j ++ v ∷ [] else m.column c in
      let grown : Perm (columns size column) (v ∷ columns size m.column) =
        columns_grow size j m.column column v low (ground arith)
          (λ c apart. rw (nat_beq_of_ne j c apart) refl) in
      let s₁ = record s {
        stripes = Prelude.set s.stripes place st';
        length = (s.length + 1) % 2 ^ 64;
      } in
      (
        s₁,
        rw (append, found, rounds, run) refl ∙ ap (λ i. ok (i, s₁)) m.counted,
        record {
          bits = m.bits;
          few = m.few;
          stripes = length-set s.stripes place st' ∙ m.stripes;
          mask = m.mask;
          room = m.room;
          fits = m.fits;
          counted = omega (arith, m.counted, length-append vs (v ∷ []));
          column = column;
          filled = λ c st₀ e.
              let read = sym (get_elem?-set s.stripes place c st' st found) ∙ e in
              let here = ap (λ p. nat_beq p c) at in
              elim (Bool-cases (nat_beq j c)) [
                | inl same ↦
                    let is : st' ≡ st₀ = some-injective _ _ (rw (here, same) at read) in
                    rw same (subst (λ st. Filled s.chunk_size st (m.column j ++ v ∷ [])) is h')
                | inr apart ↦ rw apart (m.filled c st₀ (rw (here, apart) at read))
              ];
          placed = column_lem s vs m v;
          whole =
              Perm.trans grown
                (Perm.trans (Perm.cons v m.whole) (Perm.symm (perm_append_singleton v vs)));
        },
      )
