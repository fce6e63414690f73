-- ===== src/Slicer/Append.antt =====
-- The loop of slicer.go's `Append`: what it does to a stripe, and that it ends.
use mappo.Prelude.{
  ℕ, zero, suc, ◌+◌, ◌-◌, ◌≤◌, ◌<◌, ◌%◌, ◌^◌, ◌≡◌, refl, ap, sym, ◌∙◌, Option, none, some, List, [],
  ◌∷◌, ◌++◌, arith, Bool, true, false, if◌then◌else◌, ltb, nat_beq, length, get_elem?,
  length-append, length-set, get_elem?-append_end, set-append_end, Bool-cases, Option-cases, inl,
  inr, get_elem?_of_lt, get_elem?-set,
}
use mathlib.Core.List.{append_assoc, append-nil}
use mathlib.Core.Option.{some-injective}
use mappo.Prelude
use mappo.Run.{ok}
use mappo.Slicer.{Chunk, Stripe, write_slot, counted, rolled_back, append_loop}
use mappo.Slicer.Filled.{Filled, HasAll-append, Has-write, Has-counted, Has-new}

module _ {T : Type 0} where
  -- On a stripe whose tail is its last chunk, the value comes after the others.
  pub append_loop_lem :
      (fuel n : ℕ) (v : T) (st : Stripe T) (vs : List T)
      → Filled n st vs
      → 0 < n
      → n + 1 < 2 ^ 32
      → (st' : Stripe T) × (append_loop (suc fuel) n v st ≡ ok st') × Filled n st' (vs ++ v ∷ [])
  unfolding append_loop
  append_loop_lem fuel n v st vs h room fits =
      let tail_is : get_elem? st.chunks st.tail ≡ some h.last =
        rw (h.chunks, h.tail) (get_elem?-append_end h.front h.last) in
      let replaced = λ (c : Chunk T).
        ap (λ l. Prelude.set l st.tail c) h.chunks
        ∙ ap (λ i. Prelude.set (h.front ++ h.last ∷ []) i c) h.tail
        ∙ set-append_end h.front h.last c in
      let at_end : nat_beq (suc st.tail) (length st.chunks) ≡ true =
        ground (arith, ap length h.chunks, length-append h.front (h.last ∷ []), h.tail) in
      elim (Bool-cases (ltb h.last.count n)) [
        | inl below ↦
            let (slots, run, has) = Has-write n h.last h.ys v h.at_tail (ground arith) fits in
            let last' = record (counted h.last) { slots = slots } in
            (
              record st { chunks = Prelude.set st.chunks st.tail last' },
              rw (append_loop, tail_is, below, run) refl,
              record {
                front = h.front;
                last = last';
                xs = h.xs;
                ys = h.ys ++ v ∷ [];
                chunks = replaced last';
                tail = h.tail;
                values = ap (λ l. l ++ v ∷ []) h.values ∙ append_assoc h.xs h.ys (v ∷ []);
                before = h.before;
                at_tail = has;
                bounded = ground arith;
              },
            )
        | inr full ↦
            let (slots, run, has) = Has-new n v room in
            let old = Has-counted n h.last h.ys h.at_tail (ground (arith, h.bounded)) fits in
            let fresh : Chunk T = record { slots = slots; count = 1 } in
            (
              record {
                chunks = Prelude.set st.chunks st.tail (counted h.last) ++ fresh ∷ [];
                tail = suc st.tail;
              },
              rw (append_loop, tail_is, full, at_end, run) refl,
              record {
                front = h.front ++ counted h.last ∷ [];
                last = fresh;
                xs = h.xs ++ h.ys;
                ys = v ∷ [];
                chunks = ap (λ l. l ++ fresh ∷ []) (replaced (counted h.last));
                tail = omega (arith, h.tail, length-append h.front (counted h.last ∷ []));
                values = ap (λ l. l ++ v ∷ []) h.values;
                before =
                    HasAll-append n h.front (counted h.last ∷ []) h.xs h.ys h.before
                      (h.ys, [], sym (append-nil h.ys), (old, refl));
                at_tail = has;
                bounded = omega arith;
              },
            )
      ]

  -- A chunk with another count in place of one of the chunks leaves all sizes as they are.
  kept_size :
      (cs : List (Chunk T)) (at i : ℕ) (c c' d : Chunk T) (n : ℕ)
      → ((i : ℕ) (c : Chunk T) → get_elem? cs i ≡ some c → length c.slots ≡ n)
      → get_elem? cs at ≡ some c
      → c'.slots ≡ c.slots
      → get_elem? (Prelude.set cs at c') i ≡ some d
      → length d.slots ≡ n
  kept_size cs at i c c' d n sizes there same e =
      let read = sym (get_elem?-set cs at i c' c there) ∙ e in
      elim (Bool-cases (nat_beq at i)) [
        | inl here ↦
            let is : c' ≡ d = some-injective _ _ (rw here at read) in
            ap (λ (x : Chunk T). length x.slots) (sym is) ∙ ap length same ∙ sizes at c there
        | inr away ↦ sizes i d (rw away at read)
      ]

  -- The loop ends, also when the tail lags behind the last chunk: it goes on from chunk to chunk until
  -- one has room, or links a new one to the last.
  pub append_loop-ends :
      (fuel n : ℕ) (v : T) (st : Stripe T)
      → 0 < n
      → ((i : ℕ) (c : Chunk T) → get_elem? st.chunks i ≡ some c → length c.slots ≡ n)
      → st.tail < length st.chunks
      → length st.chunks ≤ fuel + st.tail
      → (st' : Stripe T) × (append_loop fuel n v st ≡ ok st')
  unfolding append_loop write_slot
  append_loop-ends zero n v st room sizes inside enough = absurd (omega arith)
  append_loop-ends (suc fuel) n v st room sizes inside enough =
      let (c, tail_is) = get_elem?_of_lt st.chunks st.tail inside in
      elim (Bool-cases (ltb c.count n)) [
        | inl below ↦
            let in_slots : ltb c.count (length c.slots) ≡ true =
              ground (arith, sizes st.tail c tail_is) in
            let slots = Prelude.set c.slots c.count (some v) in
            let c' = record (counted c) { slots = slots } in
            (
              record st { chunks = Prelude.set st.chunks st.tail c' },
              rw (append_loop, tail_is, below, in_slots) refl,
            )
        | inr full ↦ elim (Bool-cases (nat_beq (suc st.tail) (length st.chunks))) [
          | inl last ↦
              let (slots, run, _) = Has-new n v room in
              let fresh : Chunk T = record { slots = slots; count = 1 } in
              (
                record {
                  chunks = Prelude.set st.chunks st.tail (counted c) ++ fresh ∷ [];
                  tail = suc st.tail;
                },
                rw (append_loop, tail_is, full, last, run) refl,
              )
          | inr lags ↦
              let c' = rolled_back (counted c) in
              let chunks' = Prelude.set st.chunks st.tail c' in
              let (st', run) =
                append_loop-ends fuel n v (record { chunks = chunks'; tail = suc st.tail }) room
                  (λ i d e. kept_size st.chunks st.tail i c c' d n sizes tail_is refl e)
                  (ground (arith, length-set st.chunks st.tail c'))
                  (omega (arith, length-set st.chunks st.tail c')) in
              (st', rw (append_loop, tail_is, full, lags) run)
        ]
      ]
