-- ===== src/Slicer/Filled.antt =====
-- A stripe of slicer.go as the list of its values: what `Append` does to it, and how `Get` reads it.
use mappo.Prelude.{
  ℕ, zero, suc, ◌+◌, ◌-◌, ◌*◌, ◌≤◌, ◌<◌, ◌%◌, ◌^◌, ◌≡◌, refl, ap, sym, ◌∙◌, Option, none, some,
  List, [], ◌∷◌, ◌++◌, arith, Bool, true, false, if◌then◌else◌, ltb, leb, nat_beq, length,
  get_elem?, replicate, length-append, length-set, length-replicate, get_elem?-set, get_elem?-snoc,
  get_elem?-replicate, lt→ltb, Bool-cases, inl, inr,
}
use mathlib.Core.List.{append_assoc, append-nil}
use mappo.Prelude
use mappo.Run.{ok}
use mappo.Slicer.{Chunk, Stripe, write_slot, new_chunk, counted, clamp, read_slot, get_loop}

sub_zero : (i : ℕ) → i - 0 ≡ i
sub_zero i = omega arith

clamp-le : (n k : ℕ) → clamp n k ≤ n
unfolding clamp
clamp-le n k = ground arith

module _ {T : Type 0} where
  -- The chunk has the values `vs` in its first slots, and its count, cut to the size, is theirs.
  pub record Has (n : ℕ) (c : Chunk T) (vs : List T) : Type 0 where
    pub room : length c.slots ≡ n
    pub counts : clamp n c.count ≡ length vs
    pub small : c.count ≤ n + 1
    pub slots : (i : ℕ) → i < n → get_elem? c.slots i ≡ some (get_elem? vs i)

  -- The chunks have the values `vs`, one after the other.
  abbrev pub HasAll : ℕ → List (Chunk T) → List T → Type 0
  HasAll n [] vs = vs ≡ []
  HasAll n (c ∷ cs) vs =
      (xs : List T) × (ys : List T) × (vs ≡ xs ++ ys) × (Has n c xs × HasAll n cs ys)

  -- The tail is the last chunk.
  pub record Filled (n : ℕ) (st : Stripe T) (vs : List T) : Type 0 where
    pub front : List (Chunk T)
    pub last : Chunk T
    pub xs : List T
    pub ys : List T
    pub chunks : st.chunks ≡ front ++ last ∷ []
    pub tail : st.tail ≡ length front
    pub values : vs ≡ xs ++ ys
    pub before : HasAll n front xs
    pub at_tail : Has n last ys
    pub bounded : last.count ≤ n

  get_elem?-append :
      (xs ys : List T) (i : ℕ)
      → get_elem? (xs ++ ys) i
        ≡ (if ltb i (length xs) then get_elem? xs i else get_elem? ys (i - length xs))
  get_elem?-append [] ys i = ground (arith, ap (get_elem? ys) (sub_zero i))
  get_elem?-append (x ∷ xs) ys zero = ground arith
  get_elem?-append (x ∷ xs) ys (suc i) = ground (arith, get_elem?-append xs ys i)

  -- The loop of `Get` reads the value at its position.
  pub get_loop_lem :
      (n r : ℕ) (cs : List (Chunk T)) (vs : List T)
      → HasAll n cs vs
      → get_loop n r cs ≡ ok (get_elem? vs r)
  unfolding get_loop read_slot clamp
  get_loop_lem n r [] vs e = rw e refl
  get_loop_lem n r (c ∷ cs) vs (xs, ys, e, (has, rest)) =
      let split = ap (λ l. get_elem? l r) e ∙ get_elem?-append xs ys r in
      let bound = clamp-le n c.count in
      elim (Bool-cases (ltb r (clamp n c.count))) [
        | inl inside ↦
            let below : leb n r ≡ false = ground arith in
            let there : ltb r (length xs) ≡ true = ground (arith, has.counts) in
            rw (inside, below, read_slot, has.slots r (ground arith))
              (ap ok (sym (split ∙ rw there refl)))
        | inr outside ↦
            let beyond : ltb r (length xs) ≡ false = ground (arith, has.counts) in
            rw outside (
              get_loop_lem n (r - clamp n c.count) cs ys rest
              ∙ ap (λ m. ok (get_elem? ys (r - m))) has.counts
              ∙ ap ok (sym (split ∙ rw beyond refl)))
      ]

  pub HasAll-append :
      (n : ℕ) (a b : List (Chunk T)) (xs ys : List T)
      → HasAll n a xs
      → HasAll n b ys
      → HasAll n (a ++ b) (xs ++ ys)
  HasAll-append n [] b xs ys e h = rw e h
  HasAll-append n (c ∷ a) b xs ys (us, vs, e, (has, rest)) h = (
    us,
    vs ++ ys,
    ap (λ l. l ++ ys) e ∙ append_assoc us vs ys,
    (has, HasAll-append n a b vs ys rest h),
  )

  pub Filled-HasAll : (n : ℕ) (st : Stripe T) (vs : List T) → Filled n st vs → HasAll n st.chunks vs
  Filled-HasAll n st vs h =
      rw (h.chunks, h.values)
        (HasAll-append n h.front (h.last ∷ []) h.xs h.ys h.before
          (h.ys, [], sym (append-nil h.ys), (h.at_tail, refl)))

  -- A value goes into the next slot of a chunk that has room.
  pub Has-write :
      (n : ℕ) (c : Chunk T) (vs : List T) (v : T)
      → Has n c vs
      → c.count < n
      → n + 1 < 2 ^ 32
      → (slots : List (Option T)) × (write_slot c.count v c.slots ≡ ok slots)
        × Has n (record { slots = slots; count = (c.count + 1) % 2 ^ 32 }) (vs ++ v ∷ [])
  unfolding write_slot clamp
  Has-write n c vs v h below fits =
      let inside : ltb c.count (length c.slots) ≡ true = ground (arith, h.room) in
      let size : c.count ≡ length vs = ground (arith, h.counts) in
      let slots' = Prelude.set c.slots c.count (some v) in
      (
        slots',
        rw inside refl,
        record {
          room = length-set c.slots c.count (some v) ∙ h.room;
          counts = ground (arith, size, length-append vs (v ∷ []));
          small = omega arith;
          slots = λ i q.
              get_elem?-set c.slots c.count i (some v) _ (h.slots c.count below)
              ∙ ground (arith, size, h.slots i q, get_elem?-snoc vs v i);
        },
      )

  -- A chunk that `Append` found full counts one more.
  pub Has-counted :
      (n : ℕ) (c : Chunk T) (vs : List T)
      → Has n c vs
      → c.count ≡ n
      → n + 1 < 2 ^ 32
      → Has n (counted c) vs
  unfolding clamp
  Has-counted n c vs h full fits = record {
    room = h.room;
    counts = ground (arith, h.counts);
    small = omega arith;
    slots = h.slots;
  }

  new_slots :
      (n : ℕ) (v : T) (i : ℕ)
      → i < suc n
      → get_elem? (some v ∷ replicate n none) i ≡ some (get_elem? (v ∷ []) i)
  new_slots n v zero h = refl
  new_slots n v (suc i) h = get_elem?-replicate n i none (omega arith)

  pub Has-new :
      (n : ℕ) (v : T)
      → 0 < n
      → (slots : List (Option T)) × (write_slot 0 v (new_chunk n).slots ≡ ok slots)
        × Has n (record { slots = slots; count = 1 }) (v ∷ [])
  unfolding write_slot new_chunk clamp
  Has-new zero v h = absurd (omega arith)
  Has-new (suc n) v h = (
    some v ∷ replicate n none,
    ground arith,
    record {
      room = ap suc (length-replicate n none);
      counts = ground arith;
      small = omega arith;
      slots = new_slots n v;
    },
  )
