-- ===== src/Slicer/Overlap.antt =====
-- Two calls of `Append` of slicer.go that overlap: the second takes its index and stores its value
-- while the first has taken its index but not yet entered the loop.
use mappo.Prelude.{
  lt-cases, ℕ, suc, ◌+◌, ◌*◌, ◌/◌, ◌%◌, ◌^◌, ◌≤◌, ◌<◌, ◌≡◌, refl, ap, sym, ◌∙◌, some, List, [], ◌∷◌,
  ◌++◌, arith, Bool, true, false, if◌then◌else◌, nat_beq, length, get_elem?, length-append,
  Bool-cases, inl, inr,
}
use native.Mathlib.Nat.{div-add-mod', mod-lt, mul-le-mul_right, suc-mul}
use mathlib.Core.List.{append_assoc}
use mathlib.Core.Path.{subst}
use mappo.Run.{Run, ok, ◌>>=◌}
use mappo.Sharded.{and_bits}
use mappo.Slicer.{Stripe, Slicer, get}
use mappo.Slicer.Layout.{Spread, append-Spread, get-Spread}
use mappo.Slicer.Rows.{power-pos, and_mask}
use mappo.Slicer.Phases.{reserve, fill_stripe, place_value, fill_stripe_of_append, fill_stripe_swap}

module _ {A : Type 0} where
  get_elem?_after :
      (xs : List A) (x : A) (ys : List A) → get_elem? (xs ++ x ∷ ys) (length xs) ≡ some x
  get_elem?_after [] x ys = refl
  get_elem?_after (z ∷ xs) x ys = get_elem?_after xs x ys

  get_elem?_second :
      (xs : List A) (x y : A) (ys : List A)
      → get_elem? (xs ++ x ∷ y ∷ ys) (suc (length xs)) ≡ some y
  get_elem?_second [] x y ys = refl
  get_elem?_second (z ∷ xs) x y ys = get_elem?_second xs x y ys

-- Two indices that follow each other are on one stripe only if there is no other.
next_place : (n size : ℕ) → 0 < size → (n + 1) % size ≡ n % size → size ≡ 1
next_place n size positive e =
    let q = n / size in
    let q' = (n + 1) / size in
    let first : q * size + n % size ≡ n = div-add-mod' n size in
    let second : q' * size + (n + 1) % size ≡ n + 1 = div-add-mod' (n + 1) size in
    elim (lt-cases q q') [
      | inl more ↦
          let far : suc q * size ≤ q' * size = mul-le-mul_right size more in
          let step : suc q * size ≡ q * size + size = suc-mul q size in
          omega (arith, first, second, far, step, e, positive)
      | inr (inl same) ↦ absurd (omega (arith, first, second, ap (λ (x : ℕ). x * size) same, e))
      | inr (inr less) ↦
          let below : q' * size ≤ q * size = mul-le-mul_right size (omega (arith, less)) in
          absurd (omega (arith, first, second, below, e))
    ]

module _ {T : Type 0} where
  -- `v` is appended first, and overtaken by `w`; the result has both indices.
  unfoldable pub overlap : T → T → Slicer T → Run ((ℕ × ℕ) × Slicer T)
  unfolding reserve place_value
  overlap v w s = do
    let (i, s₁) = reserve s
    let (j, s₂) = reserve s₁
    s₃ ← place_value j w s₂
    s₄ ← place_value i v s₃
    ok ((i, j), s₄)

  overlap_of_fill_stripe :
      (v w : T) (s : Slicer T) (m l : List (Stripe T))
      → fill_stripe s.chunk_size (and_bits 64 ((s.length + 1) % 2 ^ 64) s.mask) w s.stripes ≡ ok m
      → fill_stripe s.chunk_size (and_bits 64 s.length s.mask) v m ≡ ok l
      → overlap v w s
        ≡ ok (
          (s.length, (s.length + 1) % 2 ^ 64),
          record s { stripes = l; length = ((s.length + 1) % 2 ^ 64 + 1) % 2 ^ 64 },
        )
  unfolding overlap reserve place_value
  overlap_of_fill_stripe v w s m l first second =
      simp (overlap, reserve, place_value, first, second)

  -- Two calls of `Append` one after the other.
  append_twice :
      (a b : T) (s : Slicer T) (vs : List T)
      → Spread s vs
      → length vs + 2 < 2 ^ 64
      → (t : List (Stripe T)) × (l : List (Stripe T)) × (fill_stripe s.chunk_size
            (and_bits 64 s.length s.mask)
            a
            s.stripes
          ≡ ok t)
        × (fill_stripe s.chunk_size (and_bits 64 ((s.length + 1) % 2 ^ 64) s.mask) b t ≡ ok l)
        × Spread
            (record s { stripes = l; length = ((s.length + 1) % 2 ^ 64 + 1) % 2 ^ 64 })
            (vs ++ a ∷ b ∷ [])
  append_twice a b s vs m small =
      let (s₁, run, m₁) = append-Spread a s vs m (omega (arith, small)) in
      let (t, first, is) = fill_stripe_of_append a s s₁ (length vs) run in
      let u = record s { stripes = t; length = (s.length + 1) % 2 ^ 64 } in
      let long : length (vs ++ a ∷ []) ≡ suc (length vs) =
        omega (arith, length-append vs (a ∷ [])) in
      let (s₂, run', m₂) =
        append-Spread b u (vs ++ a ∷ []) (subst (λ x. Spread x (vs ++ a ∷ [])) (sym is) m₁)
          (omega (arith, long, small)) in
      let (l, second, is') = fill_stripe_of_append b u s₂ (length (vs ++ a ∷ [])) run' in
      (
        t,
        l,
        first,
        second,
        subst (Spread (record u { stripes = l; length = (u.length + 1) % 2 ^ 64 }))
            (append_assoc vs (a ∷ []) (b ∷ []))
            (subst (λ x. Spread x ((vs ++ a ∷ []) ++ b ∷ [])) (sym is') m₂),
      )

  overlap_lem :
      (v w : T) (s : Slicer T) (vs : List T)
      → Spread s vs
      → length vs + 2 < 2 ^ 64
      → (s' : Slicer T) × (overlap v w s ≡ ok ((s.length, (s.length + 1) % 2 ^ 64), s'))
        × Spread s' (if nat_beq (length s.stripes) 1 then vs ++ w ∷ v ∷ [] else vs ++ v ∷ w ∷ [])
  overlap_lem v w s vs m small =
      let here = and_bits 64 s.length s.mask in
      let next = and_bits 64 ((s.length + 1) % 2 ^ 64) s.mask in
      let size = 2 ^ m.bits in
      let step : (s.length + 1) % 2 ^ 64 ≡ s.length + 1 = omega (arith, m.counted, small) in
      let place_of = λ (i : ℕ). ap (and_bits 64 i) m.mask ∙ and_mask m.bits i m.few in
      let at_here : here ≡ s.length % size = place_of s.length in
      let at_next : next ≡ (s.length + 1) % size =
        ap (λ (i : ℕ). and_bits 64 i s.mask) step ∙ place_of (s.length + 1) in
      elim (Bool-cases (nat_beq (length s.stripes) 1)) [
        | inl one ↦
            let single : size ≡ 1 = ground (arith, one, m.stripes) in
            let same : next ≡ here = omega (
              arith,
              at_here,
              at_next,
              single,
              mod-lt s.length (power-pos m.bits),
              mod-lt (s.length + 1) (power-pos m.bits),
            ) in
            let (t, l, first, second, m') = append_twice w v s vs m small in
            (
              record s { stripes = l; length = ((s.length + 1) % 2 ^ 64 + 1) % 2 ^ 64 },
              overlap_of_fill_stripe v w s t l
                  (ap (λ (i : ℕ). fill_stripe s.chunk_size i w s.stripes) same ∙ first)
                  (ap (λ (i : ℕ). fill_stripe s.chunk_size i v t) (sym same) ∙ second),
              rw one m',
            )
        | inr more ↦
            let (t, l, first, second, m') = append_twice v w s vs m small in
            let apart = λ (e : here ≡ next).
              (let alone =
                  next_place s.length size (power-pos m.bits) (sym at_next ∙ sym e ∙ at_here) in
                absurd (ground (arith, more, alone, m.stripes))) in
            let (k, first', second') =
              fill_stripe_swap s.chunk_size here next v w s.stripes t l apart first second in
            (
              record s { stripes = l; length = ((s.length + 1) % 2 ^ 64 + 1) % 2 ^ 64 },
              overlap_of_fill_stripe v w s k l first' second',
              rw more m',
            )
      ]

  -- On a slicer that stands for a list of fewer than 2 ^ 64 - 2 values, a call takes its index, a
  -- second call runs from start to end, and then the first stores its value. Both return, the first
  -- with the index after the last and the second with the next one. With more than one stripe the
  -- values stand at their indices. With one stripe they have changed places: `Get` of the first
  -- call's index reads the second call's value.
  pub get-overlap :
      (v w : T) (s : Slicer T) (vs : List T)
      → Spread s vs
      → length vs + 2 < 2 ^ 64
      → (s' : Slicer T) × (overlap v w s ≡ ok ((length vs, suc (length vs)), s'))
        × Spread s' (if nat_beq (length s.stripes) 1 then vs ++ w ∷ v ∷ [] else vs ++ v ∷ w ∷ [])
        × (get (length vs) s' ≡ ok (some (if nat_beq (length s.stripes) 1 then w else v)))
        × (get (suc (length vs)) s' ≡ ok (some (if nat_beq (length s.stripes) 1 then v else w)))
  get-overlap v w s vs m small =
      let (s', run, m') = overlap_lem v w s vs m small in
      let step : (s.length + 1) % 2 ^ 64 ≡ suc (length vs) = omega (arith, m.counted, small) in
      let one = nat_beq (length s.stripes) 1 in
      (
        s',
        run
            ∙ ap (λ (i : ℕ). ok ((i, (s.length + 1) % 2 ^ 64), s')) m.counted
            ∙ ap (λ (j : ℕ). ok ((length vs, j), s')) step,
        m',
        get-Spread (length vs) s' _ m' ∙ ap ok (first_of one vs),
        get-Spread (suc (length vs)) s' _ m' ∙ ap ok (second_of one vs),
      )
    where
      first_of :
          (one : Bool) (vs : List T)
          → get_elem? (if one then vs ++ w ∷ v ∷ [] else vs ++ v ∷ w ∷ []) (length vs)
            ≡ some (if one then w else v)
      first_of true vs = get_elem?_after vs w (v ∷ [])
      first_of false vs = get_elem?_after vs v (w ∷ [])

      second_of :
          (one : Bool) (vs : List T)
          → get_elem? (if one then vs ++ w ∷ v ∷ [] else vs ++ v ∷ w ∷ []) (suc (length vs))
            ≡ some (if one then v else w)
      second_of true vs = get_elem?_second vs w v []
      second_of false vs = get_elem?_second vs v w []
