-- ===== src/Slicer/Phases.antt =====
-- `Append` of slicer.go in its two steps: the index is taken, and the loop stores the value.
use mappo.Prelude.{
  lt-cases, ℕ, zero, suc, ◌+◌, ◌-◌, ◌*◌, ◌/◌, ◌%◌, ◌^◌, ◌≤◌, ◌<◌, ◌≡◌, ◌≢◌, refl, ap, sym, ◌∙◌,
  Option, none, some, List, [], ◌∷◌, ◌++◌, arith, Bool, true, false, if◌then◌else◌, nat_beq, length,
  get_elem?, length-append, Bool-cases, Option-cases, inl, inr, get_elem?-set,
}
use mappo.Prelude
use mappo.Run.{Run, ok, panic, ◌>>=◌, returned, ok-injective, out_of_fuel}
use mappo.Sharded.{and_bits}
use mappo.Slicer.{Stripe, Slicer, append, append_loop}
use mappo.Slicer.Rows.{nat_beq_of_ne}

module _ {A : Type 0} where
  set_twice :
      (i j : ℕ) (x y : A) (l : List A)
      → i ≢ j
      → Prelude.set (Prelude.set l i x) j y ≡ Prelude.set (Prelude.set l j y) i x
  set_twice i j x y [] apart = refl
  set_twice zero zero x y (z ∷ l) apart = absurd (apart refl)
  set_twice zero (suc j) x y (z ∷ l) apart = refl
  set_twice (suc i) zero x y (z ∷ l) apart = refl
  set_twice (suc i) (suc j) x y (z ∷ l) apart =
      ap (◌∷◌ z) (set_twice i j x y l (λ e. apart (ap suc e)))

  -- What is elsewhere stays.
  get_elem?-set_other :
      (l : List A) (i j : ℕ) (v x : A)
      → get_elem? l i ≡ some x
      → i ≢ j
      → get_elem? (Prelude.set l i v) j ≡ get_elem? l j
  get_elem?-set_other l i j v x here apart =
      get_elem?-set l i j v x here
      ∙ ap (λ (b : Bool). if b then some v else get_elem? l j) (nat_beq_of_ne i j apart)

module _ {T : Type 0} where
  -- `idx := s.length.Add(1) - 1`
  unfoldable pub reserve : Slicer T → ℕ × Slicer T
  reserve s = (s.length, record s { length = (s.length + 1) % 2 ^ 64 })

  -- The loop of `Append` on one of the stripes.
  unfoldable pub fill_stripe : ℕ → ℕ → T → List (Stripe T) → Run (List (Stripe T))
  fill_stripe chunk_size at v stripes = elim (get_elem? stripes at) [
    | none ↦ panic
    | some st ↦ do
      st' ← append_loop (length st.chunks) chunk_size v st
      ok (Prelude.set stripes at st')
  ]

  -- The rest of `Append` once it has its index.
  unfoldable pub place_value : ℕ → T → Slicer T → Run (Slicer T)
  unfolding fill_stripe
  place_value idx v s = do
    stripes ← fill_stripe s.chunk_size (and_bits 64 idx s.mask) v s.stripes
    ok (record s { stripes = stripes })

  -- `Append` is the two steps.
  pub append-place_value :
      (v : T) (s : Slicer T)
      → append v s
        ≡ ◌>>=◌ {B = ℕ × Slicer T}
            (place_value (reserve s).0 v (reserve s).1)
            (λ s'. ok (s.length, s'))
  unfolding append place_value reserve fill_stripe
  append-place_value v s = elim (Option-cases (get_elem? s.stripes (and_bits 64 s.length s.mask))) [
    | inl e ↦ simp (append, place_value, reserve, fill_stripe, e)
    | inr (st, e) ↦
        let grown = (s.length + 1) % 2 ^ 64 in
        let stored = λ (st' : Stripe T). Prelude.set s.stripes (and_bits 64 s.length s.mask) st' in
        simp (append, place_value, reserve, fill_stripe, e)
          (by_run (append_loop (length st.chunks) s.chunk_size v st) stored
            (λ stripes. record s { stripes = stripes; length = grown }) s.length)
  ]
    where
      by_run :
          (r : Run (Stripe T)) (f : Stripe T → List (Stripe T)) (g : List (Stripe T) → Slicer T)
          (idx : ℕ)
          → ◌>>=◌ {B = ℕ × Slicer T} r (λ st. ok (idx, g (f st)))
            ≡ ◌>>=◌ {B = ℕ × Slicer T}
                ((r >>= λ st. ok (f st)) >>= λ stripes. ok (g stripes))
                (λ s'. ok (idx, s'))
      by_run (ok st) f g idx = refl
      by_run panic f g idx = refl
      by_run out_of_fuel f g idx = refl

  -- A call of `Append` that returned, seen as the list of its stripes.
  pub fill_stripe_of_append :
      (v : T) (s s' : Slicer T) (n : ℕ)
      → append v s ≡ ok (n, s')
      → (stripes : List (Stripe T)) × (fill_stripe s.chunk_size
            (and_bits 64 s.length s.mask)
            v
            s.stripes
          ≡ ok stripes)
        × (record s { stripes = stripes; length = (s.length + 1) % 2 ^ 64 } ≡ s')
  unfolding place_value reserve
  fill_stripe_of_append v s s' n run =
      let s₁ = (reserve s).1 in
      let (s₂, placed, is) =
        returned (λ (s' : Slicer T). ok (s.length, s')) (place_value s.length v s₁)
          (sym (append-place_value v s) ∙ run) in
      let (stripes, filled, same) =
        returned (λ stripes. ok (record s₁ { stripes = stripes }))
          (fill_stripe s.chunk_size (and_bits 64 s.length s.mask) v s.stripes) placed in
      (
        stripes,
        filled,
        ok-injective _ s₂ same ∙ ap (λ r. r.1) (ok-injective (s.length, s₂) (n, s') is),
      )

  -- Loops on two stripes can change places.
  pub fill_stripe_swap :
      (n i j : ℕ) (v w : T) (l l' l'' : List (Stripe T))
      → i ≢ j
      → fill_stripe n i v l ≡ ok l'
      → fill_stripe n j w l' ≡ ok l''
      → (m : List (Stripe T)) × (fill_stripe n j w l ≡ ok m) × (fill_stripe n i v m ≡ ok l'')
  unfolding fill_stripe
  fill_stripe_swap n i j v w l l' l'' apart first second = elim (Option-cases (get_elem? l i)) [
    | inl e ↦ absurd (let no : panic ≡ ok l' = rw (fill_stripe, e) at first in cc)
    | inr (st, e) ↦
        let (st', run, is) =
          returned (λ st'. ok (Prelude.set l i st')) (append_loop (length st.chunks) n v st)
            (rw (fill_stripe, e) at first) in
        let l₁ : Prelude.set l i st' ≡ l' = ok-injective _ _ is in
        let there : get_elem? l' j ≡ get_elem? l j =
          ap (λ x. get_elem? x j) (sym l₁) ∙ get_elem?-set_other l i j st' st e apart in
        elim (Option-cases (get_elem? l j)) [
          | inl e' ↦ absurd (let no : panic ≡ ok l'' = rw (fill_stripe, there ∙ e') at second in cc)
          | inr (su, e') ↦
              let (su', run', is') =
                returned (λ st'. ok (Prelude.set l' j st')) (append_loop (length su.chunks) n w su)
                  (rw (fill_stripe, there ∙ e') at second) in
              let here : get_elem? (Prelude.set l j su') i ≡ some st =
                get_elem?-set_other l j i su' su e' (λ q. apart (sym q)) ∙ e in
              (
                Prelude.set l j su',
                rw (fill_stripe, e', run') refl,
                rw (fill_stripe, here, run)
                    (ap ok (
                      sym (set_twice i j st' su' l apart)
                      ∙ ap (λ x. Prelude.set x j su') l₁
                      ∙ ok-injective _ _ is')),
              )
        ]
  ]
