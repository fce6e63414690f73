-- ===== src/Ordered/Places.antt =====
-- A cell of ordred.go's list goes out, and a new one comes in anywhere.
use mappo.Prelude.{
  ℕ, zero, suc, ◌+◌, ◌<◌, ◌≡◌, refl, ap, sym, ◌∙◌, Option, none, some, List, [], ◌∷◌, ◌++◌, arith,
  if◌then◌else◌, nat_beq, nat_beq_iff, Bool, true, false, Comparable, eq_iff, nat_comparable, inl,
  inr, Bool-cases, Option-cases,
}
use mathlib.Core.List.{map-append}
use mathlib.Core.Option.{some-injective}
use mappo.Pairs.{to_nat, uses, count, remove, Once, count-append, remove_middle, Once-middle}
use mappo.MapOf.{MapOf}
use mappo.SyncPool.{take_out}
use mappo.Ordered.{OrderedElement, Ordered, modify, put_ordered_element, get_ordered_element}
use mappo.Ordered.Holds.{
  Cell, Cells, held, place, places, Kept, held-append, Stored-ext, Stored-append, Stored-split,
}

module _ {K V : Type 0} where
  pub count-places :
      (i : ℕ) (a b : Cells K V)
      → count i (places (a ++ b)) ≡ count i (places a) + count i (places b)
  count-places i a b = ap (count i) (map-append place a b) ∙ count-append i (places a) (places b)

  pub modify_self :
      (a : ℕ) (f : OrderedElement K V → OrderedElement K V) (heap : ℕ → OrderedElement K V)
      → modify a f heap a ≡ f (heap a)
  unfolding modify
  modify_self a f heap = rw ((nat_beq_iff a a).1 refl)

  pub modify_other :
      (a i : ℕ) (f : OrderedElement K V → OrderedElement K V) (heap : ℕ → OrderedElement K V)
      → nat_beq a i ≡ false
      → modify a f heap i ≡ heap i
  unfolding modify
  modify_other a i f heap e = rw e

uses-take_out :
    (n i : ℕ) (l : List ℕ) (r : ℕ × List ℕ)
    → take_out n l ≡ some r
    → uses i l ≡ to_nat (nat_beq r.0 i) + uses i r.1
unfolding take_out
uses-take_out n i [] r e = cc
uses-take_out zero i (x ∷ l) r e =
    ap (λ p. to_nat (nat_beq p.0 i) + uses i p.1) (some-injective _ _ e)
uses-take_out (suc n) i (x ∷ l) r e = elim (Option-cases (take_out n l)) [
  | inl nothing ↦ absurd (ground (arith, nothing))
  | inr (p, found) ↦
      let same : (p.0, x ∷ p.1) ≡ r = some-injective _ _ (rw found at e) in
      omega (arith, uses-take_out n i l p found, ap (λ q. to_nat (nat_beq q.0 i) + uses i q.1) same)
]

uses-chosen :
    (pooled : Bool) (n i : ℕ) (l : List ℕ) (r : ℕ × List ℕ)
    → (if pooled then take_out n l else none) ≡ some r
    → uses i l ≡ to_nat (nat_beq r.0 i) + uses i r.1
uses-chosen true n i l r e = uses-take_out n i l r e
uses-chosen false n i l r e = cc

module _ {K V : Type 0} ⦃key : Comparable K⦄ {xsync : MapOf K ℕ} where
  pub Kept-insert :
      (o : Ordered xsync V) (m : xsync.Map) (heap : ℕ → OrderedElement K V) (a b : Cells K V)
      (k : K) (v : V) (adr : ℕ)
      → Kept o (a ++ b)
      → count k (a ++ b) ≡ 0
      → held adr (a ++ b) + uses adr o.pool ≡ 0
      → adr < o.allocated
      → heap adr ≡ record { key = k; value = v; element = some o.order.fresh }
      → ((i : ℕ) → nat_beq adr i ≡ false → heap i ≡ o.heap i)
      → Kept
          (record o {
            items = m;
            heap = heap;
            order = record {
              elements = places a ++ (o.order.fresh, adr) ∷ places b;
              fresh = suc o.order.fresh;
            };
          })
          (a ++ (k, record { address = adr; element = o.order.fresh; value = v }) ∷ b)
  unfolding count
  Kept-insert o m heap a b k v adr h new free below at rest =
      let c : K × Cell V = (k, record { address = adr; element = o.order.fresh; value = v }) in
      let (left, right) = Stored-split o.heap a b h.at in
      let apart = λ (i : ℕ). held-append i a b in
      record {
        at =
            Stored-append heap a (c ∷ b)
              (Stored-ext o.heap heap a (λ i q. rest i (ground (arith, apart adr))) left)
              (at, Stored-ext o.heap heap b (λ i q. rest i (ground (arith, apart adr))) right);
        order = sym (map-append place a (c ∷ b));
        elements = λ i. ground (arith, h.elements i, count-places i a b, count-places i a (c ∷ b));
        addresses = λ i. ground (arith, h.addresses i, apart i, held-append i a (c ∷ b), apart adr);
        once =
            λ j. ground (arith, h.once j, count-append j a b, count-append j a (c ∷ b), eq_iff k j);
      }

  Kept-put :
      (o : Ordered xsync V) (cs : Cells K V) (adr : ℕ)
      → Kept o cs
      → held adr cs + uses adr o.pool ≡ 0
      → adr < o.allocated
      → Kept (put_ordered_element adr o) cs
  unfolding put_ordered_element
  Kept-put o cs adr h free below = elim (Bool-cases o.pooled) [
    | inl pooled ↦ rw pooled (record {
      at = Stored-ext o.heap _ cs (λ i q. modify_other adr i _ o.heap (ground arith)) h.at;
      order = h.order;
      elements = h.elements;
      addresses = λ i. ground (arith, h.addresses i);
      once = h.once;
    })
    | inr plain ↦ rw plain (record {
      at = h.at;
      order = h.order;
      elements = h.elements;
      addresses = h.addresses;
      once = h.once;
    })
  ]

  pub Kept-remove :
      (o : Ordered xsync V) (m : xsync.Map) (a b : Cells K V) (c : K × Cell V)
      → Kept o (a ++ c ∷ b)
      → Kept
          (put_ordered_element c.1.address (record o {
            items = m;
            order = record o.order { elements = remove c.1.element o.order.elements };
          }))
          (a ++ b)
  unfolding count
  Kept-remove o m a b c h =
      let (left, right) = Stored-split o.heap a (c ∷ b) h.at in
      let adr = c.1.address in
      let apart = λ (i : ℕ). held-append i a b in
      let together = λ (i : ℕ). held-append i a (c ∷ b) in
      let middle : Once (places a ++ place c ∷ places b) =
        λ i. ground (arith, h.elements i, ap (count i) (map-append place a (c ∷ b))) in
      let removed =
        ap (remove c.1.element) (h.order ∙ map-append place a (c ∷ b))
        ∙ remove_middle c.1.element adr (places a) (places b) middle in
      Kept-put
        (record o {
          items = m;
          order = record o.order { elements = remove c.1.element o.order.elements };
        })
        (a ++ b) adr
        (record {
          at = Stored-append o.heap a b left right.1;
          order = removed ∙ sym (map-append place a b);
          elements = λ i. omega (arith, h.elements i, count-places i a b, count-places i a (c ∷ b));
          addresses = λ i. omega (arith, h.addresses i, apart i, together i);
          once = Once-middle c.0 c.1 a b h.once;
        })
        (ground (arith, h.addresses adr, apart adr, together adr))
        (ground (arith, h.addresses adr, apart adr, together adr))

  -- An address that nothing leads to, and the state that it was taken from.
  pub record Acquired (o : Ordered xsync V) (cs : Cells K V) (r : ℕ × Ordered xsync V)
      : Type 0 where
    pub kept : Kept r.1 cs
    pub free : held r.0 cs + uses r.0 r.1.pool ≡ 0
    pub below : r.0 < r.1.allocated
    pub items : r.1.items ≡ o.items
    pub order : r.1.order ≡ o.order

  pub acquire_lem :
      (zero_key : K) (zero_value : V) (choice : ℕ) (o : Ordered xsync V) (cs : Cells K V)
      → Kept o cs
      → Acquired o cs (get_ordered_element zero_key zero_value choice o)
  unfolding get_ordered_element
  acquire_lem zero_key zero_value choice o cs h =
      let chosen : Option (ℕ × List ℕ) = if o.pooled then take_out choice o.pool else none in
      elim (Option-cases chosen) [
        | inl nothing ↦
            let a = o.allocated in
            let zeroed : OrderedElement K V → OrderedElement K V =
              λ e. record { key = zero_key; value = zero_value; element = none } in
            let heap = modify a zeroed o.heap in
            rw (get_ordered_element, nothing)
              (record {
                kept = record {
                  at =
                      Stored-ext o.heap heap cs
                        (λ i q. modify_other a i zeroed o.heap (ground (arith, h.addresses i)))
                        h.at;
                  order = h.order;
                  elements = h.elements;
                  addresses = λ i. ground (arith, h.addresses i);
                  once = h.once;
                };
                free = ground (arith, h.addresses a);
                below = omega arith;
                items = refl;
                order = refl;
              })
        | inr ((a, pool'), found) ↦
            let cleared : OrderedElement K V → OrderedElement K V =
              λ e. record e { element = none } in
            let heap = modify a cleared o.heap in
            let taken : (i : ℕ) → uses i o.pool ≡ to_nat (nat_beq a i) + uses i pool' =
              λ i. uses-chosen o.pooled choice i o.pool (a, pool') found in
            rw (get_ordered_element, found)
              (record {
                kept = record {
                  at =
                      Stored-ext o.heap heap cs
                        (λ i q.
                          modify_other a i cleared o.heap (ground (arith, h.addresses i, taken i)))
                        h.at;
                  order = h.order;
                  elements = h.elements;
                  addresses = λ i. omega (arith, h.addresses i, taken i);
                  once = h.once;
                };
                free = ground (arith, h.addresses a, taken a);
                below = ground (arith, h.addresses a, taken a);
                items = refl;
                order = refl;
              })
      ]
