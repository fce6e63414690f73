-- ===== src/Lru/Evict.antt =====
-- Evictions in lru.go.
use mappo.Prelude.{
  ℕ, zero, suc, ◌-◌, ◌≤◌, ◌<◌, ◌^◌, ◌≡◌, refl, none, some, List, [], ◌∷◌, ◌++◌, Bool, true, false,
  arith, if◌then◌else◌, length, get_elem?, Bool-cases, inl, inr, length-append, ap, ◌∙◌, sym,
  Comparable, take, take_of_length-le, take-append_left, split_last, replicate,
}
use mathlib.Core.List.{append-nil, append_assoc}
use mathlib.Core.Path.{subst}
use mappo.MapOf.{MapOf}
use mappo.Run.{ok, ◌>>=◌}
use mappo.Lru.{
  Node, Lru, drop_node, evict_back, evict_one, evict_down_to, at, remove_from_list, release_node,
  at_least, decrement,
}
use mappo.Lru.Drop.{drop_node_lem, free_node}
use mappo.Lru.Holds.{Holds, Holds-evictions}
use mappo.Lru.Links.{Slot, Cells, node_of, last, first, last-append}
use mappo.Lru.Models.{Same, Same-trans}
use mappo.Lru.Linked.{at_of}
use mappo.Lru.Unlink.{remove_from_list_lem}

below_bound :
    (size n bound : ℕ)
    → size ≡ n
    → n < 2 ^ 31
    → 0 < bound
    → at_least size bound ≡ false
    → n ≤ bound - 1
unfolding at_least
below_bound size n bound e s b q = ground arith

at_bound : (size n bound : ℕ) → size ≡ n → at_least size bound ≡ true → bound ≤ n
unfolding at_least
at_bound size n bound e q = ground arith

module _ {K V : Type 0} (zero_key : K) (zero_value : V) where
  -- The calls of `onEviction` that `n` evictions make.
  abbrev pub told : Bool → ℕ → List (K × V)
  told on_eviction n = if on_eviction then replicate n (zero_key, zero_value) else []

  told-append : (on : Bool) (n : ℕ) → told on 1 ++ told on n ≡ told on (suc n)
  told-append true n = refl
  told-append false n = refl

  pub told_none : (on : Bool) (n : ℕ) → n ≡ 0 → told on n ≡ []
  told_none true n e = rw e
  told_none false n e = refl

  pub told_twice :
      (on on' : Bool) (log log' : List (K × V)) (n m : ℕ)
      → log' ≡ log ++ told on 1
      → on' ≡ on
      → m ≡ suc n
      → log' ++ told on' n ≡ log ++ told on m
  told_twice on on' log log' n m e same more =
      rw (e, same, more)
        (append_assoc log (told on 1) (told on n) ∙ ap (λ t. log ++ t) (told-append on n))

split_end :
    {A : Type 0} → (xs : List A) → 0 < length xs → (ys : List A) × (y : A) × (xs ≡ ys ++ y ∷ [])
split_end [] h = absurd (omega arith)
split_end (x ∷ xs) h = split_last x xs

module _ {K V : Type 0} ⦃key : Comparable K⦄ {xsync : MapOf K ℕ} (zero_key : K)
    (zero_value : V) where
  -- `evictBack` drops the last node, and reads its key and value when they are gone.
  evict_back-drop :
      (l l' : Lru xsync V) (i : ℕ) (k : K) (node : Node K V)
      → l.tail ≡ some i
      → remove_from_list i l ≡ ok l'
      → get_elem? l'.node_pool i ≡ some node
      → node.key ≡ k
      → evict_back zero_key zero_value l ≡ (
          drop_node zero_key zero_value k i l >>= λ freed.
          at freed.node_pool i >>= λ node'. ok ((node'.key, node'.value, true), freed))
  unfolding evict_back drop_node release_node decrement
  evict_back-drop l l' i k node t e r same =
      let here : at l'.node_pool i ≡ ok node = rw (r, at) in
      rw (t, evict_back, e, here) (rw (← same))

  -- The node behind all others is dropped; what `evictBack` returns are the zero key and value.
  evict_back_lem :
      (l : Lru xsync V) (a : Cells K V) (c : K × Slot V) (fs : List ℕ)
      → Holds l (a ++ c ∷ []) fs
      → (l' : Lru xsync V) × (evict_back zero_key zero_value l
          ≡ ok ((zero_key, zero_value, true), l'))
        × Same l l'
        × (l'.evictions ≡ l.evictions)
        × Holds l' a (c.1.index ∷ fs)
  evict_back_lem l a c fs h =
      let (pool, dropped, reads, holds) = drop_node_lem zero_key zero_value l a [] c fs h in
      let (_, run, _, _, here) = remove_from_list_lem l a [] c h.linked in
      let l' = record l {
        node_pool = pool;
        head = first (a ++ []) none;
        tail = last none (a ++ []);
        m = xsync.delete c.0 l.m;
        free_list = some c.1.index;
        size = decrement l.size;
      } in
      (
        l',
        evict_back-drop l _ c.1.index c.0 (node_of c none none)
              (h.linked.tail ∙ last-append none a (c ∷ [])) run here refl
            ∙ rw (dropped, at_of pool c.1.index (free_node zero_key zero_value l.free_list) reads),
        record { max_size = refl; default_ttl = refl; on_eviction = refl; capacity = refl },
        refl,
        subst (λ x. Holds l' x (c.1.index ∷ fs)) (append-nil a) holds,
      )

  evict_one_lem :
      (l : Lru xsync V) (a : Cells K V) (c : K × Slot V) (fs : List ℕ)
      → Holds l (a ++ c ∷ []) fs
      → (l' : Lru xsync V) × (evict_one zero_key zero_value l ≡ ok l')
        × Same l l'
        × (l'.evictions ≡ l.evictions ++ told zero_key zero_value l.on_eviction 1)
        × Holds l' a (c.1.index ∷ fs)
  unfolding evict_one
  evict_one_lem l a c fs h =
      let (l₁, run, same, log, holds) = evict_back_lem l a c fs h in
      elim (Bool-cases l.on_eviction) [
        | inl on ↦ (
          record l₁ { evictions = l₁.evictions ++ (zero_key, zero_value) ∷ [] },
          rw (run, on),
          record {
            max_size = same.max_size;
            default_ttl = same.default_ttl;
            on_eviction = same.on_eviction;
            capacity = same.capacity;
          },
          rw (on, log),
          Holds-evictions l₁ _ a _ holds,
        )
        | inr off ↦ (l₁, rw (run, off), same, rw (off, append-nil) log, holds)
      ]

  -- The loop that evicts ends, within as much fuel as there are nodes and one more, with fewer
  -- nodes than the bound: the most recently used ones.
  pub evict_down_to_lem :
      (fuel bound : ℕ) (l : Lru xsync V) (cs : Cells K V) (fs : List ℕ)
      → Holds l cs fs
      → 0 < bound
      → length cs < fuel
      → (l' : Lru xsync V) × (fs' : List ℕ) × (evict_down_to zero_key zero_value fuel bound l
          ≡ ok l')
        × Same l l'
        × (l'.evictions
            ≡ l.evictions ++ told zero_key zero_value l.on_eviction (length cs - (bound - 1)))
        × Holds l' (take (bound - 1) cs) fs'
  unfolding evict_down_to
  evict_down_to_lem zero bound l cs fs h b f = absurd (omega arith)
  evict_down_to_lem (suc fuel) bound l cs fs h b f = elim (Bool-cases (at_least l.size bound)) [
    | inl more ↦
        let full = at_bound l.size (length cs) bound h.counted more in
        let (a, c, e) = split_end cs (omega arith) in
        let len = ap length e ∙ length-append a (c ∷ []) in
        let (l₁, run, same, log, holds) = evict_one_lem l a c fs (subst (λ x. Holds l x fs) e h) in
        let (l₂, fs', run', same', log', holds') =
          evict_down_to_lem fuel bound l₁ a (c.1.index ∷ fs) holds b (omega (arith, len)) in
        (
          l₂,
          fs',
          rw (more, run) run',
          Same-trans l l₁ l₂ same same',
          log'
              ∙ told_twice zero_key zero_value _ _ l.evictions l₁.evictions (length a - (bound - 1))
                  _ log same.on_eviction (omega (arith, len)),
          subst (λ x. Holds l₂ x fs')
              (sym (
                ap (take (bound - 1)) e
                ∙ take-append_left (bound - 1) a (c ∷ []) (omega (arith, len))))
              holds',
        )
    | inr done ↦
        let short : length cs ≤ bound - 1 =
          below_bound l.size (length cs) bound h.counted h.small b done in
        (
          l,
          fs,
          rw done,
          record { max_size = refl; default_ttl = refl; on_eviction = refl; capacity = refl },
          sym (append-nil l.evictions)
              ∙ ap (λ t. l.evictions ++ t)
                  (sym (told_none zero_key zero_value l.on_eviction _ (omega arith))),
          subst (λ x. Holds l x fs) (sym (take_of_length-le (bound - 1) cs short)) h,
        )
  ]
