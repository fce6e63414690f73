-- ===== src/Lru/Purges.antt =====
-- What `PurgeExpired` of lru.go takes away.
use mappo.Prelude.{
  ℕ, zero, suc, ◌+◌, ◌≤◌, ◌≡◌, refl, none, some, List, [], ◌∷◌, ◌++◌, true, false, arith,
  if◌then◌else◌, length, Comparable, ◌∙◌, ap, sym, Bool-cases, inl, inr,
}
use mathlib.Core.List.{append-nil, append_assoc}
use mathlib.Core.Path.{subst}
use mappo.MapOf.{MapOf}
use mappo.Run.{ok}
use mappo.Time.{is_expired}
use mappo.Lru.{Lru}
use mappo.Lru.Drop.{drop_node_lem, free_node}
use mappo.Lru.Evict.{told, told_none, told_twice}
use mappo.Lru.Holds.{Holds, Holds-evictions}
use mappo.Lru.Links.{Slot, Cells, first}
use mappo.Lru.Models.{Models, Same, Same-trans, Stored, stored, entries, node_at}
use mappo.Lru.Linked.{at_of}
use mappo.Lru.Whole.{purge_from, purge_expired}

module _ {K V : Type 0} where
  -- The entries that have not expired, and how many have.
  abbrev pub alive : ℕ → List (K × Stored V) → List (K × Stored V)
  alive now [] = []
  alive now ((k, s) ∷ es) =
      if is_expired now s.expiration then alive now es else (k, s) ∷ alive now es

  abbrev pub dead : ℕ → List (K × Stored V) → ℕ
  dead now [] = 0
  dead now ((k, s) ∷ es) = if is_expired now s.expiration then suc (dead now es) else dead now es

  abbrev kept : ℕ → Cells K V → Cells K V
  kept now [] = []
  kept now (c ∷ cs) = if is_expired now c.1.expiration then kept now cs else c ∷ kept now cs

  entries-kept : (now : ℕ) (cs : Cells K V) → entries (kept now cs) ≡ alive now (entries cs)
  entries-kept now [] = refl
  entries-kept now (c ∷ cs) = elim (Bool-cases (is_expired now c.1.expiration)) [
    | inl old ↦ rw old (entries-kept now cs)
    | inr young ↦ rw young (ap (◌∷◌ (c.0, stored c.1)) (entries-kept now cs))
  ]

  length-alive-le : (now : ℕ) (es : List (K × Stored V)) → length (alive now es) ≤ length es
  length-alive-le now [] = omega arith
  length-alive-le now ((k, s) ∷ es) = ground (arith, length-alive-le now es)

module _ {K V : Type 0} ⦃key : Comparable K⦄ {xsync : MapOf K ℕ} (zero_key : K)
    (zero_value : V) where
  -- The entry after the drop of one node, told or not.
  told_one :
      (l : Lru xsync V) (cs : Cells K V) (fs : List ℕ)
      → Holds l cs fs
      → (l' : Lru xsync V) × ((if l.on_eviction
            then record l { evictions = l.evictions ++ (zero_key, zero_value) ∷ [] }
            else l)
          ≡ l')
        × Same l l'
        × (l'.evictions ≡ l.evictions ++ told zero_key zero_value l.on_eviction 1)
        × Holds l' cs fs
  told_one l cs fs h = elim (Bool-cases l.on_eviction) [
    | inl on ↦ (
      record l { evictions = l.evictions ++ (zero_key, zero_value) ∷ [] },
      rw on refl,
      record { max_size = refl; default_ttl = refl; on_eviction = refl; capacity = refl },
      rw on refl,
      Holds-evictions l _ cs fs h,
    )
    | inr off ↦ (
      l,
      rw off refl,
      record { max_size = refl; default_ttl = refl; on_eviction = refl; capacity = refl },
      rw off (sym (append-nil l.evictions)),
      h,
    )
  ]

  -- One purged node.
  purge_step :
      (fuel now removed : ℕ) (l : Lru xsync V) (a b : Cells K V) (c : K × Slot V) (fs : List ℕ)
      → Holds l (a ++ c ∷ b) fs
      → is_expired now c.1.expiration ≡ true
      → (l' : Lru xsync V) × (purge_from zero_key zero_value
            (suc fuel)
            now
            (some c.1.index)
            removed
            l
          ≡ purge_from zero_key zero_value fuel now (first b none) (removed + 1) l')
        × Same l l'
        × (l'.evictions ≡ l.evictions ++ told zero_key zero_value l.on_eviction 1)
        × Holds l' (a ++ b) (c.1.index ∷ fs)
  unfolding purge_from
  purge_step fuel now removed l a b c fs h old =
      let (pool, run, reads, holds) = drop_node_lem zero_key zero_value l a b c fs h in
      let (l', told_here, same, log, holds') = told_one _ (a ++ b) (c.1.index ∷ fs) holds in
      let here = at_of pool c.1.index (free_node zero_key zero_value l.free_list) reads in
      (
        l',
        rw (node_at l a b c fs h, purge_from, old, run, here)
            (ap (λ x. purge_from zero_key zero_value fuel now (first b none) (removed + 1) x)
              told_here),
        record {
          max_size = same.max_size;
          default_ttl = same.default_ttl;
          on_eviction = same.on_eviction;
          capacity = same.capacity;
        },
        log,
        holds',
      )

  purge_skip :
      (fuel now removed : ℕ) (l : Lru xsync V) (a b : Cells K V) (c : K × Slot V) (fs : List ℕ)
      → Holds l (a ++ c ∷ b) fs
      → is_expired now c.1.expiration ≡ false
      → purge_from zero_key zero_value (suc fuel) now (some c.1.index) removed l
        ≡ purge_from zero_key zero_value fuel now (first b none) removed l
  unfolding purge_from
  purge_skip fuel now removed l a b c fs h young = rw (node_at l a b c fs h, purge_from, young) refl

  purge_from_lem :
      (fuel now removed : ℕ) (l : Lru xsync V) (a b : Cells K V) (fs : List ℕ)
      → Holds l (a ++ b) fs
      → length b ≤ fuel
      → (l' : Lru xsync V) × (fs' : List ℕ) × (purge_from zero_key zero_value fuel now
            (first b none)
            removed
            l
          ≡ ok (removed + dead now (entries b), l'))
        × Same l l'
        × (l'.evictions
            ≡ l.evictions ++ told zero_key zero_value l.on_eviction (dead now (entries b)))
        × Holds l' (a ++ kept now b) fs'
  purge_from_lem fuel now removed l a [] fs h f = (
    l,
    fs,
    unfold purge_from in ap (λ n. ok (n, l)) (omega arith),
    record { max_size = refl; default_ttl = refl; on_eviction = refl; capacity = refl },
    sym (
        ap (λ t. l.evictions ++ t) (told_none zero_key zero_value l.on_eviction 0 refl)
        ∙ append-nil l.evictions),
    h,
  )
  purge_from_lem zero now removed l a (c ∷ b) fs h f = absurd (omega arith)
  purge_from_lem (suc fuel) now removed l a (c ∷ b) fs h f =
      elim (Bool-cases (is_expired now c.1.expiration)) [
        | inl old ↦
            let (l₁, run, same, log, holds) = purge_step fuel now removed l a b c fs h old in
            let (l₂, fs', run', same', log', holds') =
              purge_from_lem fuel now (removed + 1) l₁ a b (c.1.index ∷ fs) holds (omega arith) in
            (
              l₂,
              fs',
              rw old (run ∙ run' ∙ ap (λ n. ok (n, l₂)) (omega arith)),
              Same-trans l l₁ l₂ same same',
              rw old (
                  log'
                  ∙ told_twice zero_key zero_value _ _ l.evictions l₁.evictions
                      (dead now (entries b)) _ log same.on_eviction refl),
              rw old holds',
            )
        | inr young ↦
            let (l₂, fs', run', same', log', holds') =
              purge_from_lem fuel now removed l (a ++ c ∷ []) b fs
                (subst (λ x. Holds l x fs) (sym (append_assoc a (c ∷ []) b)) h) (omega arith) in
            (
              l₂,
              fs',
              rw young (purge_skip fuel now removed l a b c fs h young ∙ run'),
              same',
              rw young log',
              rw young (subst (λ x. Holds l₂ x fs') (append_assoc a (c ∷ []) (kept now b)) holds'),
            )
      ]

  -- `PurgeExpired` ends, takes away the entries that have expired, keeps the others in their order,
  -- and returns how many it took. For each of them `onEviction`, if there is one, is called with the
  -- zero key and the zero value.
  pub purge_expired-Models :
      (now : ℕ) (l : Lru xsync V) (es : List (K × Stored V))
      → Models l es
      → (l' : Lru xsync V) × (purge_expired zero_key zero_value now l ≡ ok (dead now es, l'))
        × Models l' (alive now es)
        × Same l l'
        × (l'.evictions ≡ l.evictions ++ told zero_key zero_value l.on_eviction (dead now es))
  unfolding purge_expired
  purge_expired-Models now l es m =
      let (l', fs, run, same, log, holds) =
        purge_from_lem (suc (length l.node_pool)) now 0 l [] m.cells m.unused m.holds
          (omega (arith, m.holds.total)) in
      let number : 0 + dead now (entries m.cells) ≡ dead now es =
        ap (λ x. 0 + dead now x) m.shows ∙ omega arith in
      (
        l',
        ap (λ p. purge_from zero_key zero_value (suc (length l.node_pool)) now p 0 l)
              m.holds.linked.head
            ∙ run
            ∙ ap (λ n. ok (n, l')) number,
        record {
          cells = kept now m.cells;
          unused = fs;
          holds = holds;
          shows = entries-kept now m.cells ∙ ap (alive now) m.shows;
          bounded = omega (arith, length-alive-le now es, m.bounded, same.max_size);
          positive = omega (arith, m.positive, same.max_size);
          small = omega (arith, m.small, same.max_size);
        },
        same,
        log ∙ ap (λ x. l.evictions ++ told zero_key zero_value l.on_eviction (dead now x)) m.shows,
      )
