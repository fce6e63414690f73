-- ===== src/Cache/Computed.antt =====
-- `GetOrSet` and `GetOrCompute` of cache.go.
use mappo.Prelude.{
  ℕ, ◌≤◌, ◌≡◌, refl, ap, sym, ◌∙◌, Option, none, some, true, false, if◌then◌else◌, Comparable, ◌==◌,
  ◌⊎◌, arith, Option-cases, inl, inr,
}
use mathlib.Core.Option.{none-ne-some}
use mappo.Cache.{Cache, Item, is_zero, has_expired, exp_after, new_item, load}
use mappo.Cache.Combined.{get_or_set, get_or_compute, compute_op, kept, live}
use mappo.Cache.Fresh.{Puts, Puts-after_load, view_opened, load-opened, value-load, view-new_item}
use mappo.Cache.Entries.{HasItems}
use mappo.Cache.Stored.{load_or_store-view}
use mappo.Cache.View.{view, load-view, view-load, live_later}
use mappo.Otter.{Otter, Pointer, write_op}
use mappo.Otter.Laws.{entry_after, get-compute}
use mappo.Run.{ok}
use mappo.Time.{Int64}

module _ {V : Type 0} where
  kept-live :
      (now : ℕ) (heap : ℕ → Item V) (o : Option Pointer)
      → live now heap o ≡ none
      → kept now heap o ≡ none
  unfolding live kept has_expired is_zero
  kept-live now heap none e = refl
  kept-live now heap (some none) e = refl
  kept-live now heap (some (some a)) e = ground arith

  compute_op_missing :
      (now : ℕ) (heap : ℕ → Item V) (a : ℕ) (o : Option Pointer)
      → kept now heap o ≡ none
      → compute_op now heap a o ≡ (some a, write_op)
  unfolding compute_op
  compute_op_missing now heap a o e = rw (compute_op, e) refl

module _ {K : Type 0} ⦃key : Comparable K⦄ {otter : Otter K} {V : Type 0} where
  -- `GetOrSet` in such a cache: it returns the value of the item that the key has, or puts a new item
  -- with its own value under the key.
  pub get_or_set-view :
      (now₁ now₂ now₃ later : ℕ) (k j : K) (value : Option V) (ttl : Int64) (c : Cache otter V)
      → c.closed ≡ false
      → HasItems c
      → now₁ ≤ now₃
      → now₁ ≤ later
      → ((a : ℕ) × (view now₁ k c ≡ some a)
          × (get_or_set now₁ now₂ now₃ k value ttl c
              ≡ ok (((c.heap a).value, true), (load now₁ k c).1)))
        ⊎ ((view now₁ k c ≡ none)
            × (d : Cache otter V) × (get_or_set now₁ now₂ now₃ k value ttl c
                ≡ ok ((value, false), d))
            × Puts k value now₂ ttl later j c d)
  unfolding get_or_set new_item
  get_or_set-view now₁ now₂ now₃ later k j value ttl c opened h q q' =
      let c₁ = (load now₁ k c).1 in
      let c₂ = (new_item value (exp_after now₂ ttl) c₁).1 in
      let (got, _, _) = load-view now₁ now₁ k k c (omega arith) in
      elim (Option-cases (view now₁ k c)) [
        | inr (a, there) ↦
            let run = got ∙ there in
            inl (
              a,
              there,
              simp (get_or_set, run) (ap (λ v. ok ((v, true), c₁)) (value-load now₁ k a c)),
            )
        | inl gone ↦
            let run = got ∙ gone in
            let (open₁, _) = load-opened now₁ k c opened in
            elim (load_or_store-view now₃ k c₁.allocated c₂ open₁) [
              | inl (b, seen, _) ↦ absurd (
                  none-ne-some b
                    (sym (view-new_item now₁ now₃ now₂ k value ttl c opened h q gone) ∙ seen))
              | inr (_, stored) ↦ inr (
                gone,
                record c₂ { inner = otter.set k (some c₁.allocated) c₁.inner },
                simp (get_or_set, run, new_item, stored),
                Puts-after_load now₁ now₂ later k j value ttl c _ opened h q' (record {
                  opened = open₁;
                  heap = refl;
                  entries = λ j. otter.get-set k j (some c₁.allocated) c₁.inner;
                }),
              )
            ]
      ]

  -- `GetOrCompute` in a cache that is not closed and whose entries are items that have been made,
  -- when the clock does not go back: it returns the value of the item that the key has, or it runs the
  -- function once, returns its value, and puts a new item with it under the key.
  pub get_or_compute-view :
      {S : Type 0} (now₁ now₂ later : ℕ) (k j : K) (fn : S → S × (Option V × Int64)) (state : S)
      (c : Cache otter V)
      → c.closed ≡ false
      → HasItems c
      → now₁ ≤ now₂
      → now₁ ≤ later
      → ((a : ℕ) × (view now₁ k c ≡ some a)
          × (get_or_compute now₁ now₂ k fn state c
              ≡ ((state, (c.heap a).value), (load now₁ k c).1)))
        ⊎ ((view now₁ k c ≡ none)
            × (d : Cache otter V) × (get_or_compute now₁ now₂ k fn state c
                ≡ (((fn state).0, (fn state).1.0), d))
            × Puts k (fn state).1.0 now₂ (fn state).1.1 later j c d)
  unfolding get_or_compute new_item
  get_or_compute-view now₁ now₂ later k j fn state c opened h q q' =
      let c₁ = (load now₁ k c).1 in
      let old = otter.get_if_present k c₁.inner in
      let (got, _, _) = load-view now₁ now₁ k k c (omega arith) in
      elim (Option-cases (view now₁ k c)) [
        | inr (a, there) ↦
            let run = got ∙ there in
            inl (
              a,
              there,
              simp (get_or_compute, run, opened)
                  (ap (λ v. ((state, v), c₁)) (value-load now₁ k a c)),
            )
        | inl gone ↦
            let run = got ∙ gone in
            let (open₁, _) = load-opened now₁ k c opened in
            let missing : kept now₂ c₁.heap old ≡ none = kept-live now₂ c₁.heap old (
              sym (view_opened now₂ k c₁ open₁)
              ∙ view-load now₁ now₂ k k c q
              ∙ view_opened now₂ k c opened
              ∙ live_later now₁ now₂ c.heap _ q (sym (view_opened now₁ k c opened) ∙ gone)) in
            let op = compute_op_missing now₂ c₁.heap c₁.allocated old missing in
            let fresh = (new_item (fn state).1.0 (exp_after now₂ (fn state).1.1) c₁).1 in
            inr (
              gone,
              record fresh {
                inner = (otter.compute k (compute_op now₂ c₁.heap c₁.allocated) c₁.inner).1;
              },
              simp (get_or_compute, run, opened, missing),
              Puts-after_load now₁ now₂ later k j (fn state).1.0 (fn state).1.1 c _ opened h q'
                  (record {
                    opened = open₁;
                    heap = refl;
                    entries = λ j.
                        get-compute otter k j (compute_op now₂ c₁.heap c₁.allocated) c₁.inner
                        ∙ ap
                            (λ r.
                              if k == j then entry_after old r else otter.get_if_present j c₁.inner)
                            op;
                  }),
            )
      ]
