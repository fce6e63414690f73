-- ===== src/Lru/Missing.antt =====
-- What `GetOrSet` and `GetOrCompute` of lru.go do to the entries, and `Set` when `Resize` has raised
-- the bound over the array's capacity.
use mappo.Prelude.{
  ℕ, ◌≤◌, ◌≡◌, refl, Option, none, some, List, false, arith, if◌then◌else◌, Comparable, ap, ◌∙◌,
  Option-cases, inl, inr, is_some, value_or, eq_refl, Bool-cases,
}
use mathlib.Core.Path.{subst}
use mappo.MapOf.{MapOf}
use mappo.Pairs.{lookup, lookup-remove, count}
use mappo.Run.{ok}
use mappo.Time.{Int64, deadline, is_expired}
use mappo.Lru.{Lru}
use mappo.Lru.Combined.{insert_value, set_missing, get_or_set, get_or_compute}
use mappo.Lru.Holds.{slot_index}
use mappo.Lru.Methods.{live_value, touched, get-Models}
use mappo.Lru.Place.{cells_absent}
use mappo.Lru.Models.{Models, Stored, count-entries, Same, Same-trans}
use mappo.Lru.Stores.{put, insertion}

module _ {K V : Type 0} ⦃key : Comparable K⦄ where
  -- The entries once a key that is not live is set.
  abbrev pub get_or_put : ℕ → ℕ → K → Stored V → List (K × Stored V) → List (K × Stored V)
  get_or_put now max_size k s es =
      let after = touched now k (lookup k es) es in
      if is_some (live_value now (lookup k es)) then after else put max_size k s after

  lookup-touched_missing :
      (now : ℕ) (k : K) (o : Option (Stored V)) (es : List (K × Stored V))
      → lookup k es ≡ o
      → live_value now o ≡ none
      → count k es ≤ 1
      → lookup k (touched now k o es) ≡ none
  lookup-touched_missing now k none es e dead once = e
  lookup-touched_missing now k (some s) es e dead once =
      elim (Bool-cases (is_expired now s.expiration)) [
        | inl old ↦ rw old (lookup-remove k k es once ∙ rw (eq_refl k) refl)
        | inr young ↦ let fresh : live_value now (some s) ≡ some s.value = rw young refl in cc
      ]

  get_or_put_absent :
      (now n : ℕ) (k : K) (new : Stored V) (es : List (K × Stored V))
      → lookup k es ≡ none
      → get_or_put now n k new es ≡ put n k new es
  get_or_put_absent now n k new es e =
      ap
        (λ o.
          let after = touched now k o es in
          if is_some (live_value now o) then after else put n k new after)
        e

module _ {K V : Type 0} ⦃key : Comparable K⦄ {xsync : MapOf K ℕ} (zero_key : K)
    (zero_value : V) where
  -- Without an entry for the key, `GetOrSet` stores one after its `Get`.
  set_missing-Models :
      (now : ℕ) (k : K) (v : V) (exp : Int64) (l : Lru xsync V) (es : List (K × Stored V))
      → Models l es
      → l.max_size ≤ l.capacity
      → lookup k es ≡ none
      → (l' : Lru xsync V) × (set_missing zero_key zero_value now k v exp l ≡ ok ((v, false), l'))
        × Models l' (put l.max_size k (record { value = v; expiration = exp }) es)
        × Same l l'
  unfolding set_missing insert_value
  set_missing-Models now k v exp l es m cap absent =
      let (_, _, _, l', run, run', run'', models, same, _) =
        insertion k v exp l es zero_key zero_value m cap absent in
      let unmapped : xsync.load k l.m ≡ none =
        m.holds.maps k ∙ ap slot_index (cells_absent k l es m absent) in
      (l', rw (unmapped, set_missing, run, run', run'') refl, rw absent models, same)

  missing_after_get :
      (now : ℕ) (k : K) (l : Lru xsync V) (es : List (K × Stored V))
      → Models l es
      → live_value now (lookup k es) ≡ none
      → lookup k (touched now k (lookup k es) es) ≡ none
  missing_after_get now k l es m missing =
      lookup-touched_missing now k (lookup k es) es refl missing (
        subst (λ x. count k x ≤ 1) m.shows (omega (arith, count-entries k m.cells, m.holds.once k)))

  -- `GetOrSet` gives the value of a live entry, which comes to the front, and tells that it was there;
  -- otherwise it stores the given value as `SetWithTTL` does, an expired entry being gone, and gives
  -- that value back.
  pub get_or_set-Models :
      (now now' now'' : ℕ) (k : K) (v : V) (ttl : Int64) (l : Lru xsync V)
      (es : List (K × Stored V))
      → Models l es
      → l.max_size ≤ l.capacity
      → (l' : Lru xsync V) × (get_or_set zero_key zero_value now now' now'' k v ttl l
          ≡ ok (
            (value_or (live_value now (lookup k es)) v, is_some (live_value now (lookup k es))),
            l',
          ))
        × Models l'
            (get_or_put now l.max_size k (record { value = v; expiration = deadline now' ttl }) es)
        × Same l l'
  unfolding get_or_set
  get_or_set-Models now now' now'' k v ttl l es m cap =
      let (l₁, run, models, same, _, _) = get-Models zero_key zero_value now k l es m in
      elim (Option-cases (live_value now (lookup k es))) [
        | inr (v', found) ↦ (l₁, rw (run, found) refl, rw found models, same)
        | inl missing ↦
            let new : Stored V = record { value = v; expiration = deadline now' ttl } in
            let gone = missing_after_get now k l es m missing in
            let (l₂, run', models', same') =
              set_missing-Models now'' k v (deadline now' ttl) l₁ _ models
                (omega (arith, same.max_size, same.capacity, cap)) gone in
            (
              l₂,
              rw (run, missing) run',
              rw missing (
                  subst (λ n. Models l₂ (put n k new (touched now k (lookup k es) es)))
                    same.max_size models'),
              Same-trans l l₁ l₂ same same',
            )
      ]

  -- `GetOrCompute` gives the value of a live entry without a call of its function; otherwise it
  -- stores what the function gives and gives that back.
  pub get_or_compute-Models :
      (first now now' now'' : ℕ) (k : K) (computed : V × Int64) (l : Lru xsync V)
      (es : List (K × Stored V))
      → Models l es
      → l.max_size ≤ l.capacity
      → (l' : Lru xsync V) × (get_or_compute zero_key zero_value first now now' now'' k computed l
          ≡ ok (value_or (live_value first (lookup k es)) computed.0, l'))
        × Models l' (
            get_or_put first l.max_size k
              (record { value = computed.0; expiration = deadline now' computed.1 })
              es)
  unfolding get_or_compute
  get_or_compute-Models first now now' now'' k computed l es m cap =
      let (l₁, run, models, same, _, _) = get-Models zero_key zero_value first k l es m in
      elim (Option-cases (live_value first (lookup k es))) [
        | inr (v', found) ↦ (l₁, rw (run, found) refl, rw found models)
        | inl missing ↦
            let new : Stored V = record {
              value = computed.0;
              expiration = deadline now' computed.1;
            } in
            let es' = touched first k (lookup k es) es in
            let gone = missing_after_get first k l es m missing in
            let (l₂, run', models', _) =
              get_or_set-Models now now' now'' k computed.0 computed.1 l₁ es' models
                (omega (arith, same.max_size, same.capacity, cap)) in
            (
              l₂,
              rw (run, missing, run', gone) refl,
              rw missing (
                  subst (λ n. Models l₂ (put n k new es')) same.max_size
                    (subst (λ x. Models l₂ x) (get_or_put_absent now l₁.max_size k new es' gone)
                      models')),
            )
      ]
