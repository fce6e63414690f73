-- ===== src/Lru/Aging.antt =====
-- How long lru.go keeps an entry that is not used again.
use mappo.Prelude.{
  ℕ, zero, suc, ◌+◌, ◌-◌, ◌≤◌, ◌<◌, ◌≡◌, refl, none, some, List, [], ◌∷◌, ◌++◌, arith, Bool, true,
  false, if◌then◌else◌, length, Comparable, ◌==◌, eq_iff, eq_refl, ap, ◌∙◌, Bool-cases, inl, inr,
  is_some, ltb, take, length-take-le, length-append,
}
use mathlib.Core.Path.{subst}
use mappo.MapOf.{MapOf}
use mappo.Pairs.{
  lookup, remove, count, Once, count-append, lookup-remove, count_of_lookup-none,
  lookup_of_count-zero, length-remove,
}
use mappo.Run.{ok}
use mappo.Time.{Int64, deadline}
use mappo.Lru.{Lru, peek}
use mappo.Lru.Methods.{live_value, peek-Models}
use mappo.Lru.Models.{Models, Stored}
use mappo.Lru.Script.{Call, set_call, perform_all}
use mappo.Lru.Stores.{put, lookup-take_absent, set_with_ttl-Models}

module _ {K V : Type 0} ⦃key : Comparable K⦄ where
  count-le-length : (k : K) (l : List (K × V)) → count k l ≤ length l
  unfolding count
  count-le-length k [] = omega arith
  count-le-length k (e ∷ l) = ground (arith, count-le-length k l)

  lookup_past :
      (k : K) (v : V) (a b : List (K × V)) → count k a ≡ 0 → lookup k (a ++ (k, v) ∷ b) ≡ some v
  unfolding lookup count
  lookup_past k v [] b h = rw (eq_refl k) refl
  lookup_past k v (e ∷ a) b h = ground (arith, lookup_past k v a b)

  lookup-take_past :
      (k : K) (n : ℕ) (a b : List (K × V))
      → count k a ≡ 0
      → n ≤ length a
      → lookup k (take n (a ++ b)) ≡ none
  unfolding lookup count
  lookup-take_past k zero a b h q = refl
  lookup-take_past k (suc n) [] b h q = absurd (omega (arith, q))
  lookup-take_past k (suc n) (e ∷ a) b h q = ground (arith, lookup-take_past k n a b)

  remove_behind :
      (j k : K) (v : V) (a b : List (K × V))
      → count j a ≡ 0
      → (k == j) ≡ false
      → remove j (a ++ (k, v) ∷ b) ≡ a ++ (k, v) ∷ remove j b
  unfolding remove count
  remove_behind j k v [] b h away = rw away refl
  remove_behind j k v (e ∷ a) b h away = ground (arith, remove_behind j k v a b)

  take_behind :
      (n : ℕ) (x : K × V) (a b : List (K × V))
      → length a < n
      → (b' : List (K × V)) × (take n (a ++ x ∷ b) ≡ a ++ x ∷ b')
  take_behind zero x a b h = absurd (omega (arith, h))
  take_behind (suc n) x [] b h = (take n b, refl)
  take_behind (suc n) x (e ∷ a) b h =
      let (b', is) = take_behind n x a b (omega (arith, h)) in (b', ap (λ r. e ∷ r) is)

module _ {K V : Type 0} ⦃key : Comparable K⦄ where
  -- Calls of `SetWithTTL`: a key, its value, the reading of the clock and the time to live.
  abbrev pub set_calls : List (K × (V × ℕ × Int64)) → List (Call K V)
  set_calls [] = []
  set_calls ((j, (v, now, ttl)) ∷ rows) = set_call j v now ttl ∷ set_calls rows

  unfoldable put_rows : ℕ → List (K × (V × ℕ × Int64)) → List (K × Stored V) → List (K × Stored V)
  put_rows n [] es = es
  put_rows n ((j, (v, now, ttl)) ∷ rows) es =
      put_rows n rows (put n j (record { value = v; expiration = deadline now ttl }) es)

  -- A key that is gone stays away until it is stored.
  lookup-put_absent :
      (n : ℕ) (j k : K) (s : Stored V) (es : List (K × Stored V))
      → lookup k es ≡ none
      → (j == k) ≡ false
      → lookup k (put n j s es) ≡ none
  unfolding lookup
  lookup-put_absent n j k s es gone away = elim (Bool-cases (is_some (lookup j es))) [
    | inl there ↦
        rw (there, away)
          (lookup-remove j k es (omega (arith, count_of_lookup-none k es gone))
            ∙ rw (away, gone) refl)
    | inr absent ↦ rw (absent, away) (lookup-take_absent k (n - 1) es gone)
  ]

  lookup-put_rows_absent :
      (n : ℕ) (k : K) (rows : List (K × (V × ℕ × Int64))) (es : List (K × Stored V))
      → lookup k es ≡ none
      → count k rows ≡ 0
      → lookup k (put_rows n rows es) ≡ none
  unfolding put_rows count
  lookup-put_rows_absent n k [] es gone none_left = gone
  lookup-put_rows_absent n k ((j, (v, now, ttl)) ∷ rows) es gone none_left =
      let away : (j == k) ≡ false = ground (arith, none_left) in
      lookup-put_rows_absent n k rows _ (lookup-put_absent n j k _ es gone away)
        (ground (arith, none_left))

  -- Another key that is put moves the entry back by one place, or, from the last, out.
  put_behind :
      (n : ℕ) (j k : K) (s t : Stored V) (front rest : List (K × Stored V))
      → suc (length front) < n
      → count j front ≡ 0
      → (k == j) ≡ false
      → (rest' : List (K × Stored V)) × (put n j t (front ++ (k, s) ∷ rest)
          ≡ (j, t) ∷ front ++ (k, s) ∷ rest')
  put_behind n j k s t front rest room new away =
      elim (Bool-cases (is_some (lookup j (front ++ (k, s) ∷ rest)))) [
        | inl there ↦ (
          remove j rest,
          rw there (ap (λ r. (j, t) ∷ r) (remove_behind j k s front rest new away)),
        )
        | inr absent ↦
            let (rest', is) = take_behind (n - 1) (k, s) front rest (omega (arith, room)) in
            (rest', rw absent (ap (λ r. (j, t) ∷ r) is))
      ]

  put_out :
      (n : ℕ) (j k : K) (s t : Stored V) (front rest : List (K × Stored V))
      → n ≤ suc (length front)
      → length (front ++ (k, s) ∷ rest) ≤ n
      → count j front ≡ 0
      → count k front ≡ 0
      → (k == j) ≡ false
      → lookup k (put n j t (front ++ (k, s) ∷ rest)) ≡ none
  unfolding lookup count
  put_out n j k s t front rest full bounded new first away =
      let short = length-append front ((k, s) ∷ rest) in
      let absent : lookup j (front ++ (k, s) ∷ rest) ≡ none = lookup_of_count-zero j _ (
        ground (
          arith,
          count-append j front ((k, s) ∷ rest),
          short,
          bounded,
          full,
          new,
          away,
          count-le-length j rest,
        )) in
      let apart : (j == k) ≡ false = ground (arith, away, eq_iff k j, eq_iff j k) in
      rw (absent, apart)
        (lookup-take_past k (n - 1) front ((k, s) ∷ rest) first (omega (arith, full)))

  length-put :
      (n : ℕ) (j : K) (t : Stored V) (es : List (K × Stored V))
      → 0 < n
      → length es ≤ n
      → length (put n j t es) ≤ n
  length-put n j t es positive bounded = elim (Bool-cases (is_some (lookup j es))) [
    | inl there ↦ rw there (ground (arith, length-remove j es, there, bounded))
    | inr absent ↦ rw absent (omega (arith, length-take-le (n - 1) es, positive))
  ]

  lookup-put_rows :
      (n : ℕ) (k : K) (s : Stored V) (rows : List (K × (V × ℕ × Int64)))
      (front rest : List (K × Stored V))
      → 0 < n
      → length (front ++ (k, s) ∷ rest) ≤ n
      → count k front ≡ 0
      → count k rows ≡ 0
      → ((j : K) → count j front + count j rows ≤ 1)
      → lookup k (put_rows n rows (front ++ (k, s) ∷ rest))
        ≡ (if ltb (length front + length rows) n then some s else none)
  unfolding put_rows count
  lookup-put_rows n k s [] front rest positive bounded first none_left once =
      let here : ltb (length front + 0) n ≡ true =
        ground (arith, length-append front ((k, s) ∷ rest), bounded) in
      rw here (lookup_past k s front rest first)
  lookup-put_rows n k s ((j, (v, now, ttl)) ∷ rows) front rest positive bounded first none_left
        once =
      let t : Stored V = record { value = v; expiration = deadline now ttl } in
      let es = front ++ (k, s) ∷ rest in
      let away : (k == j) ≡ false = ground (arith, none_left, eq_iff k j, eq_iff j k) in
      let new : count j front ≡ 0 = ground (arith, once j, eq_refl j) in
      let later : count k rows ≡ 0 = ground (arith, none_left) in
      elim (Bool-cases (ltb (suc (length front)) n)) [
        | inl room ↦
            let (rest', is) = put_behind n j k s t front rest (ground (arith, room)) new away in
            let step =
              lookup-put_rows n k s rows ((j, t) ∷ front) rest' positive
                (subst (λ x. length x ≤ n) is (length-put n j t es positive bounded))
                (ground (arith, none_left, first)) later (λ i. omega (arith, once i)) in
            ap (λ x. lookup k (put_rows n rows x)) is
            ∙ step
            ∙ ap (λ (m : ℕ). if ltb m n then some s else none) (omega arith)
        | inr full ↦
            let out = put_out n j k s t front rest (ground (arith, full)) bounded new first away in
            let no : ltb (length front + suc (length rows)) n ≡ false = ground (arith, full) in
            rw no (lookup-put_rows_absent n k rows (put n j t es) out later)
      ]

module _ {K V : Type 0} ⦃key : Comparable K⦄ {xsync : MapOf K ℕ} (zero_key : K)
    (zero_value : V) where
  set_calls-Models :
      (rows : List (K × (V × ℕ × Int64))) (l : Lru xsync V) (es : List (K × Stored V))
      → Models l es
      → l.max_size ≤ l.capacity
      → (l' : Lru xsync V) × (perform_all zero_key zero_value (set_calls rows) l ≡ ok l')
        × Models l' (put_rows l.max_size rows es)
  unfolding put_rows
  set_calls-Models [] l es m cap = (l, refl, m)
  set_calls-Models ((j, (v, now, ttl)) ∷ rows) l es m cap =
      let t : Stored V = record { value = v; expiration = deadline now ttl } in
      let (l₁, run, m₁, same, _) = set_with_ttl-Models j v now ttl l es zero_key zero_value m cap in
      let (l₂, run', m₂) =
        set_calls-Models rows l₁ (put l.max_size j t es) m₁
          (omega (arith, same.max_size, same.capacity, cap)) in
      (
        l₂,
        rw run run',
        subst (λ n. Models l₂ (put_rows n rows (put l.max_size j t es))) same.max_size m₂,
      )

  -- On a well-formed map whose bound is within the array's capacity, a key is stored, and then other
  -- keys, no key twice. `Peek` gives the key's value, unless it is expired, while these are fewer
  -- than the bound, and nothing from then on.
  pub peek-set_calls :
      (k : K) (v : V) (then_now : ℕ) (ttl : Int64) (rows : List (K × (V × ℕ × Int64))) (now : ℕ)
      (l : Lru xsync V) (es : List (K × Stored V))
      → Models l es
      → l.max_size ≤ l.capacity
      → Once ((k, (v, then_now, ttl)) ∷ rows)
      → (l' : Lru xsync V) × (perform_all zero_key zero_value
            (set_calls ((k, (v, then_now, ttl)) ∷ rows))
            l
          ≡ ok l')
        × (peek now k l'
            ≡ ok (
                if ltb (length rows) l.max_size
                then live_value now
                    (some (record { value = v; expiration = deadline then_now ttl }))
                else none))
  unfolding count put_rows
  peek-set_calls k v then_now ttl rows now l es m cap once =
      let n = l.max_size in
      let s : Stored V = record { value = v; expiration = deadline then_now ttl } in
      let rest = if is_some (lookup k es) then remove k es else take (n - 1) es in
      let (l', run, models) = set_calls-Models ((k, (v, then_now, ttl)) ∷ rows) l es m cap in
      let found =
        lookup-put_rows n k s rows [] rest m.positive (length-put n k s es m.positive m.bounded)
          refl (ground (arith, once k, eq_refl k)) (λ j. omega (arith, once j)) in
      (
        l',
        run,
        peek-Models now k l' _ models
            ∙ ap (λ o. ok (live_value now o)) found
            ∙ ap (λ (m : ℕ). ok (live_value now (if ltb m n then some s else none))) (omega arith)
            ∙ by_test (ltb (length rows) n) now s,
      )
    where
      by_test :
          (b : Bool) (now : ℕ) (s : Stored V)
          → ok (live_value now (if b then some s else none))
            ≡ ok (if b then live_value now (some s) else none)
      by_test true now s = refl
      by_test false now s = refl
