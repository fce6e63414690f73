-- ===== src/Lru/Script.antt =====
-- Sequences of calls of lru.go's methods, against what they do to a list of entries.
use mappo.Prelude.{
  ℕ, ◌≤◌, ◌<◌, ◌^◌, ◌≡◌, refl, List, [], ◌∷◌, Bool, arith, length, Comparable, ap, sym, ◌∙◌, take,
}
use mathlib.Core.Path.{subst}
use mappo.MapOf.{MapOf}
use mappo.Pairs.{lookup, remove}
use mappo.Run.{Run, ok, ◌>>=◌}
use mappo.Time.{Int64, deadline}
use mappo.Lru.{Lru, set_with_ttl, get, delete}
use mappo.Lru.Clears.{clear-Models}
use mappo.Lru.Combined.{get_or_set}
use mappo.Lru.Methods.{touched, get-Models, delete-Models}
use mappo.Lru.Missing.{get_or_put, get_or_set-Models}
use mappo.Lru.Models.{Models, Same, Stored, length-entries}
use mappo.Lru.Purges.{alive, purge_expired-Models}
use mappo.Lru.Resets.{resize-Models, new_lru_with_config-Models}
use mappo.Lru.Stores.{put, set_with_ttl-Models}
use mappo.Lru.Whole.{bound_of, new_lru_with_config, clear, resize, purge_expired, len}

-- A call that changes the state, with its arguments and its readings of the clock.
pub data Call (K V : Type 0) : Type 0 where
  set_call : K → V → ℕ → Int64 → Call K V
  get_call : K → ℕ → Call K V
  delete_call : K → Call K V
  get_or_set_call : K → V → Int64 → ℕ → ℕ → ℕ → Call K V
  resize_call : Int64 → Call K V
  clear_call : Call K V
  purge_call : ℕ → Call K V

module _ {K V : Type 0} where
  -- `Resize` does not go over the array's capacity.
  abbrev pub Fits : ℕ → Call K V → Type 0
  Fits capacity (resize_call n) = bound_of n ≤ capacity
  Fits capacity _ = Unit

  abbrev pub AllFit : ℕ → List (Call K V) → Type 0
  AllFit capacity [] = Unit
  AllFit capacity (c ∷ cs) = Fits capacity c × AllFit capacity cs

module _ {K V : Type 0} ⦃key : Comparable K⦄ where
  -- The bound and the entries after a call.
  abbrev pub expect : Call K V → ℕ × List (K × Stored V) → ℕ × List (K × Stored V)
  expect (set_call k v now ttl) (n, es) =
      (n, put n k (record { value = v; expiration = deadline now ttl }) es)
  expect (get_call k now) (n, es) = (n, touched now k (lookup k es) es)
  expect (delete_call k) (n, es) = (n, remove k es)
  expect (get_or_set_call k v ttl now now' now'') (n, es) =
      (n, get_or_put now n k (record { value = v; expiration = deadline now' ttl }) es)
  expect (resize_call m) (n, es) = (bound_of m, take (bound_of m) es)
  expect clear_call (n, es) = (n, [])
  expect (purge_call now) (n, es) = (n, alive now es)

  abbrev pub expect_all : List (Call K V) → ℕ × List (K × Stored V) → ℕ × List (K × Stored V)
  expect_all [] a = a
  expect_all (c ∷ cs) a = expect_all cs (expect c a)

module _ {K V : Type 0} ⦃key : Comparable K⦄ {xsync : MapOf K ℕ} where
  len-Models : (l : Lru xsync V) (es : List (K × Stored V)) → Models l es → len l ≡ length es
  unfolding len
  len-Models l es m = m.holds.counted ∙ sym (length-entries m.cells) ∙ ap length m.shows

module _ {K V : Type 0} ⦃key : Comparable K⦄ {xsync : MapOf K ℕ} (zero_key : K)
    (zero_value : V) where
  -- A call, its results left aside.
  abbrev pub perform : Call K V → Lru xsync V → Run (Lru xsync V)
  perform (set_call k v now ttl) l = set_with_ttl zero_key zero_value now k v ttl l
  perform (get_call k now) l = get zero_key zero_value now k l >>= λ r. ok r.1
  perform (delete_call k) l = delete zero_key zero_value k l >>= λ r. ok r.1
  perform (get_or_set_call k v ttl now now' now'') l =
      get_or_set zero_key zero_value now now' now'' k v ttl l >>= λ r. ok r.1
  perform (resize_call m) l = resize zero_key zero_value m l
  perform clear_call l = ok (clear l)
  perform (purge_call now) l = purge_expired zero_key zero_value now l >>= λ r. ok r.1

  abbrev pub perform_all : List (Call K V) → Lru xsync V → Run (Lru xsync V)
  perform_all [] l = ok l
  perform_all (c ∷ cs) l = perform c l >>= perform_all cs

  -- The state stands for a bound and for entries, and the bound is within the capacity.
  pub record Stands (l : Lru xsync V) (capacity : ℕ) (a : ℕ × List (K × Stored V)) : Type 0 where
    pub models : Models l a.1
    pub bound : l.max_size ≡ a.0
    pub capacity_is : l.capacity ≡ capacity
    pub within : l.max_size ≤ capacity

  Stands-of_Same :
      (l l' : Lru xsync V) (capacity n : ℕ) (es es' : List (K × Stored V))
      → Stands l capacity (n, es)
      → Same l l'
      → Models l' es'
      → Stands l' capacity (n, es')
  Stands-of_Same l l' capacity n es es' s same models = record {
    models = models;
    bound = same.max_size ∙ s.bound;
    capacity_is = same.capacity ∙ s.capacity_is;
    within = omega (arith, same.max_size, s.within);
  }

  perform_lem :
      (c : Call K V) (l : Lru xsync V) (capacity n : ℕ) (es : List (K × Stored V))
      → Stands l capacity (n, es)
      → capacity < 2 ^ 31
      → Fits capacity c
      → (l' : Lru xsync V) × (perform c l ≡ ok l') × Stands l' capacity (expect c (n, es))
  perform_lem (set_call k v now ttl) l capacity n es s small fits =
      let new : Stored V = record { value = v; expiration = deadline now ttl } in
      let (l', run, models, same, _) =
        set_with_ttl-Models k v now ttl l es zero_key zero_value s.models
          (omega (arith, s.within, s.capacity_is)) in
      (
        l',
        run,
        Stands-of_Same l l' capacity n es (put n k new es) s same
            (subst (λ x. Models l' (put x k new es)) s.bound models),
      )
  perform_lem (get_call k now) l capacity n es s small fits =
      let (l', run, models, same, _, _) = get-Models zero_key zero_value now k l es s.models in
      (l', rw run refl, Stands-of_Same l l' capacity n es _ s same models)
  perform_lem (delete_call k) l capacity n es s small fits =
      let (l', run, models, same) = delete-Models zero_key zero_value k l es s.models in
      (l', rw run refl, Stands-of_Same l l' capacity n es _ s same models)
  perform_lem (get_or_set_call k v ttl now now' now'') l capacity n es s small fits =
      let new : Stored V = record { value = v; expiration = deadline now' ttl } in
      let (l', run, models, same) =
        get_or_set-Models zero_key zero_value now now' now'' k v ttl l es s.models
          (omega (arith, s.within, s.capacity_is)) in
      (
        l',
        rw run refl,
        Stands-of_Same l l' capacity n es (get_or_put now n k new es) s same
            (subst (λ x. Models l' (get_or_put now x k new es)) s.bound models),
      )
  perform_lem (resize_call m) l capacity n es s small fits =
      let (l', run, models, max, cap, _) =
        resize-Models m zero_key zero_value l es s.models (omega (arith, small, fits)) in
      (
        l',
        run,
        record {
          models = models;
          bound = max;
          capacity_is = cap ∙ s.capacity_is;
          within = omega (arith, max, fits);
        },
      )
  perform_lem clear_call l capacity n es s small fits =
      let (models, same, _, _, _, _) = clear-Models l es s.models in
      (clear l, refl, Stands-of_Same l (clear l) capacity n es [] s same models)
  perform_lem (purge_call now) l capacity n es s small fits =
      let (l', run, models, same, _) = purge_expired-Models zero_key zero_value now l es s.models in
      (l', rw run refl, Stands-of_Same l l' capacity n es _ s same models)

  perform_all_lem :
      (cs : List (Call K V)) (l : Lru xsync V) (capacity n : ℕ) (es : List (K × Stored V))
      → Stands l capacity (n, es)
      → capacity < 2 ^ 31
      → AllFit capacity cs
      → (l' : Lru xsync V) × (perform_all cs l ≡ ok l') × Stands l' capacity (expect_all cs (n, es))
  perform_all_lem [] l capacity n es s small fits = (l, refl, s)
  perform_all_lem (c ∷ cs) l capacity n es s small (fits, rest) =
      let (l₁, run, s₁) = perform_lem c l capacity n es s small fits in
      let (l₂, run', s₂) = perform_all_lem cs l₁ capacity _ _ s₁ small rest in (l₂, rw run run', s₂)

  -- From a new map, every sequence of calls, in which `Resize` does not go over the first bound, ends
  -- without a panic, in a state that stands for what the calls do to a list of entries, and holds at
  -- most as many entries as its bound.
  pub perform_all-refines :
      (cs : List (Call K V)) (max_size ttl : Int64) (on_eviction : Bool)
      → bound_of max_size < 2 ^ 31
      → AllFit (bound_of max_size) cs
      → (l : Lru xsync V) × (perform_all cs (new_lru_with_config max_size ttl on_eviction) ≡ ok l)
        × Models l (expect_all cs (bound_of max_size, [])).1
        × (l.max_size ≡ (expect_all cs (bound_of max_size, [])).0)
        × (length (expect_all cs (bound_of max_size, [])).1
            ≤ (expect_all cs (bound_of max_size, [])).0)
        × (len l ≡ length (expect_all cs (bound_of max_size, [])).1)
  perform_all-refines cs max_size ttl on_eviction small fits =
      let new : Lru xsync V = new_lru_with_config max_size ttl on_eviction in
      let (empty, _, _) =
        new_lru_with_config-Models {V = V} {xsync = xsync} max_size ttl on_eviction small in
      let s : Stands new (bound_of max_size) (bound_of max_size, []) =
        unfold new_lru_with_config in
        record { models = empty; bound = refl; capacity_is = refl; within = omega arith } in
      let (l, run, s') =
        perform_all_lem cs new (bound_of max_size) (bound_of max_size) [] s small fits in
      (
        l,
        run,
        s'.models,
        s'.bound,
        omega (arith, s'.models.bounded, s'.bound),
        len-Models l _ s'.models,
      )
