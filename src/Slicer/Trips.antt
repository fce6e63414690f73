-- ===== src/Slicer/Trips.antt =====
-- From the constructor of slicer.go through calls of `Append` to what `Get` reads.
use mappo.Prelude.{
  ℕ, suc, ◌+◌, ◌-◌, ◌^◌, ◌≤◌, ◌<◌, ◌≡◌, refl, ap, sym, ◌∙◌, none, List, [], ◌∷◌, ◌++◌, arith,
  if◌then◌else◌, length, get_elem?, replicate, length-append, length-replicate, get_elem?-replicate,
  lt_of_get_elem?,
}
use mathlib.Core.List.Perm
use mathlib.Core.List.{Perm, append_assoc, append-nil}
use mathlib.Core.Option.{some-injective}
use mathlib.Core.Path.{subst}
use mappo.Run.{Run, ok, ◌>>=◌}
use mappo.Slicer.{Stripe, Slicer, SlicerConfig, clamp, new_chunk, append, get, len}
use mappo.Slicer.Columns.{columns_empty}
use mappo.Slicer.Filled.{Filled}
use mappo.Slicer.Layout.{Spread, append-Spread, get-Spread}
use mappo.Slicer.Whole.{stripe_count, new_slicer_with_config}
use mappo.Time.{Int64, is_positive}

module _ {T : Type 0} where
  new_Stripe : (n : ℕ) → Filled n (record { chunks = new_chunk {T = T} n ∷ []; tail = 0 }) []
  unfolding new_chunk clamp
  new_Stripe n = record {
    front = [];
    last = new_chunk n;
    xs = [];
    ys = [];
    chunks = refl;
    tail = refl;
    values = refl;
    before = refl;
    at_tail = record {
      room = length-replicate n none;
      counts = ground arith;
      small = omega arith;
      slots = λ i q. get_elem?-replicate n i none q;
    };
    bounded = omega arith;
  }

  -- A new slicer is an empty list.
  pub new_slicer-Spread :
      (cpus : Int64) (config : SlicerConfig) (k : ℕ)
      → stripe_count cpus config.shard_count ≡ 2 ^ k
      → k ≤ 64
      → config.chunk_size + 1 < 2 ^ 32
      → Spread (new_slicer_with_config {T = T} cpus config) []
  unfolding new_slicer_with_config is_positive
  new_slicer-Spread cpus config k e few small =
      let size = if is_positive config.chunk_size then config.chunk_size else 1024 in
      let n = stripe_count cpus config.shard_count in
      let fresh : Stripe T = record { chunks = new_chunk size ∷ []; tail = 0 } in
      record {
        bits = k;
        few = few;
        stripes = length-replicate n fresh ∙ e;
        mask = ap (λ x. x - 1) e;
        room = ground arith;
        fits = ground arith;
        counted = refl;
        column = λ c. [];
        filled = λ j st found.
            let same : fresh ≡ st = some-injective _ _ (
              sym (
                get_elem?-replicate n j fresh (
                  subst (λ l. j < l) (length-replicate n fresh)
                    (lt_of_get_elem? (replicate n fresh) j st found)))
              ∙ found) in
            subst (λ s. Filled size s []) same (new_Stripe size);
        placed = λ j r low. refl;
        whole = subst (λ l. Perm l []) (sym (columns_empty (2 ^ k) (λ c. []) (λ c. refl))) Perm.nil;
      }

  -- Calls of `Append`, one for each value, with the indices that they return.
  unfoldable pub append_all : List T → Slicer T → Run (List ℕ × Slicer T)
  append_all [] s = ok ([], s)
  append_all (v ∷ vs) s = do r ← append v s; rest ← append_all vs r.1; ok (r.0 ∷ rest.0, rest.1)

  -- The indices from `n` on, one for each value.
  unfoldable pub indices_from : ℕ → List T → List ℕ
  indices_from n [] = []
  indices_from n (v ∷ vs) = n ∷ indices_from (suc n) vs

  pub append_all-Spread :
      (vs : List T) (s : Slicer T) (us : List T)
      → Spread s us
      → length us + length vs < 2 ^ 64
      → (s' : Slicer T) × (append_all vs s ≡ ok (indices_from (length us) vs, s'))
        × Spread s' (us ++ vs)
  unfolding append_all indices_from
  append_all-Spread [] s us m small = (s, refl, subst (Spread s) (sym (append-nil us)) m)
  append_all-Spread (v ∷ vs) s us m small =
      let (s₁, run, m₁) = append-Spread v s us m (omega arith) in
      let longer : length (us ++ v ∷ []) ≡ suc (length us) =
        omega (arith, length-append us (v ∷ [])) in
      let (s₂, rest, m₂) = append_all-Spread vs s₁ (us ++ v ∷ []) m₁ (omega (arith, longer)) in
      (
        s₂,
        rw (append_all, run, rest) (ap (λ n. ok (length us ∷ indices_from n vs, s₂)) longer),
        subst (Spread s₂) (append_assoc us (v ∷ []) vs) m₂,
      )

  -- What goes into a new slicer comes out of it.
  pub get-append_all :
      (cpus : Int64) (config : SlicerConfig) (k : ℕ) (vs : List T)
      → stripe_count cpus config.shard_count ≡ 2 ^ k
      → k ≤ 64
      → config.chunk_size + 1 < 2 ^ 32
      → length vs < 2 ^ 64
      → (s : Slicer T) × (append_all vs (new_slicer_with_config cpus config)
          ≡ ok (indices_from 0 vs, s))
        × (len s ≡ length vs)
        × ((i : ℕ) → get i s ≡ ok (get_elem? vs i))
  unfolding len
  get-append_all cpus config k vs e few small short =
      let (s, run, m) =
        append_all-Spread vs (new_slicer_with_config cpus config) []
          (new_slicer-Spread cpus config k e few small) (omega (arith, short)) in
      (s, run, m.counted, λ i. get-Spread i s vs m)
