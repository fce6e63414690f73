-- ===== src/BytesPool/Kept.antt =====
-- What the pool of pool.go holds after calls of `Get` and `Put`, and what `Get` gives.
use mappo.Prelude.{
  ℕ, zero, suc, ◌^◌, ◌≤◌, ◌<◌, ◌≡◌, refl, ap, sym, ◌∙◌, some, List, [], ◌∷◌, true, false, arith,
  replicate, length-replicate, Bool-cases, Option-cases, inl, inr,
}
use mathlib.Core.Option.{some-injective, none-ne-some}
use mathlib.Core.Path.{subst}
use mappo.BytesPool
use mappo.BytesPool.{
  Buffer, BytesPool, BytesPoolOptions, capacity, cap_limit, is_wrong_size,
  new_bytes_pool_with_options,
}
use mappo.Run.{ok, panic, ok-injective}
use mappo.SyncPool
use mappo.SyncPool.{SyncPool, take_out}
use mappo.Time.{is_positive, signed_gt}

-- One call of `Get` or `Put`.
pub data Step (p : BytesPool) : BytesPool → Type 0 where
  get : (choice : ℕ) → Step p (BytesPool.get choice p).1
  put : (buf : Buffer) → capacity buf < 2 ^ 63 → Step p (BytesPool.put buf p)

-- The pools that calls lead to from a new one.
pub data Reach (opt : BytesPoolOptions) : BytesPool → Type 0 where
  new : (p : BytesPool) → new_bytes_pool_with_options opt ≡ ok p → Reach opt p
  next : {p q : BytesPool} → Reach opt p → Step p q → Reach opt q

-- A capacity from `low` to `high`.
pub record Fits (low high : ℕ) (buf : Buffer) : Type 0 where
  pub enough : low ≤ capacity buf
  pub limited : capacity buf ≤ high

abbrev pub AllFit : ℕ → ℕ → List Buffer → Type 0
AllFit low high [] = Unit {0}
AllFit low high (b ∷ bs) = Fits low high b × AllFit low high bs

-- The pool holds buffers that fit, and `New` makes such.
pub record Holds (opt : BytesPoolOptions) (p : BytesPool) : Type 0 where
  pub positive : is_positive opt.size ≡ true
  pub size : p.size ≡ opt.size
  pub max_cap : p.max_cap ≡ cap_limit opt
  pub fresh : Buffer
  pub makes : p.pool.new ≡ some fresh
  pub fresh-Fits : Fits opt.size (cap_limit opt) fresh
  pub items : AllFit opt.size (cap_limit opt) p.pool.items

AllFit-take_out :
    (low high n : ℕ) (l : List Buffer) (r : Buffer × List Buffer)
    → AllFit low high l
    → take_out n l ≡ some r
    → Fits low high r.0 × AllFit low high r.1
unfolding take_out
AllFit-take_out low high n [] r h e = cc
AllFit-take_out low high zero (b ∷ l) r (fits, rest) e =
    subst (λ q. Fits low high q.0 × AllFit low high q.1) (some-injective _ _ e) (fits, rest)
AllFit-take_out low high (suc n) (b ∷ l) r (fits, rest) e = elim (Option-cases (take_out n l)) [
  | inl stuck ↦ absurd (none-ne-some r (rw stuck at e))
  | inr (q, found) ↦
      let (taken, left) = AllFit-take_out low high n l q rest found in
      subst (λ q. Fits low high q.0 × AllFit low high q.1) (some-injective _ _ (rw found at e))
        (taken, (fits, left))
]

-- What the size check lets through fits.
accepted-Fits :
    (opt : BytesPoolOptions) (c : ℕ)
    → is_positive opt.size ≡ true
    → opt.max_cap < 2 ^ 64
    → c < 2 ^ 63
    → is_wrong_size opt.size (cap_limit opt) c ≡ false
    → (opt.size ≤ c) × (c ≤ cap_limit opt)
unfolding is_wrong_size cap_limit is_positive signed_gt
accepted-Fits opt c positive word small e = ground arith

limit_above :
    (opt : BytesPoolOptions)
    → is_positive opt.size ≡ true
    → opt.max_cap < 2 ^ 64
    → opt.size ≤ cap_limit opt
unfolding cap_limit is_positive signed_gt
limit_above opt positive word = ground arith

new-Holds :
    (opt : BytesPoolOptions) (p : BytesPool)
    → opt.max_cap < 2 ^ 64
    → new_bytes_pool_with_options opt ≡ ok p
    → Holds opt p
unfolding new_bytes_pool_with_options capacity
new-Holds opt p word e = elim (Bool-cases (is_positive opt.size)) [
  | inr bad ↦ absurd (let stuck : panic ≡ ok p = rw bad at e in cc)
  | inl positive ↦
      let fresh : Buffer = record { bytes = replicate opt.size 0; len = opt.size } in
      let size = length-replicate {A = ℕ} opt.size 0 in
      subst (Holds opt) (ok-injective _ p (rw positive at e)) (record {
        positive = positive;
        size = refl;
        max_cap = refl;
        fresh = fresh;
        makes = refl;
        fresh-Fits = record {
          enough = omega (arith, size);
          limited = omega (arith, size, limit_above opt positive word);
        };
        items = tt;
      })
]

-- The pool hands out a buffer that fits, and keeps the others.
SyncPool_get-Fits :
    (low high choice : ℕ) (pool : SyncPool Buffer) (fresh : Buffer)
    → pool.new ≡ some fresh
    → Fits low high fresh
    → AllFit low high pool.items
    → (buf : Buffer) × ((SyncPool.get choice pool).0 ≡ some buf)
      × Fits low high buf
      × ((SyncPool.get choice pool).1.new ≡ some fresh)
      × AllFit low high (SyncPool.get choice pool).1.items
unfolding SyncPool.get
SyncPool_get-Fits low high choice pool fresh makes fits items =
    elim (Option-cases (take_out choice pool.items)) [
      | inl stuck ↦ rw (SyncPool.get, stuck) (fresh, makes, fits, makes, items)
      | inr (r, found) ↦
          let (taken, left) = AllFit-take_out low high choice pool.items r items found in
          rw (SyncPool.get, found) (r.0, refl, taken, makes, left)
    ]

pub get-Holds :
    (opt : BytesPoolOptions) (choice : ℕ) (p : BytesPool)
    → Holds opt p
    → Fits opt.size (cap_limit opt) (BytesPool.get choice p).0
      × ((BytesPool.get choice p).0.len ≡ 0)
      × Holds opt (BytesPool.get choice p).1
unfolding BytesPool.get capacity
get-Holds opt choice p h =
    let (buf, got, fits, makes, items) =
      SyncPool_get-Fits _ _ choice p.pool h.fresh h.makes h.fresh-Fits h.items in
    rw (BytesPool.get, got)
      (
        record { enough = fits.enough; limited = fits.limited },
        refl,
        record {
          positive = h.positive;
          size = h.size;
          max_cap = h.max_cap;
          fresh = h.fresh;
          makes = makes;
          fresh-Fits = h.fresh-Fits;
          items = items;
        },
      )

put-Holds :
    (opt : BytesPoolOptions) (buf : Buffer) (p : BytesPool)
    → opt.max_cap < 2 ^ 64
    → capacity buf < 2 ^ 63
    → Holds opt p
    → Holds opt (BytesPool.put buf p)
unfolding BytesPool.put SyncPool.put capacity
put-Holds opt buf p word small h =
    elim (Bool-cases (is_wrong_size p.size p.max_cap (capacity buf))) [
      | inl wrong ↦
          rw (BytesPool.put, wrong)
            (record {
              positive = h.positive;
              size = h.size;
              max_cap = h.max_cap;
              fresh = h.fresh;
              makes = h.makes;
              fresh-Fits = h.fresh-Fits;
              items = h.items;
            })
      | inr right ↦
          let checked : is_wrong_size opt.size (cap_limit opt) (capacity buf) ≡ false =
            ap (λ s. is_wrong_size s (cap_limit opt) (capacity buf)) (sym h.size)
            ∙ ap (λ m. is_wrong_size p.size m (capacity buf)) (sym h.max_cap)
            ∙ right in
          let (enough, limited) = accepted-Fits opt (capacity buf) h.positive word small checked in
          rw (BytesPool.put, right)
            (record {
              positive = h.positive;
              size = h.size;
              max_cap = h.max_cap;
              fresh = h.fresh;
              makes = h.makes;
              fresh-Fits = h.fresh-Fits;
              items = (record { enough = enough; limited = limited }, h.items);
            })
    ]

Reach-Holds :
    (opt : BytesPoolOptions) (p : BytesPool) → opt.max_cap < 2 ^ 64 → Reach opt p → Holds opt p
Reach-Holds opt p word (new p' made) = new-Holds opt p' word made
Reach-Holds opt p word (next {p = r} {q = q} reached step) =
    one r q (Reach-Holds opt r word reached) step
  where
    one : (q p : BytesPool) → Holds opt q → Step q p → Holds opt p
    one q p h (get choice) = let (_, _, kept) = get-Holds opt choice q h in kept
    one q p h (put buf small) = put-Holds opt buf q word small h

-- After calls of `Get` and `Put`, `Get` gives an empty slice whose capacity is in the limits.
pub get-Fits :
    (opt : BytesPoolOptions) (p : BytesPool) (choice : ℕ)
    → opt.max_cap < 2 ^ 64
    → Reach opt p
    → Fits opt.size (cap_limit opt) (BytesPool.get choice p).0
      × ((BytesPool.get choice p).0.len ≡ 0)
get-Fits opt p choice word reached =
    let (fits, empty, _) = get-Holds opt choice p (Reach-Holds opt p word reached) in (fits, empty)
