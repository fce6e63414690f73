-- ===== src/Sharded/Bits.antt =====
-- The number of shards and the mask of sharded.go.
use mappo.Prelude.{
  ℕ, zero, suc, ◌+◌, ◌*◌, ◌-◌, ◌/◌, ◌%◌, ◌^◌, ◌≤◌, ◌<◌, ◌≡◌, refl, true, arith, if◌then◌else◌, ◌⊎◌,
  Bool-cases, inl, inr, ap, ◌∙◌, ltb,
}
use mappo.Sharded.{bit_length, shard_count}
use mappo.Time.{Int64, is_positive, signed_gt}

bit_length-zero : (w : ℕ) → bit_length w 0 ≡ 0
unfolding bit_length
bit_length-zero zero = refl
bit_length-zero (suc w) = refl

bit_length_step : (w x : ℕ) → 0 < x → bit_length (suc w) x ≡ suc (bit_length w (x / 2))
unfolding bit_length
bit_length_step w x h = ground arith

bit_length_base : (x : ℕ) → bit_length 0 x ≡ 0
unfolding bit_length
bit_length_base x = refl

doubled :
    (x p : ℕ) → (0 < suc x / 2 → p ≤ 2 * (suc x / 2)) → (suc x / 2 ≡ 0 → p ≡ 1) → 2 * p ≤ 2 * suc x
doubled x p h z = ground (arith, h, z)

-- `bits.Len64` gives as many bits as are needed, and no more.
bit_length-bounds :
    (w x : ℕ)
    → x < 2 ^ w
    → (x < 2 ^ bit_length w x) × ((0 < x) → 2 ^ bit_length w x ≤ 2 * x) × (bit_length w x ≤ w)
bit_length-bounds zero x h =
    (rw (bit_length_base x) h, λ q. absurd (omega arith), omega (arith, bit_length_base x))
bit_length-bounds (suc w) zero h = (
  rw (bit_length-zero (suc w)) (omega arith),
  λ q. absurd (omega arith),
  omega (arith, bit_length-zero (suc w)),
)
bit_length-bounds (suc w) (suc x) h =
    let (above, below, small) = bit_length-bounds w (suc x / 2) (omega arith) in
    let step = bit_length_step w (suc x) (omega arith) in
    (
      rw step (omega (arith, above)),
      λ q. rw step (
          omega (
            arith,
            doubled x (2 ^ bit_length w (suc x / 2)) below
                (λ e. ap (λ y. 2 ^ bit_length w y) e ∙ ap (λ n. 2 ^ n) (bit_length-zero w)),
          )),
      omega (arith, small, step),
    )

rounded_up :
    (n p : ℕ)
    → n < 2 ^ 62 + 1
    → n - 1 < p
    → (0 < n - 1 → p ≤ 2 * (n - 1))
    → (n - 1 ≡ 0 → p ≡ 1)
    → 0 < n
    → (if signed_gt 2 (p % 2 ^ 64) then 2 else p % 2 ^ 64) ≡ (if ltb p 2 then 2 else p)
unfolding signed_gt
rounded_up n p h a b z q = ground (arith, a, b, z)

shard_count_asked :
    (cpus configured : Int64) (asked : ℕ)
    → (if is_positive configured then configured else cpus) ≡ asked
    → 0 < asked
    → asked < 2 ^ 63
    → shard_count cpus configured ≡ (
        if signed_gt 2 (2 ^ bit_length 64 (asked - 1) % 2 ^ 64)
        then 2
        else 2 ^ bit_length 64 (asked - 1) % 2 ^ 64)
unfolding shard_count
shard_count_asked cpus configured asked e p q =
    let positive : is_positive asked ≡ true = ground (arith, p, q) in rw (e, positive) refl

one_of_power : (b : ℕ) → 2 ≤ 2 ^ b → 1 ≤ b
one_of_power zero h = absurd (omega arith)
one_of_power (suc b) h = omega arith

-- For up to 2 ^ 62 shards that are asked for, `NewShardedWithConfig` makes a power of two, at least
-- two and no fewer than asked for: two if one is asked for, and otherwise fewer than twice as many.
-- It asks for as many as `runtime.NumCPU` tells, if the
-- configured number is not positive.
pub shard_count-power :
    (cpus configured : Int64) (asked : ℕ)
    → (if is_positive configured then configured else cpus) ≡ asked
    → 0 < asked
    → asked ≤ 2 ^ 62
    → (j : ℕ) × (shard_count cpus configured ≡ 2 ^ j)
      × (1 ≤ j)
      × (asked ≤ 2 ^ j)
      × (2 ^ j ≤ 2 * asked)
      × (((asked ≡ 1) × (j ≡ 1)) ⊎ (2 ^ j < 2 * asked))
shard_count-power cpus configured asked e p q =
    let b = bit_length 64 (asked - 1) in
    let (above, below, _) = bit_length-bounds 64 (asked - 1) (omega arith) in
    let one : asked - 1 ≡ 0 → 2 ^ b ≡ 1 =
      λ z. ap (λ x. 2 ^ bit_length 64 x) z ∙ ap (λ n. 2 ^ n) (bit_length-zero 64) in
    let run =
      shard_count_asked cpus configured asked e p (omega arith)
      ∙ rounded_up asked (2 ^ b) (omega arith) above below one p in
    elim (Bool-cases (ltb (2 ^ b) 2)) [
      | inl few ↦
          let alone : asked ≡ 1 = ground (arith, few, above, p) in
          (1, rw few at run, omega arith, omega (arith, alone), omega arith, inl (alone, refl))
      | inr many ↦ (
        b,
        rw many at run,
        one_of_power b (ground (arith, many)),
        omega (arith, above),
        ground (arith, below, one, p),
        inr (ground (arith, below, one, p, many)),
      )
    ]
