-- ===== src/Slicer/Rows.antt =====
-- The row and the column of an index of slicer.go: its quotient and remainder by the number of stripes.
use mappo.Prelude.{
  ℕ, zero, suc, ◌+◌, ◌-◌, ◌*◌, ◌/◌, ◌%◌, ◌^◌, ◌≤◌, ◌<◌, ◌≡◌, ◌≢◌, refl, ap, sym, ◌∙◌, arith, true,
  false, nat_beq, Bool-cases, inl, inr,
}
use Prim.Native.Nat.{min}
use native.Mathlib.Nat.{pow-suc, one-le-pow, div-add-mod', mod-lt, add-mul-div_right, div-eq_of_lt}
use mappo.Sharded.{and_bits}

and_bits_step :
    (w a b : ℕ) → and_bits (suc w) a b ≡ and_bits w (a / 2) (b / 2) * 2 + min (a % 2) (b % 2)
unfolding and_bits
and_bits_step w a b = refl

and_bits-zero : (w a : ℕ) → and_bits w a 0 ≡ 0
unfolding and_bits
and_bits-zero zero a = refl
and_bits-zero (suc w) a = omega (arith, and_bits-zero w (a / 2))

mul_two_pow : (q k : ℕ) → q * 2 ^ suc k ≡ 2 * (q * 2 ^ k)
mul_two_pow q k = omega (arith, ap (λ (t : ℕ). q * t) (pow-suc 2 k))

and_fields : (w k q r : ℕ) → k ≤ w → r < 2 ^ k → and_bits w (q * 2 ^ k + r) (2 ^ k - 1) ≡ r
and_fields w zero q r h fits = ground (arith, and_bits-zero w (q * 1 + r))
and_fields zero (suc k) q r h fits = absurd (omega arith)
and_fields (suc w) (suc k) q r h fits = ground (
  arith,
  and_bits_step w (q * 2 ^ suc k + r) (2 ^ suc k - 1),
  mul_two_pow q k,
  pow-suc 2 k,
  one-le-pow k 2,
  and_fields w k q (r / 2) (omega arith) (omega (arith, pow-suc 2 k)),
)

pub power-pos : (k : ℕ) → 0 < 2 ^ k
power-pos k = one-le-pow k 2 (omega arith)

-- The low bits of an index are the remainder.
pub and_mask : (k i : ℕ) → k ≤ 64 → and_bits 64 i (2 ^ k - 1) ≡ i % 2 ^ k
and_mask k i h =
    ap (λ (x : ℕ). and_bits 64 x (2 ^ k - 1)) (sym (div-add-mod' i (2 ^ k)))
    ∙ and_fields 64 k (i / 2 ^ k) (i % 2 ^ k) h (mod-lt i (power-pos k))

quotient : (size r j : ℕ) → j < size → (r * size + j) / size ≡ r
quotient size r j h =
    ap (λ (x : ℕ). x / size) (commute (r * size) j)
    ∙ add-mul-div_right j r (positive size j h)
    ∙ ap (λ (x : ℕ). x + r) (div-eq_of_lt h)
    ∙ zero_add r
  where
    commute : (a b : ℕ) → a + b ≡ b + a
    commute a b = omega arith

    positive : (a b : ℕ) → b < a → 0 < a
    positive a b h = omega arith

    zero_add : (a : ℕ) → 0 + a ≡ a
    zero_add a = omega arith

-- Where the values go is told apart by the row and the column.
pub same_place :
    (size r q j j' : ℕ) → j < size → j' < size → r * size + j ≡ q * size + j' → (r ≡ q) × (j ≡ j')
same_place size r q j j' h h' e =
    let same : r ≡ q =
      sym (quotient size r j h) ∙ ap (λ (x : ℕ). x / size) e ∙ quotient size q j' h' in
    (same, omega (arith, e, ap (λ (x : ℕ). x * size) same))

pub nat_beq_of_ne : (a b : ℕ) → a ≢ b → nat_beq a b ≡ false
nat_beq_of_ne a b h = elim (Bool-cases (nat_beq a b)) [
  | inl e ↦ absurd (h (ground (arith, e)))
  | inr e ↦ e
]

pub same_row : (q r : ℕ) → nat_beq q r ≡ true → q ≡ r
same_row q r e = ground (arith, e)
