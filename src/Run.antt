-- ===== src/Run.antt =====
-- What a Go call comes to that may panic (a nil dereference, an index out of range, a comparison of
-- uncomparable values). A loop that is modelled on fuel may also run out of it.
use mappo.Prelude.{◌≡◌, refl, ap}

pub data Run {ℓ} (A : Type ℓ) : Type ℓ where
  ok : A → Run A
  panic : Run A
  out_of_fuel : Run A

infixl 5 ◌>>=◌
abbrev pub ◌>>=◌ {ℓ κ} : {A : Type ℓ} {B : Type κ} → Run A → (A → Run B) → Run B
ok a >>= f = f a
panic >>= f = panic
out_of_fuel >>= f = out_of_fuel

-- A chain that returned: its first part returned some `a`, and the rest returned from there.
module _ {ℓ κ} {A : Type ℓ} {B : Type κ} (rest : A → Run B) {b : B} where
  pub returned :
      (first : Run A) → (first >>= rest) ≡ ok b → (a : A) × (first ≡ ok a) × (rest a ≡ ok b)
  returned panic e = cc
  returned out_of_fuel e = cc
  returned (ok a) e = (a, refl, e)

module _ {ℓ} {A : Type ℓ} where
  abbrev pub result_or : A → Run A → A
  result_or a (ok b) = b
  result_or a panic = a
  result_or a out_of_fuel = a

  pub ok-injective : (a b : A) → ok a ≡ ok b → a ≡ b
  ok-injective a b e = ap (result_or a) e
