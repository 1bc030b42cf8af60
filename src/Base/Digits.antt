-- ===== src/Base/Digits.antt =====
-- The bit operations one binary digit at a time.
use Prim.Native.Nat.{
  ℕ, zero, suc, ◌+◌, ◌*◌, ◌/◌, ◌%◌, ◌≤◌, min, max, bit_and, bit_or, bit_xor, differ, digits,
  bitwise, bit_and-bitwise, bit_or-bitwise, bit_xor-bitwise,
}
use mathlib.Core.Path.{◌≡◌, refl}
use native.Mathlib.Nat.{le_refl}
use native.Mathlib.Omega.{arith}

-- Induction from half of a number to the number.
module _ {ℓ} (P : ℕ → Type ℓ) (base : P 0) (double : (a : ℕ) → P (suc a / 2) → P (suc a)) where
  halving_to : (bound a : ℕ) → a ≤ bound → P a
  halving_to bound zero h = base
  halving_to zero (suc a) h = absurd (omega arith)
  halving_to (suc bound) (suc a) h = double a (halving_to bound (suc a / 2) (omega arith))

  pub halving : (a : ℕ) → P a
  halving a = halving_to a a (le_refl a)

module _ (rest : ℕ → ℕ) (digit : ℕ → ℕ → ℕ) where
  abbrev IsEnough : ℕ → Type 0
  IsEnough a = (fuel b : ℕ) → a ≤ fuel → digits rest digit fuel a b ≡ bitwise rest digit a b

  zero-IsEnough : IsEnough 0
  zero-IsEnough zero b h = refl
  zero-IsEnough (suc fuel) b h = refl

  double-IsEnough : (a : ℕ) → IsEnough (suc a / 2) → IsEnough (suc a)
  double-IsEnough a half zero b h = absurd (omega arith)
  double-IsEnough a half (suc fuel) b h =
      rw (half fuel (b / 2) (omega arith), half a (b / 2) (omega arith))

  -- Fuel for the digits of the first number is enough.
  enough : (a fuel b : ℕ) → a ≤ fuel → digits rest digit fuel a b ≡ bitwise rest digit a b
  enough = halving IsEnough zero-IsEnough double-IsEnough

  -- The equation of the lowest digit, for an operation that has it at 0.
  bitwise_step :
      ((b : ℕ) → rest b ≡ rest (b / 2) * 2 + digit 0 (b % 2))
      → (a b : ℕ)
      → bitwise rest digit a b ≡ bitwise rest digit (a / 2) (b / 2) * 2 + digit (a % 2) (b % 2)
  bitwise_step h zero b = h b
  bitwise_step h (suc a) b = rw (enough (suc a / 2) a (b / 2) (omega arith))

pub bit_and_step : (a b : ℕ) → bit_and a b ≡ bit_and (a / 2) (b / 2) * 2 + min (a % 2) (b % 2)
bit_and_step a b = simp bit_and-bitwise (bitwise_step (λ y. 0) min (λ y. omega arith) a b)

pub bit_or_step : (a b : ℕ) → bit_or a b ≡ bit_or (a / 2) (b / 2) * 2 + max (a % 2) (b % 2)
bit_or_step a b = simp bit_or-bitwise (bitwise_step (λ y. y) max (λ y. omega arith) a b)

pub bit_xor_step : (a b : ℕ) → bit_xor a b ≡ bit_xor (a / 2) (b / 2) * 2 + differ (a % 2) (b % 2)
bit_xor_step a b = simp bit_xor-bitwise (bitwise_step (λ y. y) differ (λ y. omega arith) a b)

pub zero-bit_and : (b : ℕ) → bit_and 0 b ≡ 0
zero-bit_and b = bit_and-bitwise 0 b

pub zero-bit_or : (b : ℕ) → bit_or 0 b ≡ b
zero-bit_or b = bit_or-bitwise 0 b

pub bit_and-zero : (a : ℕ) → bit_and a 0 ≡ 0
bit_and-zero =
    halving (λ a. bit_and a 0 ≡ 0) refl (λ a half. omega (arith, bit_and_step (suc a) 0, half))

pub bit_or-zero : (a : ℕ) → bit_or a 0 ≡ a
bit_or-zero =
    halving (λ a. bit_or a 0 ≡ a) refl (λ a half. omega (arith, bit_or_step (suc a) 0, half))

differ-zero : (x : ℕ) → differ x 0 ≡ x
differ-zero zero = refl
differ-zero (suc x) = refl

pub bit_xor-zero : (a : ℕ) → bit_xor a 0 ≡ a
bit_xor-zero =
    halving (λ a. bit_xor a 0 ≡ a) refl
      (λ a half. omega (arith, bit_xor_step (suc a) 0, half, differ-zero (suc a % 2)))
