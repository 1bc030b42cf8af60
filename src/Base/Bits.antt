-- ===== src/Base/Bits.antt =====
-- The bit operations at the masks and words of this program.
use Prim.Native.Nat.{
  ℕ, zero, suc, ◌+◌, ◌-◌, ◌*◌, ◌/◌, ◌%◌, ◌^◌, ◌<◌, min, bit_and, bit_or, bit_xor, differ,
}
use mathlib.Core.Path.{◌≡◌, refl, ap}
use mathlib.Core.Bool.{Bool, true, ◌&&◌}
use native.Mathlib.Nat.{pow-suc, one-le-pow}
use native.Mathlib.Omega.{arith}
use virtual_silicon_validati.Base.Digits.{
  bit_and_step, bit_or_step, bit_xor_step, bit_and-zero, bit_or-zero, bit_xor-zero, zero-bit_and,
  zero-bit_or,
}

-- `x ^ 1` flips the lowest digit.
pub bit_xor-one : (a : ℕ) → bit_xor a 1 ≡ a / 2 * 2 + (1 - a % 2)
bit_xor-one a =
    omega (arith, bit_xor_step a 1, bit_xor-zero (a / 2), differ-one (a % 2) (omega arith))
  where
    differ-one : (x : ℕ) → x < 2 → differ x 1 ≡ 1 - x
    differ-one zero h = refl
    differ-one (suc zero) h = refl
    differ-one (suc (suc x)) h = absurd (omega arith)

pub bit_and-one : (a : ℕ) → bit_and a 1 ≡ a % 2
bit_and-one a = omega (arith, bit_and_step a 1, bit_and-zero (a / 2))

pub bit_and-two : (a : ℕ) → bit_and a 2 ≡ a / 2 % 2 * 2
bit_and-two a = omega (arith, bit_and_step a 2, bit_and-one (a / 2))

pub bit_and-four : (a : ℕ) → bit_and a 4 ≡ a / 4 % 2 * 4
bit_and-four a = omega (arith, bit_and_step a 4, bit_and-two (a / 2))

pub bit_and-eight : (a : ℕ) → bit_and a 8 ≡ a / 8 % 2 * 8
bit_and-eight a = omega (arith, bit_and_step a 8, bit_and-four (a / 2))

pub bit_and_top : (a : ℕ) → bit_and a 0x80 ≡ a / 0x80 % 2 * 0x80
bit_and_top a = omega (
  arith,
  bit_and_step a 0x80,
  bit_and_step (a / 2) 0x40,
  bit_and_step (a / 2 / 2) 0x20,
  bit_and_step (a / 2 / 2 / 2) 0x10,
  bit_and-eight (a / 2 / 2 / 2 / 2),
)

pub bit_and-three : (a : ℕ) → bit_and a 3 ≡ a % 4
bit_and-three a = omega (arith, bit_and_step a 3, bit_and-one (a / 2))

pub bit_and_nibble : (a : ℕ) → bit_and a 0xF ≡ a % 16
bit_and_nibble a =
    omega (arith, bit_and_step a 0xF, bit_and_step (a / 2) 7, bit_and-three (a / 2 / 2))

pub bit_and_byte : (a : ℕ) → bit_and a 0xFF ≡ a % 256
bit_and_byte a = omega (
  arith,
  bit_and_step a 0xFF,
  bit_and_step (a / 2) 0x7F,
  bit_and_step (a / 2 / 2) 0x3F,
  bit_and_step (a / 2 / 2 / 2) 0x1F,
  bit_and_nibble (a / 2 / 2 / 2 / 2),
)

-- A number of two digits against any mask.
pub bit_and_two_digits :
    (a b : ℕ) → a < 4 → bit_and a b ≡ min (a / 2) (b / 2 % 2) * 2 + min (a % 2) (b % 2)
bit_and_two_digits a b h = omega (
  arith,
  bit_and_step a b,
  bit_and_step (a / 2) (b / 2),
  zero-bit_and (b / 2 / 2),
  zero_of_small (a / 2 / 2) (omega arith),
)
  where
    zero_of_small : (x : ℕ) → x < 1 → bit_and x (b / 2 / 2) ≡ 0
    zero_of_small zero p = zero-bit_and _
    zero_of_small (suc x) p = absurd (omega arith)

pub bit_or-two : (a : ℕ) → a < 4 → bit_or a 2 ≡ 2 + a % 2
bit_or-two a h =
    omega (arith, bit_or_step a 2, bit_or_step (a / 2) 1, bit_or-zero (a / 2 / 2), zero-bit_or 0)

-- A Boolean property of every number below a bound, by evaluation.
unfoldable pub every : (ℕ → Bool) → ℕ → Bool
every test zero = true
every test (suc bound) = every test bound && test bound

pub every_lem :
    (test : ℕ → Bool) (bound x : ℕ) → every test bound ≡ true → x < bound → test x ≡ true
unfolding every
every_lem test zero x all h = absurd (omega arith)
every_lem test (suc bound) x all h = ground (arith, every_lem test bound x)

ones_halved : (k : ℕ) → (2 ^ suc k - 1) / 2 ≡ 2 ^ k - 1
ones_halved k = omega (arith, pow-suc 2 k, one-le-pow k 2)

ones_odd : (k : ℕ) → (2 ^ suc k - 1) % 2 ≡ 1
ones_odd k = omega (arith, pow-suc 2 k, one-le-pow k 2)

bit_and_ones :
    (k a : ℕ) → bit_and a (2 ^ suc k - 1) ≡ bit_and (a / 2) (2 ^ k - 1) * 2 + min (a % 2) 1
bit_and_ones k a = subst2 (ones_halved k) (ones_odd k) (bit_and_step a (2 ^ suc k - 1))
  where
    subst2 :
        {x y : ℕ}
        → (2 ^ suc k - 1) / 2 ≡ x
        → (2 ^ suc k - 1) % 2 ≡ y
        → bit_and a (2 ^ suc k - 1)
          ≡ bit_and (a / 2) ((2 ^ suc k - 1) / 2) * 2 + min (a % 2) ((2 ^ suc k - 1) % 2)
        → bit_and a (2 ^ suc k - 1) ≡ bit_and (a / 2) x * 2 + min (a % 2) y
    subst2 p q e = rw (← p, ← q) e

-- A number that a mask of `k` ones takes to 0, and that fits `k` digits, is 0.
pub bit_and_ones_zero : (k a : ℕ) → a < 2 ^ k → bit_and a (2 ^ k - 1) ≡ 0 → a ≡ 0
bit_and_ones_zero zero a h e = omega arith
bit_and_ones_zero (suc k) a h e = omega (
  arith,
  bit_and_ones k a,
  bit_and_ones_zero k (a / 2) (omega (arith, pow-suc 2 k)) (omega (arith, bit_and_ones k a)),
)

double : (q k : ℕ) → q * 2 ^ suc k ≡ q * 2 ^ k * 2
double q k = omega (arith, ap (λ (t : ℕ). q * t) (pow-suc 2 k))

-- A number below `2 ^ k` joined with a multiple of `2 ^ k` is their sum.
pub bit_or_high : (k r q : ℕ) → r < 2 ^ k → bit_or r (q * 2 ^ k) ≡ r + q * 2 ^ k
bit_or_high zero zero q h = omega (arith, zero-bit_or (q * 2 ^ 0))
bit_or_high zero (suc r) q h = absurd (omega arith)
bit_or_high (suc k) r q h =
    let e = double q k in
    let half : q * 2 ^ suc k / 2 ≡ q * 2 ^ k = omega arith in
    let even : q * 2 ^ suc k % 2 ≡ 0 = omega arith in
    let below : r / 2 < 2 ^ k = omega (arith, pow-suc 2 k) in
    let step = bit_or_step r (q * 2 ^ suc k) in
    let halves : bit_or (r / 2) (q * 2 ^ suc k / 2) ≡ r / 2 + q * 2 ^ k =
      rw half (bit_or_high k (r / 2) q below) in
    omega (arith, step, halves, even, e)
