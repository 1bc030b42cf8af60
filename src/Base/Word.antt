-- ===== src/Base/Word.antt =====
-- Machine words: a `uint32_t` or `uint64_t` is a native number below 2 ^ 32 or 2 ^ 64, and an
-- `int32_t` is an integer, with the bit pattern that stands for it.
use package.virtual_silicon_validati.Base.Tests.{ltb, if◌then◌else◌}
use package.virtual_silicon_validati.Base.Int.{ℤ, pos, negsuc, ◌≤ℤ◌}
use Prim.Native.Nat.{ℕ, ◌-◌, ◌%◌, ◌^◌, ◌<◌}
use mathlib.Core.Path.{◌≡◌}
use native.Mathlib.Omega.{arith}

abbrev pub u32 : ℕ → ℕ
u32 n = n % 2 ^ 32

abbrev pub u64 : ℕ → ℕ
u64 n = n % 2 ^ 64

-- `~x` of a 64-bit operand.
abbrev pub not64 : ℕ → ℕ
not64 x = 2 ^ 64 - 1 - u64 x

-- `0U - x` at 64 bits.
abbrev pub neg64 : ℕ → ℕ
neg64 x = u64 (2 ^ 64 - u64 x)

-- The integer that a 32-bit pattern stands for.
abbrev pub to_i32 : ℕ → ℤ
to_i32 w = if ltb w (2 ^ 31) then pos w else negsuc (2 ^ 32 - 1 - w)

-- The pattern of an integer at 32 and at 64 bits (the conversion to an unsigned type).
abbrev pub of_i32 : ℤ → ℕ
of_i32 (pos n) = n % 2 ^ 32
of_i32 (negsuc n) = 2 ^ 32 - 1 - n % 2 ^ 32

abbrev pub of_i64 : ℤ → ℕ
of_i64 (pos n) = n % 2 ^ 64
of_i64 (negsuc n) = 2 ^ 64 - 1 - n % 2 ^ 64

-- The result of an `int32_t` operation, which wraps.
unfoldable pub wrap_i32 : ℤ → ℤ
wrap_i32 z = to_i32 (of_i32 z)

-- `z` is a value of `int32_t`.
abbrev pub IsI32 : ℤ → Type 0
IsI32 z = (negsuc (2 ^ 31 - 1) ≤ℤ z) × (z ≤ℤ pos (2 ^ 31 - 1))

pub to_i32-IsI32 : (w : ℕ) → w < 2 ^ 32 → IsI32 (to_i32 w)
to_i32-IsI32 w h = ground arith

pub wrap_i32_of_IsI32 : (z : ℤ) → IsI32 z → wrap_i32 z ≡ z
unfolding wrap_i32
wrap_i32_of_IsI32 (pos n) h = ground arith
wrap_i32_of_IsI32 (negsuc n) h = ground arith

pub of_i32-lt : (z : ℤ) → of_i32 z < 2 ^ 32
of_i32-lt (pos n) = omega arith
of_i32-lt (negsuc n) = omega arith

-- Truncating the sign-extended 64-bit pattern gives the 32-bit one.
pub u32-of_i64 : (z : ℤ) → u32 (of_i64 z) ≡ of_i32 z
u32-of_i64 (pos n) = omega arith
u32-of_i64 (negsuc n) = omega arith

pub to_i32-of_i32 : (z : ℤ) → IsI32 z → to_i32 (of_i32 z) ≡ z
to_i32-of_i32 (pos n) h = ground arith
to_i32-of_i32 (negsuc n) h = ground arith
