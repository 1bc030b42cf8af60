-- ===== src/Hal/Types.antt =====
-- The types of vnpu-hal.hpp, its exceptions as values, and the validation that both devices share.
use Prim.Native.String.{String}
use virtual_silicon_validati.Base.{
  ℕ, not, ◌||◌, List, Option, none, some, ◌==◌, if◌then◌else◌, length,
}
use virtual_silicon_validati.Base.Int.{ℤ, pos, negsuc, ◌≤ℤ◌, ltb_ℤ}

pub record DeviceInfo : Type 0 where
  pub abi_version : ℕ
  pub device_id : ℕ
  pub revision : ℕ
  pub capabilities : ℕ

-- `status` is the number of the `driver_status`.
pub record DotProductResult : Type 0 where
  pub result : ℤ
  pub device_error : ℤ
  pub status : ℕ

pub data FaultType : Type 0 where
  no_fault irq_drop stuck_busy corrupt_result force_error : FaultType

-- The enumerators' values.
abbrev pub fault_bits : FaultType → ℕ
fault_bits no_fault = 0
fault_bits irq_drop = 1
fault_bits stuck_busy = 2
fault_bits corrupt_result = 4
fault_bits force_error = 8

pub record DeviceStats : Type 0 where
  pub submitted : ℕ
  pub completed : ℕ
  pub timed_out : ℕ
  pub device_error : ℕ
  pub resets : ℕ

pub data VnpuErrorType : Type 0 where
  validation_error system_error device_error driver_error internal_error : VnpuErrorType

-- `VnpuError` with its type, message, errno and device error, and the two standard exceptions.
pub data Exception : Type 0 where
  vnpu_error : VnpuErrorType → String → ℕ → ℕ → Exception
  std_system_error : ℕ → String → Exception
  std_runtime_error : List ℕ → Exception

pub data Result {ℓ} (A : Type ℓ) : Type ℓ where
  ok : A → Result A
  throws : Exception → Result A

-- A value of `int8_t`.
abbrev pub IsI8 : ℤ → Type 0
IsI8 x = (negsuc 127 ≤ℤ x) × (x ≤ℤ pos 127)

-- The checks at the head of both `vnpu_run_dot`: the message of the validation error.
unfoldable pub validate : List ℤ → List ℤ → ℤ → Option String
validate input_a input_b timeout =
    if not (length input_a == length input_b)
    then some "input_a and input_b length mismatch"
    else if not (length input_a == 8)
    then some "Revision A requires vector length 8"
    else if not (length input_b == 8)
    then some "Revision A requires vector length 8"
    else if not (ltb_ℤ (pos 0) timeout) || ltb_ℤ (pos 1000) timeout
    then some "timeout must be positive and must be under 1000"
    else none
