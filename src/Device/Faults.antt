-- ===== src/Device/Faults.antt =====
-- The fault-injection register, and what each fault does to an operation that completes.
use virtual_silicon_validati.Base.{
  ℕ, ◌+◌, ◌-◌, ◌/◌, ◌%◌, ◌≡◌, ◌⊎◌, refl, true, arith, bit_and, ==_iff, ◌==◌, if◌then◌else◌,
}
use virtual_silicon_validati.Base.Int.{ℤ, pos, negsuc}
use virtual_silicon_validati.Base.Bits.{
  every, every_lem, bit_and_nibble, bit_and-one, bit_and-two, bit_and-four, bit_and-eight,
  bit_xor-one,
}
use virtual_silicon_validati.Base.Word.{u32, neg64, IsI32, of_i32}
use virtual_silicon_validati.Device.State.{
  VnpuState, status_busy, status_error, irq_error, err_forced,
}
use virtual_silicon_validati.Device.Mmio.{lowest_fault}
use virtual_silicon_validati.Device.Timer.{corrupt, apply_fault}

-- The lowest of the bits 0 to 3 that is set, as a mask.
abbrev pub lowest_bit : ℕ → ℕ
lowest_bit v =
    if v % 2 == 1
    then 1
    else if v / 2 % 2 == 1
    then 2
    else if v / 4 % 2 == 1
    then 4
    else if v / 8 % 2 == 1
    then 8
    else 0

lowest_table : every (λ v. u32 (bit_and v (neg64 v)) == lowest_bit v) 16 ≡ true
unfolding every
lowest_table = refl

-- FAULT_CONTROL keeps the lowest-numbered fault bit that is written, and no other.
pub lowest_fault_lem : (val : ℕ) → lowest_fault val ≡ lowest_bit (val % 16)
unfolding lowest_fault
lowest_fault_lem val = rw (bit_and_nibble val) (
    (==_iff _ _).0 (
      every_lem (λ v. u32 (bit_and v (neg64 v)) == lowest_bit v) 16 (val % 16) lowest_table
        (omega arith)))

-- At most one of the four fault bits.
abbrev pub IsFault : ℕ → Type 0
IsFault f = (f ≡ 0) ⊎ ((f ≡ 1) ⊎ ((f ≡ 2) ⊎ ((f ≡ 4) ⊎ (f ≡ 8))))

pub lowest_fault-IsFault : (val : ℕ) → IsFault (lowest_fault val)
lowest_fault-IsFault val = ground (arith, lowest_fault_lem val)

-- The integer with the lowest digit of its pattern flipped.
abbrev pub flipped : ℤ → ℤ
flipped (pos n) = if n % 2 == 0 then pos (n + 1) else pos (n - 1)
flipped (negsuc n) = if n % 2 == 0 then negsuc (n + 1) else negsuc (n - 1)

pub corrupt_lem : (r : ℤ) → IsI32 r → corrupt r ≡ flipped r
unfolding corrupt
corrupt_lem (pos n) h = ground (arith, bit_xor-one (of_i32 (pos n)))
corrupt_lem (negsuc n) h = ground (arith, bit_xor-one (of_i32 (negsuc n)))

pub flipped-IsI32 : (r : ℤ) → IsI32 r → IsI32 (flipped r)
flipped-IsI32 (pos n) h = ground arith
flipped-IsI32 (negsuc n) h = ground arith

-- A corrupted result is off by one, so it is never the result.
pub flipped-ne : (r : ℤ) → ¬ (flipped r ≡ r)
flipped-ne (pos n) e = ground arith
flipped-ne (negsuc n) e = ground arith

-- The state that each fault leaves behind, from the state of a completed operation.
abbrev pub faulted : ℕ → VnpuState → VnpuState
faulted f s =
    if f == 1
    then record s { irq_status = 0 }
    else if f == 2
    then record s { status = status_busy; irq_status = 0 }
    else if f == 4
    then record s { result = corrupt s.result }
    else if f == 8
    then record s { status = status_error; err_code = err_forced; irq_status = irq_error }
    else s

pub apply_fault_lem :
    (s : VnpuState) → IsFault s.fault_control → apply_fault s ≡ faulted s.fault_control s
unfolding apply_fault
apply_fault_lem s h = ground (
  arith,
  bit_and-one s.fault_control,
  bit_and-two s.fault_control,
  bit_and-four s.fault_control,
  bit_and-eight s.fault_control,
)
